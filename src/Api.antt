-- ===== src/Api.antt =====
-- frontend/lib/api.ts: requests with a timeout.
--
-- The network and the backend are an argument of a request: what its call of `fetch` comes to and
-- when, in milliseconds since the request was made. A response that comes at the very millisecond
-- of the timeout is taken to be late.
pub mod Timeout
pub mod Messages
use blackbox_agent_accountab.Prelude.{
  ℕ, ◌+◌, String, Bool, true, false, ◌&&◌, Option, none, some, List, [], ◌∷◌, ltb, leb,
  if◌then◌else◌, or_else, Result, ok, err,
}
use blackbox_agent_accountab.Js.{template, to_string, includes}
use blackbox_agent_accountab.Json.{Json, str, Literal, stringify, truthy_json}

pub record Options : Type 0 where
  pub token : String
  pub method : Option String
  pub body : Option Json
  pub timeout_ms : Option ℕ

-- The options of a call with no body, and of one with a body.
abbrev pub bare : String → String → Options
bare method token = record { token = token; method = some method; body = none; timeout_ms = none }

abbrev pub with_body : String → String → Literal → Options
with_body method token ps = record {
  token = token;
  method = some method;
  body = some (stringify ps);
  timeout_ms = none;
}

-- `{ token }`
abbrev pub fetching : String → Options
fetching token = record { token = token; method = none; body = none; timeout_ms = none }

abbrev pub default_timeout_ms : ℕ
default_timeout_ms = 15000

-- What `fetch` is called with. Every request has a signal.
pub record Init : Type 0 where
  pub url : String
  pub method : String
  pub headers : List (String × String)
  pub body : Option Json

-- A response whose headers are there. Its body follows `body_delay` later, or never; `text`,
-- `json` and `blob` are what reading it in that way comes to; each can fail.
pub record Response (B : Type 0) : Type 0 where
  pub status : ℕ
  pub content_type : Option String
  pub body_delay : Option ℕ
  pub text : Result String
  pub json : Result B
  pub blob : Result (List ℕ)

pub data Fetched (B : Type 0) : Type 0 where
  -- the headers come after so many milliseconds
  responds : ℕ → Response B → Fetched B
  -- a network error comes, with its `String(e)`
  fails : ℕ → String → Fetched B
  hangs : Fetched B

abbrev pub is_ok : ℕ → Bool
is_ok status = leb 200 status && leb status 299

unfoldable pub timed_out : String → String
timed_out path = template ("Error: API request to " ∷ path ∷ " timed out" ∷ [])

unfoldable pub api_error : ℕ → String → String
api_error status text = template ("Error: API " ∷ to_string status ∷ ": " ∷ text ∷ [])

abbrev sent_body : Option Json → Option Json
sent_body none = none
sent_body (some v) = if truthy_json v then some v else none

-- The argument of `fetch` in `rawFetch`; `base` is NEXT_PUBLIC_API_URL.
unfoldable pub request : Option String → String → Options → Init
request base path opts = record {
  url = template (or_else base "" ∷ path ∷ []);
  method = or_else opts.method "GET";
  headers =
      ("Authorization", template ("Bearer " ∷ opts.token ∷ []))
      ∷ ("Content-Type", "application/json")
      ∷ [];
  body = sent_body opts.body;
}

abbrev pub timeout : Options → ℕ
timeout opts = or_else opts.timeout_ms default_timeout_ms

-- What is thrown for an error status: the text of the response, or the error of reading it.
abbrev status_error : {A : Type 0} → ℕ → Result String → Result A
status_error status (ok text) = err (api_error status text)
status_error status (err e) = err e

module _ {B : Type 0} (path : String) (opts : Options) where
  -- The text of an error response, read under the timeout.
  abbrev pub read_error : ℕ → Response B → ℕ × Result (Response B)
  read_error t res = elim res.body_delay [
    | none ↦ (timeout opts, err (timed_out path))
    | some d ↦
        if ltb (t + d) (timeout opts)
        then (t + d, status_error res.status res.text)
        else (timeout opts, err (timed_out path))
  ]

  -- `rawFetch`: when it settles, and with what.
  unfoldable pub raw_fetch : Fetched B → ℕ × Result (Response B)
  raw_fetch hangs = (timeout opts, err (timed_out path))
  raw_fetch (fails t e) =
      if ltb t (timeout opts) then (t, err e) else (timeout opts, err (timed_out path))
  raw_fetch (responds t res) =
      if ltb t (timeout opts)
      then (if is_ok res.status then (t, ok res) else read_error t res)
      else (timeout opts, err (timed_out path))

pub data Body (B : Type 0) : Type 0 where
  json : B → Body B
  text : String → Body B

abbrev pub map_result : {A B : Type 0} → (A → B) → Result A → Result B
map_result f (ok a) = ok (f a)
map_result f (err e) = err e

-- Waits for the body of a response, which no timeout limits; `none` is for ever.
abbrev pub read_body :
    {B C : Type 0} → (Response B → Result C) → ℕ × Result (Response B) → Option (ℕ × Result C)
read_body f (t, err e) = some (t, err e)
read_body f (t, ok res) = elim res.body_delay [ none ↦ none | some d ↦ some (t + d, f res) ]

abbrev pub decode : {B : Type 0} → Response B → Result (Body B)
decode res =
    if includes (or_else res.content_type "") "application/json"
    then map_result json res.json
    else map_result text res.text

-- `apiFetch`
unfoldable pub api_fetch :
    {B : Type 0} → String → Options → Fetched B → Option (ℕ × Result (Body B))
unfolding raw_fetch
api_fetch path opts f = read_body decode (raw_fetch path opts f)

-- `apiFetchBlob`
unfoldable pub api_fetch_blob :
    {B : Type 0} → String → Options → Fetched B → Option (ℕ × Result (List ℕ))
unfolding raw_fetch
api_fetch_blob path opts f = read_body (λ res. res.blob) (raw_fetch path opts f)

-- The `try` of `ensureOrg`, whose `catch` swallows the error.
abbrev swallow : {A : Type 0} → Option (ℕ × Result A) → Option (ℕ × Result (Unit {0}))
swallow none = none
swallow (some (t, _)) = some (t, ok tt)

-- `ensureOrg`
unfoldable pub ensure_org :
    {B : Type 0} → String → String → Fetched B → Option (ℕ × Result (Unit {0}))
unfolding api_fetch
ensure_org token name f =
    swallow (api_fetch "/orgs" (with_body "POST" token (("name", some (str name)) ∷ [])) f)
