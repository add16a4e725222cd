-- ===== src/Tests/Http.antt =====
-- The requests of the dashboard.
use blackbox_agent_accountab.Prelude.{
  ℕ, ◌≤◌, ◌<◌, ◌≡◌, ◌↔◌, refl, Option, none, some, [], ◌∷◌, true, ok, err,
}
use blackbox_agent_accountab.Js.{to_string, includes, trim, split_commas}
use blackbox_agent_accountab.Js.Encoding.{encode_uri_component, form_encode}
use blackbox_agent_accountab.Json.{Json, null}
use blackbox_agent_accountab.Api.{
  Options, fetching, Response, responds, hangs, is_ok, timeout, timed_out, api_error, raw_fetch,
  api_fetch, json,
}
use blackbox_agent_accountab.Api.Timeout.{raw_fetch-eq-ok_iff, api_fetch_pending_iff}

text_tests :
    (to_string 402 ≡ "402")
    × (includes "API 402: x" "402" ≡ true)
    × (trim "  a b " ≡ "a b")
    × (split_commas "a,,b" ≡ "a" ∷ "" ∷ "b" ∷ [])
    × (encode_uri_component "a b/é" ≡ "a%20b%2F%C3%A9")
    × (form_encode "a b&" ≡ "a+b%26")
unfolding to_string includes trim split_commas encode_uri_component form_encode
text_tests = (refl, refl, refl, refl, refl, refl)

abbrev opts : Options
opts = fetching "jwt"

abbrev respond : ℕ → Option ℕ → Response Json
respond status delay = record {
  status = status;
  content_type = some "application/json; charset=utf-8";
  body_delay = delay;
  text = ok "nope";
  json = ok null;
  blob = ok [];
}

fetch_tests :
    (api_fetch "/keys" opts (responds 20 (respond 200 (some 5))) ≡ some (25, ok (json null)))
    × (api_fetch "/keys" opts (responds 20 (respond 402 (some 5)))
        ≡ some (25, err "Error: API 402: nope"))
    × (api_fetch {B = Json} "/keys" opts hangs
        ≡ some (15000, err "Error: API request to /keys timed out"))
    × (api_fetch "/keys" opts (responds 20 (respond 200 none)) ≡ none)
unfolding api_fetch includes api_error timed_out to_string
fetch_tests = (refl, refl, refl, refl)

raw_fetch-eq-ok_iff_example :
    (raw_fetch "/keys" opts (responds 20 (respond 204 none)) ≡ (20, ok (respond 204 none))) ↔ (
      (responds 20 (respond 204 none) ≡ responds 20 (respond 204 none))
      × (20 < timeout opts)
      × (200 ≤ 204)
      × (204 ≤ 299))
raw_fetch-eq-ok_iff_example =
    raw_fetch-eq-ok_iff "/keys" opts (responds 20 (respond 204 none)) 20 (respond 204 none)

api_fetch_pending_iff_example : (api_fetch "/keys" opts (responds 20 (respond 200 none)) ≡ none) ↔ (
    (t : ℕ) × (res : Response Json) × (responds 20 (respond 200 none) ≡ responds t res)
    × (t < timeout opts)
    × (is_ok res.status ≡ true)
    × (res.body_delay ≡ none))
api_fetch_pending_iff_example = api_fetch_pending_iff "/keys" opts (responds 20 (respond 200 none))
