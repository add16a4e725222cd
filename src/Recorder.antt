-- ===== src/Recorder.antt =====
-- sdk-js/src/index.ts: the client that records the steps of an agent.
--
-- Function names as in the source. `none` in an options record is a property that the caller leaves
-- out, or `undefined`; `fetch` is an argument, what it answers is the reply of a call.
pub mod Events
pub mod Payload
use blackbox_agent_accountab.Prelude.{
  ℕ, String, Bool, true, false, Option, none, some, List, [], ◌∷◌, ◌++◌, Result, ok, err,
  if◌then◌else◌, or_else, ◌==◌,
}
use Prim.Native.Char.{code}
use Prim.Native.String
use blackbox_agent_accountab.Js.{template, to_string}
use blackbox_agent_accountab.Json.{
  Json, null, str, num, obj, end, Fields, Literal, spread, stringify,
}
use blackbox_agent_accountab.Api.{Init, is_ok}

-- `human:${string}`, "auto" or null
pub data ApprovedBy : Type 0 where
  human : String → ApprovedBy
  auto : ApprovedBy
  nobody : ApprovedBy

pub record LlmCall : Type 0 where
  pub intent : String
  pub output : Option String
  pub model : Option String
  pub input_tokens : Option ℕ
  pub output_tokens : Option ℕ

pub record ToolCall : Type 0 where
  pub tool : String
  pub args : Option Fields
  pub intent : Option String
  pub approved_by : Option ApprovedBy

pub record ToolResult : Type 0 where
  pub tool : String
  pub output : String

-- `TeluvaneRecorderOptions`, less `fetchImpl`
pub record RecorderOptions : Type 0 where
  pub agent_id : String
  pub session_id : String
  pub base_url : String
  pub api_key : String

pub record Recorder : Type 0 where
  pub agent_id : String
  pub session_id : String
  pub base_url : String
  pub api_key : String

-- `s.replace(/\/$/, "")`
unfoldable pub drop_slash : String → String
drop_slash String.[] = ""
drop_slash (String.◌∷◌ c String.[]) = if code c == b'/' then "" else String.◌∷◌ c ""
drop_slash (String.◌∷◌ c (String.◌∷◌ d s)) = String.◌∷◌ c (drop_slash (String.◌∷◌ d s))

-- The constructor.
unfoldable pub new_recorder : RecorderOptions → Recorder
unfolding drop_slash
new_recorder o = record {
  agent_id = o.agent_id;
  session_id = o.session_id;
  base_url = drop_slash o.base_url;
  api_key = o.api_key;
}

-- What the server answers, or the error of `fetch`.
pub data Answer : Type 0 where
  answer : ℕ → String → Answer
  failed : String → Answer

-- The request of `emit`.
unfoldable pub emit_request : Recorder → Literal → Init
emit_request r payload = record {
  url = template (r.base_url ∷ "/events" ∷ []);
  method = "POST";
  headers =
      ("Content-Type", "application/json")
      ∷ ("Authorization", template ("Bearer " ∷ r.api_key ∷ []))
      ∷ [];
  body = some (
      stringify (
        spread (("agent_id", some (str r.agent_id)) ∷ ("session_id", some (str r.session_id)) ∷ [])
          payload));
}

-- What `emit` settles with: nothing, or the error that it throws.
unfoldable pub emit : Answer → Result (Unit {0})
emit (failed e) = err e
emit (answer status text) =
    if is_ok status
    then ok tt
    else err (template ("Error: TELUVANE /events failed: " ∷ to_string status ∷ " " ∷ text ∷ []))

abbrev str? : Option String → Option Json
str? none = none
str? (some s) = some (str s)

abbrev num? : Option ℕ → Option Json
num? none = none
num? (some n) = some (num n)

abbrev approval : Option ApprovedBy → Json
approval none = null
approval (some nobody) = null
approval (some auto) = str "auto"
approval (some (human who)) = str (template ("human:" ∷ who ∷ []))

-- The payload of `recordLlmCall`.
unfoldable pub llm_call : LlmCall → Literal
llm_call o =
    ("kind", some (str "llm_call"))
    ∷ ("intent", some (str o.intent))
    ∷ ("output", some (str (or_else o.output "")))
    ∷ ("model", str? o.model)
    ∷ ("input_tokens", num? o.input_tokens)
    ∷ ("output_tokens", num? o.output_tokens)
    ∷ []

-- The payload of `recordToolCall`.
unfoldable pub tool_call : ToolCall → Literal
tool_call o =
    ("kind", some (str "tool_call"))
    ∷ ("tool", some (str o.tool))
    ∷ ("args", some (obj (or_else o.args end)))
    ∷ ("intent", some (str (or_else o.intent "")))
    ∷ ("approved_by", some (approval o.approved_by))
    ∷ []

-- The payload of `recordToolResult`.
unfoldable pub tool_result : ToolResult → Literal
tool_result o =
    ("kind", some (str "tool_result"))
    ∷ ("tool", some (str o.tool))
    ∷ ("output", some (str o.output))
    ∷ []
