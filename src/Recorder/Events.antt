-- ===== src/Recorder/Events.antt =====
-- sdk-js/src/index.ts:
-- What the recorder sends, read back from the request, and when a recording succeeds.
use Prim.Native.Char.{code}
use Prim.Native.String
use Prim.Native.String.{String}
use text.Mathlib.TextLemmas.{cons-append}
use blackbox_agent_accountab.Prelude.{
  ℕ, ◌≡◌, ◌↔◌, ◌≢◌, ◌∙◌, refl, ap, Option, none, some, [], ◌∷◌, ok, arith, ◌≤◌, or_else,
}
use blackbox_agent_accountab.Js.{template}
use blackbox_agent_accountab.Json.{Json, str, obj, get, Literal, end}
use blackbox_agent_accountab.Api.{Init}
use blackbox_agent_accountab.Recorder.{
  LlmCall, ToolCall, ToolResult, RecorderOptions, Recorder, drop_slash, new_recorder, Answer,
  answer, failed, emit_request, emit, str?, num?, approval, llm_call, tool_call, tool_result,
}

-- The last code point of a text, 0 if it is empty.
abbrev pub last_code : String → ℕ
last_code String.[] = 0
last_code (String.◌∷◌ c String.[]) = code c
last_code (String.◌∷◌ c (String.◌∷◌ d s)) = last_code (String.◌∷◌ d s)

-- A property of the JSON object in the body of a request.
abbrev property_of : Option Json → String → Option Json
property_of (some (obj fs)) k = get k fs
property_of _ k = none

abbrev pub property : Init → String → Option Json
property i k = property_of i.body k

-- An `llm_call` arrives with the agent and the session of the recorder, its kind and its intent, an
-- output that is empty if none was given, and the model and the token counts exactly if they were
-- given; it has no tool and no approval.
pub llm_call_body :
    (r : Recorder) (o : LlmCall)
    → let sent = property (emit_request r (llm_call o)) in
      (sent "agent_id" ≡ some (str r.agent_id))
      × (sent "session_id" ≡ some (str r.session_id))
      × (sent "kind" ≡ some (str "llm_call"))
      × (sent "intent" ≡ some (str o.intent))
      × (sent "output" ≡ some (str (or_else o.output "")))
      × (sent "model" ≡ str? o.model)
      × (sent "input_tokens" ≡ num? o.input_tokens)
      × (sent "output_tokens" ≡ num? o.output_tokens)
      × (sent "tool" ≡ none)
      × (sent "approved_by" ≡ none)
unfolding emit_request llm_call
llm_call_body r o = ground arith

-- A `tool_call` arrives with the agent and the session of the recorder, its kind and its tool, its
-- arguments and its intent, both empty if not given, and always with an approval, which is null
-- if none was given; it has no output.
pub tool_call_body :
    (r : Recorder) (o : ToolCall)
    → let sent = property (emit_request r (tool_call o)) in
      (sent "agent_id" ≡ some (str r.agent_id))
      × (sent "session_id" ≡ some (str r.session_id))
      × (sent "kind" ≡ some (str "tool_call"))
      × (sent "tool" ≡ some (str o.tool))
      × (sent "args" ≡ some (obj (or_else o.args end)))
      × (sent "intent" ≡ some (str (or_else o.intent "")))
      × (sent "approved_by" ≡ some (approval o.approved_by))
      × (sent "output" ≡ none)
unfolding emit_request tool_call
tool_call_body r o = ground arith

-- A `tool_result` arrives with the agent and the session of the recorder, its kind, its tool and its
-- output, and with no intent, no arguments and no approval.
pub tool_result_body :
    (r : Recorder) (o : ToolResult)
    → let sent = property (emit_request r (tool_result o)) in
      (sent "agent_id" ≡ some (str r.agent_id))
      × (sent "session_id" ≡ some (str r.session_id))
      × (sent "kind" ≡ some (str "tool_result"))
      × (sent "tool" ≡ some (str o.tool))
      × (sent "output" ≡ some (str o.output))
      × (sent "intent" ≡ none)
      × (sent "args" ≡ none)
      × (sent "approved_by" ≡ none)
unfolding emit_request tool_result
tool_result_body r o = (refl, refl, refl, refl, refl, refl, refl, refl)

-- A recording succeeds exactly when the server answers with a status from 200 to 299.
pub emit-eq-ok_iff :
    (a : Answer)
    → (emit a ≡ ok tt) ↔ (
        (status : ℕ) × (text : String) × (a ≡ answer status text) × (200 ≤ status) × (status ≤ 299))
unfolding emit
emit-eq-ok_iff (failed e) = (λ h. ground arith, λ h. ground arith)
emit-eq-ok_iff (answer status text) =
    (λ h. (status, text, refl, ground arith, ground arith), λ h. ground arith)

drop_slash-append : (s : String) → drop_slash (String.◌++◌ s "/") ≡ s
unfolding drop_slash
drop_slash-append String.[] = refl
drop_slash-append (String.◌∷◌ c String.[]) = rw cons-append refl
drop_slash-append (String.◌∷◌ c (String.◌∷◌ d s)) =
    rw (cons-append, cons-append)
      (ap (String.◌∷◌ c) (rw cons-append at (drop_slash-append (String.◌∷◌ d s))))

drop_slash_other : (s : String) → last_code s ≢ b'/' → drop_slash s ≡ s
unfolding drop_slash
drop_slash_other String.[] h = refl
drop_slash_other (String.◌∷◌ c String.[]) h = ground arith
drop_slash_other (String.◌∷◌ c (String.◌∷◌ d s)) h =
    ap (String.◌∷◌ c) (drop_slash_other (String.◌∷◌ d s) h)

-- A base URL may be given with one slash at its end or with none: events go to "/events" below it.
pub events_url :
    (base : String) (o o' : RecorderOptions) (p : Literal)
    → last_code base ≢ b'/'
    → o.base_url ≡ base
    → o'.base_url ≡ template (base ∷ "/" ∷ [])
    → ((emit_request (new_recorder o) p).url ≡ template (base ∷ "/events" ∷ []))
      × ((emit_request (new_recorder o') p).url ≡ template (base ∷ "/events" ∷ []))
unfolding emit_request new_recorder
events_url base o o' p h e e' = (
  ap (λ b. template (b ∷ "/events" ∷ [])) (ap drop_slash e ∙ drop_slash_other base h),
  ap (λ b. template (b ∷ "/events" ∷ [])) (ap drop_slash e' ∙ drop_slash-append base),
)
