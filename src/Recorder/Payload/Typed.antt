-- ===== src/Recorder/Payload/Typed.antt =====
-- sdk-js/src/index.ts:
-- The body of every request as an event of the interface.
use Prim.Native.String
use text.Mathlib.TextLemmas.{nil-append, cons-append, append-nil}
use blackbox_agent_accountab.Prelude.{String, ◌≡◌, refl, ap, Option, none, some, arith, or_else}
use blackbox_agent_accountab.Json.{end}
use blackbox_agent_accountab.Recorder as Client
use blackbox_agent_accountab.Recorder.{
  Recorder, ApprovedBy, human, auto, nobody, LlmCall, ToolCall, ToolResult, emit_request, approval,
}
use blackbox_agent_accountab.Recorder.Payload.{
  EventPayload, llm_call, tool_call, tool_result, after, to_approved_by, event_payload, Recording,
  llm, call, result, payload,
}

-- The event that a recording stands for.
abbrev pub event_of : Recorder → Recording → EventPayload
event_of r (llm o) = record {
  agent_id = r.agent_id;
  session_id = r.session_id;
  kind = llm_call;
  intent = some o.intent;
  tool = none;
  args = none;
  output = some (or_else o.output "");
  approved_by = none;
  model = elim o.model [ none ↦ none | some m ↦ some (some m) ];
  input_tokens = elim o.input_tokens [ none ↦ none | some n ↦ some (some n) ];
  output_tokens = elim o.output_tokens [ none ↦ none | some n ↦ some (some n) ];
}
event_of r (call o) = record {
  agent_id = r.agent_id;
  session_id = r.session_id;
  kind = tool_call;
  intent = some (or_else o.intent "");
  tool = some (some o.tool);
  args = some (or_else o.args end);
  output = none;
  approved_by = some (or_else o.approved_by nobody);
  model = none;
  input_tokens = none;
  output_tokens = none;
}
event_of r (result o) = record {
  agent_id = r.agent_id;
  session_id = r.session_id;
  kind = tool_result;
  intent = none;
  tool = some (some o.tool);
  args = none;
  output = some o.output;
  approved_by = none;
  model = none;
  input_tokens = none;
  output_tokens = none;
}

after-append : (p s : String) → after p (String.◌++◌ p s) ≡ some s
after-append String.[] s = ap some (nil-append s)
after-append (String.◌∷◌ c p) s = rw cons-append (let rest = after-append p s in ground arith)

to_approved_by-approval :
    (a : Option ApprovedBy) → to_approved_by (approval a) ≡ some (or_else a nobody)
to_approved_by-approval none = refl
to_approved_by-approval (some nobody) = refl
to_approved_by-approval (some auto) = refl
to_approved_by-approval (some (human who)) =
    rw (after-append "human:" (String.◌++◌ who "")) (ap (λ w. some (human w)) (append-nil who))

llm_lem :
    (r : Recorder) (o : LlmCall)
    → event_payload (emit_request r (payload (llm o))).body ≡ some (event_of r (llm o))
unfolding event_payload emit_request Client.llm_call
llm_lem r o = ground arith

call_lem :
    (r : Recorder) (o : ToolCall)
    → event_payload (emit_request r (payload (call o))).body ≡ some (event_of r (call o))
unfolding event_payload emit_request Client.tool_call
call_lem r o = rw (to_approved_by-approval o.approved_by) refl

result_lem :
    (r : Recorder) (o : ToolResult)
    → event_payload (emit_request r (payload (result o))).body ≡ some (event_of r (result o))
unfolding event_payload emit_request Client.tool_result
result_lem r o = refl

-- What the recorder posts for a recording is an object with the properties of `EventPayload`, of the
-- types that it declares, and with no others: the agent and the session of the recorder, the kind of
-- the recording, the values that were given, and the defaults of those that were not.
pub body_is_event :
    (r : Recorder) (x : Recording)
    → event_payload (emit_request r (payload x)).body ≡ some (event_of r x)
body_is_event r (llm o) = llm_lem r o
body_is_event r (call o) = call_lem r o
body_is_event r (result o) = result_lem r o
