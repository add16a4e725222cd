-- ===== src/Tests/Client.antt =====
-- The client that records events.
use blackbox_agent_accountab.Prelude.{◌≡◌, ◌≢◌, refl, none, some, [], ◌∷◌, String, arith}
use blackbox_agent_accountab.Json.{str, num, end}
use blackbox_agent_accountab.Recorder.{
  LlmCall, ToolCall, ToolResult, RecorderOptions, Recorder, new_recorder, emit_request, human,
}
use blackbox_agent_accountab.Recorder.Payload
use blackbox_agent_accountab.Recorder.Payload.{EventPayload, event_payload, call, payload}
use blackbox_agent_accountab.Recorder.Payload.Typed.{body_is_event}
use blackbox_agent_accountab.Recorder.Events.{events_url}

abbrev given : String → RecorderOptions
given base = record { agent_id = "a1"; session_id = "s1"; base_url = base; api_key = "tv_live_1" }

abbrev recorder : Recorder
recorder = record {
  agent_id = "a1";
  session_id = "s1";
  base_url = "https://api.x";
  api_key = "tv_live_1";
}

new_recorder_test : new_recorder (given "https://api.x/") ≡ recorder
unfolding new_recorder
new_recorder_test = refl

abbrev asked : LlmCall
asked = record {
  intent = "plan";
  output = none;
  model = some "claude";
  input_tokens = some 12;
  output_tokens = none;
}

abbrev mail : ToolCall
mail = record {
  tool = "send_email";
  args = none;
  intent = some "report";
  approved_by = some (human "u7");
}

abbrev mailed : ToolResult
mailed = record { tool = "send_email"; output = "250 OK" }

abbrev sent : EventPayload
sent = record {
  agent_id = "a1";
  session_id = "s1";
  kind = Payload.tool_call;
  intent = some "report";
  tool = some (some "send_email");
  args = some end;
  output = none;
  approved_by = some (human "u7");
  model = none;
  input_tokens = none;
  output_tokens = none;
}

body_is_event_example : event_payload (emit_request recorder (payload (call mail))).body ≡ some sent
body_is_event_example = body_is_event recorder (call mail)

-- A property that is not declared, and one of another type.
event_payload_tests :
    (event_payload (emit_request recorder (("kind", some (str "llm_call")) ∷ [])).body ≢ none)
    × (event_payload (emit_request recorder (("kind", some (str "chat")) ∷ [])).body ≡ none)
    × (event_payload
          (emit_request recorder
            (("kind", some (str "llm_call")) ∷ ("cost", some (num 3)) ∷ [])).body
        ≡ none)
unfolding event_payload emit_request
event_payload_tests = (λ e. cc, refl, refl)

events_url_example :
    ((emit_request (new_recorder (given "https://api.x")) []).url ≡ "https://api.x/events")
    × ((emit_request (new_recorder (given "https://api.x/")) []).url ≡ "https://api.x/events")
events_url_example =
    events_url "https://api.x" (given "https://api.x") (given "https://api.x/") [] (omega arith)
      refl refl
