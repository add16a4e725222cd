-- ===== src/Recorder/Payload.antt =====
-- sdk-js/src/index.ts: the interface of the events that the recorder sends.
--
-- A property with `?` is an `Option`, and one that may be null too an `Option` of an `Option`.
pub mod Typed
use Prim.Native.Char.{code}
use Prim.Native.String
use blackbox_agent_accountab.Prelude.{
  ℕ, String, Bool, true, false, ◌&&◌, ◌||◌, Option, none, some, ◌==◌, ◌===◌, if◌then◌else◌,
}
use blackbox_agent_accountab.Json.{Json, null, str, num, obj, end, field, Fields, Literal, get}
use blackbox_agent_accountab.Recorder
use blackbox_agent_accountab.Recorder.{
  ApprovedBy, human, auto, nobody, LlmCall, ToolCall, ToolResult,
}

pub data Kind : Type 0 where
  llm_call tool_call tool_result : Kind

pub record EventPayload : Type 0 where
  pub agent_id : String
  pub session_id : String
  pub kind : Kind
  pub intent : Option String
  pub tool : Option (Option String)
  pub args : Option Fields
  pub output : Option String
  pub approved_by : Option ApprovedBy
  pub model : Option (Option String)
  pub input_tokens : Option (Option ℕ)
  pub output_tokens : Option (Option ℕ)

infixl 1 ◌>>=◌
abbrev ◌>>=◌ : {A B : Type 0} → Option A → (A → Option B) → Option B
none >>= f = none
some a >>= f = f a

abbrev to_str : Json → Option String
to_str (str s) = some s
to_str _ = none

abbrev to_num : Json → Option ℕ
to_num (num n) = some n
to_num _ = none

abbrev to_obj : Json → Option Fields
to_obj (obj fs) = some fs
to_obj _ = none

abbrev to_kind : Json → Option Kind
to_kind (str s) =
    if s === "llm_call"
    then some llm_call
    else if s === "tool_call"
    then some tool_call
    else if s === "tool_result"
    then some tool_result
    else none
to_kind _ = none

-- What follows the prefix `p` in a text.
abbrev pub after : String → String → Option String
after String.[] s = some s
after (String.◌∷◌ c p) String.[] = none
after (String.◌∷◌ c p) (String.◌∷◌ d s) = if code c == code d then after p s else none

abbrev to_approver : String → Option String → Option ApprovedBy
to_approver s (some who) = some (human who)
to_approver s none = if s === "auto" then some auto else none

-- `human:${string}`, "auto" or null
abbrev pub to_approved_by : Json → Option ApprovedBy
to_approved_by null = some nobody
to_approved_by (str s) = to_approver s (after "human:" s)
to_approved_by _ = none

-- A value of the type, or null.
abbrev or_null : {A : Type 0} → (Json → Option A) → Json → Option (Option A)
or_null f null = some none
or_null f j = f j >>= λ a. some (some a)

-- A property that has to be there, and one that need not be.
abbrev required : {A : Type 0} → (Json → Option A) → Option Json → Option A
required f none = none
required f (some j) = f j

abbrev optional : {A : Type 0} → (Json → Option A) → Option Json → Option (Option A)
optional f none = some none
optional f (some j) = f j >>= λ a. some (some a)

abbrev declared : String → Bool
declared k =
    k === "agent_id"
    || k === "session_id"
    || k === "kind"
    || k === "intent"
    || k === "tool"
    || k === "args"
    || k === "output"
    || k === "approved_by"
    || k === "model"
    || k === "input_tokens"
    || k === "output_tokens"

abbrev all_declared : Fields → Bool
all_declared end = true
all_declared (field k v fs) = declared k && all_declared fs

abbrev read_fields : Fields → Option EventPayload
read_fields fs = do
  agent_id ← required to_str (get "agent_id" fs)
  session_id ← required to_str (get "session_id" fs)
  kind ← required to_kind (get "kind" fs)
  intent ← optional to_str (get "intent" fs)
  tool ← optional (or_null to_str) (get "tool" fs)
  args ← optional to_obj (get "args" fs)
  output ← optional to_str (get "output" fs)
  approved_by ← optional to_approved_by (get "approved_by" fs)
  model ← optional (or_null to_str) (get "model" fs)
  input_tokens ← optional (or_null to_num) (get "input_tokens" fs)
  output_tokens ← optional (or_null to_num) (get "output_tokens" fs)
  some (record {
    agent_id = agent_id;
    session_id = session_id;
    kind = kind;
    intent = intent;
    tool = tool;
    args = args;
    output = output;
    approved_by = approved_by;
    model = model;
    input_tokens = input_tokens;
    output_tokens = output_tokens;
  })

-- A JSON value as an `EventPayload`, if it is an object with its properties and no others.
unfoldable pub event_payload : Option Json → Option EventPayload
event_payload (some (obj fs)) = if all_declared fs then read_fields fs else none
event_payload _ = none

-- What an agent records, by the three operations of the recorder.
pub data Recording : Type 0 where
  llm : LlmCall → Recording
  call : ToolCall → Recording
  result : ToolResult → Recording

-- The argument of `emit`.
abbrev pub payload : Recording → Literal
payload (llm o) = Recorder.llm_call o
payload (call o) = Recorder.tool_call o
payload (result o) = Recorder.tool_result o
