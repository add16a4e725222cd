-- ===== src/Settings.antt =====
-- frontend/app/app/settings/page.tsx: the Anthropic key, the compliance framework, the custom rules,
-- the automated runs and the alerts of a workspace.
--
-- This file has the state of the page and its calls; a child has the handlers of each section of
-- the page, Settings/Events what starts them, and Settings/View what is rendered.
pub mod Byok
pub mod Rules
pub mod Framework
pub mod Schedules
pub mod Webhooks
pub mod Events
pub mod View
pub mod Frames
pub mod Quiescence
pub mod Calls
pub mod Saving
pub mod Keywords
use blackbox_agent_accountab.Prelude.{ℕ, String, Bool, Option, none, some, List, [], ◌∷◌}
use blackbox_agent_accountab.Js.{template}
use blackbox_agent_accountab.Js.Encoding.{encode_uri_component}
use blackbox_agent_accountab.Json.{arr, bool, num, str, texts}
use blackbox_agent_accountab.Api.{Options, bare, with_body, fetching}
use blackbox_agent_accountab.Runtime.{Prog}

pub record PolicyRule : Type 0 where
  pub id : String
  pub description : String
  pub severity : String
  pub keywords : List String
  pub custom : Bool

pub record FrameworkInfo : Type 0 where
  pub framework : String
  pub available : List String

pub record Schedule : Type 0 where
  pub enabled : Bool
  pub interval_minutes : ℕ
  pub last_run_at : Option String

pub record Webhook : Type 0 where
  pub url : Option String
  pub secret : Option String

-- The state of the page: its hooks, section by section.
pub record Page : Type 0 where
  pub token : Option String
  pub confirm : Option String
  pub configured : Option Bool
  pub key : String
  pub err : Option String
  pub rules : List PolicyRule
  pub rule_id : String
  pub rule_desc : String
  pub rule_severity : String
  pub rule_keywords : String
  pub rule_err : Option String
  pub rule_busy : Bool
  pub framework_info : Option FrameworkInfo
  pub framework_busy : Bool
  pub framework_err : Option String
  pub schedule : Option Schedule
  pub schedule_interval : ℕ
  pub schedule_err : Option String
  pub schedule_busy : Bool
  pub webhook : Option Webhook
  pub webhook_url : String
  pub webhook_err : Option String
  pub webhook_busy : Bool

-- The calls of the API that the page makes.
pub data Req : Type 0 where
  get_byok : String → Req
  put_byok : String → String → Req
  delete_byok : String → Req
  get_rules : String → Req
  -- the rule's id, description, severity and keywords
  put_rule : String → String → String → String → List String → Req
  delete_rule : String → String → Req
  get_framework : String → Req
  put_framework : String → String → Req
  get_schedule : String → Req
  put_schedule : String → Bool → ℕ → Req
  get_webhook : String → Req
  put_webhook : String → String → Req
  delete_webhook : String → Req

abbrev pub Reply : Req → Type 0
Reply (get_byok _) = Bool
Reply (get_rules _) = List PolicyRule
Reply (get_framework _) = FrameworkInfo
Reply (get_schedule _) = Schedule
Reply (get_webhook _) = Webhook
Reply _ = Unit {0}

-- What the call of a request is given.
unfoldable pub wire : Req → String × Options
wire (get_byok t) = ("/byok", fetching t)
wire (put_byok t key) = ("/byok", with_body "PUT" t (("key", some (str key)) ∷ []))
wire (delete_byok t) = ("/byok", bare "DELETE" t)
wire (get_rules t) = ("/policy/rules", fetching t)
wire (put_rule t id description severity keywords) = (
  template ("/policy/rules/" ∷ encode_uri_component id ∷ []),
  with_body "PUT" t (
      ("description", some (str description))
      ∷ ("severity", some (str severity))
      ∷ ("keywords", some (arr (texts keywords)))
      ∷ []),
)
wire (delete_rule t id) =
    (template ("/policy/rules/" ∷ encode_uri_component id ∷ []), bare "DELETE" t)
wire (get_framework t) = ("/orgs/framework", fetching t)
wire (put_framework t f) = ("/orgs/framework", with_body "PUT" t (("framework", some (str f)) ∷ []))
wire (get_schedule t) = ("/schedule", fetching t)
wire (put_schedule t enabled minutes) = (
  "/schedule",
  with_body "PUT" t
      (("enabled", some (bool enabled)) ∷ ("interval_minutes", some (num minutes)) ∷ []),
)
wire (get_webhook t) = ("/webhooks", fetching t)
wire (put_webhook t url) = ("/webhooks", with_body "PUT" t (("url", some (str url)) ∷ []))
wire (delete_webhook t) = ("/webhooks", bare "DELETE" t)

abbrev pub Handler : Type 0
Handler = Prog Page Req Reply
