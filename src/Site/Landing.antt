-- ===== src/Site/Landing.antt =====
-- frontend/app/page.tsx and frontend/components/landing: the landing page.
pub mod Pricing
use Prim.Native.String
use blackbox_agent_accountab.Prelude.{
  ℕ, suc, String, Bool, true, false, List, [], ◌∷◌, ◌++◌, length, if◌then◌else◌, ◌==◌,
}
use blackbox_agent_accountab.Js.{template, to_string}
use blackbox_agent_accountab.Site.{Element, text, anchor, link, outward, each}
use blackbox_agent_accountab.Site.Landing.Pricing.{pricing_zigzag}

-- EvidenceLogCard.tsx
pub record LogEvent : Type 0 where
  pub id : String
  pub kind : String
  pub action : String
  pub hash : String
  pub prev : String

abbrev pub events : List LogEvent
events =
    record {
      id = "4469";
      kind = "llm_call";
      action = "invoke_model";
      hash = "7a10e4...2f9c";
      prev = "e651ab...c003";
    }
    ∷ record {
      id = "4470";
      kind = "tool_call";
      action = "read_customer_record";
      hash = "3c02de...771a";
      prev = "7a10e4...2f9c";
    }
    ∷ record {
      id = "4471";
      kind = "tool_call";
      action = "send_email";
      hash = "9f2a1c...e08b";
      prev = "3c02de...771a";
    }
    ∷ []

abbrev pub show_event : Bool → LogEvent → List Element
show_event last e =
    text (template ("event #" ∷ e.id ∷ " · " ∷ e.kind ∷ []))
    ∷ text (template ("action: " ∷ e.action ∷ []))
    ∷ text (template ("hash: " ∷ e.hash ∷ []))
    ∷ (if last then text "chain: INTACT" ∷ [] else [])

-- The events from the index `i` of `n` on.
abbrev pub show_events : ℕ → ℕ → List LogEvent → List Element
show_events n i [] = []
show_events n i (e ∷ es) = show_event (suc i == n) e ++ show_events n (suc i) es

abbrev pub evidence_log_card : List Element
evidence_log_card = text "agent_log.chain" ∷ show_events (length events) 0 events

-- Cta.tsx
abbrev pub cta : List Element
cta =
    anchor "cta"
    ∷ text "Early access"
    ∷ text "Get started today"
    ∷ text
        "We're onboarding early teams. Create your account and start monitoring your agents in minutes."
    ∷ text "Start for free"
    ∷ text
        "No credit card required. Full access to the dashboard, API key management, and audit reports."
    ∷ link "/login" "Get started free →"
    ∷ []

-- Footer.tsx
abbrev pub footer : List Element
footer =
    text "TELUVANE: AI Agent Accountability and Compliance"
    ∷ outward "https://github.com/iWeslax83/teluvane" "GitHub"
    ∷ text "AGPL-3.0 licensed"
    ∷ link "/login" "Dashboard"
    ∷ link "/privacy" "Privacy"
    ∷ link "/terms" "Terms"
    ∷ link "/accessibility" "Accessibility"
    ∷ text "Bursa, Türkiye"
    ∷ text
        "Not legal advice. TELUVANE is a technical tool, consult qualified counsel for regulatory guidance."
    ∷ []

-- StickyMobileCta.tsx
abbrev pub sticky_mobile_cta : List Element
sticky_mobile_cta = link "/login" "Get started free" ∷ []

-- LandingBody.tsx
pub record Stat : Type 0 where
  pub num : String
  pub fact : String

abbrev pub stats : List Stat
stats =
    record {
      num = "€35M";
      fact = "Maximum fine for non-compliance with EU AI Act obligations, or 7% of global revenue.";
    }
    ∷ record {
      num = "2026";
      fact = "Full obligations in force for high-risk AI systems across all EU member states.";
    }
    ∷ record {
      num = "0";
      fact = "Purpose-built tools for AI agent compliance adjudication before TELUVANE.";
    }
    ∷ record {
      num = "Art.15";
      fact = "Robustness and cybersecurity requirements your agent logs must now demonstrate.";
    }
    ∷ []

pub record Stage : Type 0 where
  pub title : String
  pub desc : String

abbrev pub steps : List Stage
steps =
    record {
      title = "Recorder";
      desc =
          "Every agent action, LLM call, tool invocation, and result is appended to a SHA-256 hash-chained log. Any silent edit breaks the chain immediately.";
    }
    ∷ record {
      title = "Tribunal";
      desc =
          "An autonomous multi-agent panel audits the full log against a structured EU AI Act policy pack, citing evidence, article references, and a confidence score for each finding.";
    }
    ∷ record {
      title = "Evidence Pack";
      desc =
          "One click exports an auditor-ready report: incident summary, violation table, full action log, and chain-integrity status, formatted for regulators.";
    }
    ∷ []

abbrev pub show_stat : Stat → List Element
show_stat s = text s.num ∷ text s.fact ∷ []

-- `s.padStart(2, "0")`
abbrev pub pad_start : String → String
pad_start String.[] = "00"
pad_start (String.◌∷◌ c String.[]) = String.◌++◌ "0" (String.◌∷◌ c "")
pad_start s = s

-- The steps from the index `i` on.
abbrev pub show_steps : ℕ → List Stage → List Element
show_steps i [] = []
show_steps i (s ∷ ss) =
    text (pad_start (to_string (suc i))) ∷ text s.title ∷ text s.desc ∷ show_steps (suc i) ss

abbrev pub opening : List Element
opening =
    text "AI agent accountability"
    ∷ text "Every AI agent action, logged and hash-chained."
    ∷ text
        "Tamper one row and the chain breaks visibly. An autonomous tribunal audits the log and exports a regulator-ready evidence pack."
    ∷ link "/login" "Get started free"
    ∷ outward "https://github.com/iWeslax83/teluvane" "View on GitHub"
    ∷ text "Built with"
    ∷ text "LangGraph"
    ∷ text "Claude"
    ∷ text "FastAPI"
    ∷ evidence_log_card

abbrev pub problem : List Element
problem =
    text "The problem" ∷ text "The EU AI Act asks for proof, not just logs." ∷ each stats show_stat

abbrev pub how : List Element
how =
    text "How it works"
    ∷ text "Three steps from first action to court-ready evidence."
    ∷ show_steps 0 steps

abbrev pub proof : List Element
proof =
    text "Proof"
    ∷ text "Every read re-verifies the whole chain, not just the last row."
    ∷ text
        "Each event stores the hash of the one before it. Change a single byte in event #14 and every event after it, up to #4471, fails verification the next time anyone opens the log."
    ∷ text "verify(chain) → 4471/4471 events valid · INTACT"
    ∷ []

-- A `FadeInSection`, or another element with an `id`.
abbrev pub with_id : String → List Element → List Element
with_id id es = anchor id ∷ es

unfoldable pub landing_body : List Element
unfolding pricing_zigzag
landing_body =
    anchor "main-content" ∷ with_id "opening" opening
    ++ with_id "problem" problem
    ++ with_id "how" how
    ++ with_id "proof" proof
    ++ with_id "pricing" pricing_zigzag
    ++ with_id "cta-footer" (cta ++ footer)
    ++ sticky_mobile_cta

-- page.tsx
unfoldable pub landing : List Element
unfolding landing_body
landing =
    link "#opening" "TELUVANE"
    ∷ link "#how" "How it works"
    ∷ link "#pricing" "Pricing"
    ∷ link "/login" "Get started free"
    ∷ landing_body
