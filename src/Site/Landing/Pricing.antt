-- ===== src/Site/Landing/Pricing.antt =====
-- frontend/components/landing/PricingZigzag.tsx: the plans.
use blackbox_agent_accountab.Prelude.{
  String, Bool, true, false, Option, none, some, List, [], ◌∷◌, ◌++◌, if◌then◌else◌, or_else,
  present,
}
use blackbox_agent_accountab.Js.{has_prefix}
use blackbox_agent_accountab.Site.{Element, text, a, each}

pub record Tier : Type 0 where
  pub eyebrow : String
  pub price : String
  pub price_suffix : Option String
  pub description : String
  pub features : List String
  pub cta_label : String
  pub cta_href : String
  pub emphasized : Bool

abbrev pub show_feature : String → List Element
show_feature f = text "✓" ∷ text f ∷ []

-- `Tier`
unfoldable pub show_tier : Tier → List Element
show_tier t =
    (if t.emphasized then text "Most teams pick this" ∷ [] else [])
    ++ text t.eyebrow
      ∷ text t.price
      ∷ (if present t.price_suffix then text (or_else t.price_suffix "") ∷ [] else [])
    ++ text t.description ∷ each t.features show_feature
    ++ (a (record {
      href = t.cta_href;
      new_tab = has_prefix "http" t.cta_href;
      rel = if has_prefix "http" t.cta_href then some "noopener" else none;
      label = t.cta_label;
    })
        ∷ [])

abbrev pub free : Tier
free = record {
  eyebrow = "Free / Open Source";
  price = "$0";
  price_suffix = none;
  description = "Self-host on your own infrastructure. AGPL-3.0 licensed.";
  features =
      "Unlimited agents (self-hosted)" ∷ "SHA-256 hash-chained recorder"
      ∷ "EU AI Act policy pack (YAML)" ∷ "Tribunal audit CLI" ∷ "Evidence pack export (HTML)"
      ∷ "Community support (GitHub)" ∷ [];
  cta_label = "View on GitHub";
  cta_href = "https://github.com/iWeslax83/teluvane";
  emphasized = false;
}

abbrev pub pro : Tier
pro = record {
  eyebrow = "Pro";
  price = "$19.99";
  price_suffix = some "/mo";
  description =
      "Managed cloud. Everything you need for a production AI team, without running your own infrastructure.";
  features =
      "Up to 10 agents managed" ∷ "Hosted dashboard and real-time log"
      ∷ "Automated tribunal runs on schedule" ∷ "PDF + HTML evidence pack exports"
      ∷ "Custom policy rules" ∷ "Priority email support" ∷ [];
  cta_label = "Get started free";
  cta_href = "/login";
  emphasized = true;
}

abbrev pub enterprise : Tier
enterprise = record {
  eyebrow = "Enterprise";
  price = "Custom";
  price_suffix = none;
  description = "For regulated industries, large deployments, on-prem needs.";
  features =
      "Unlimited agents" ∷ "SSO / SAML integration" ∷ "On-premises deployment"
      ∷ "Custom policy packs and mapping" ∷ "Dedicated SLA and support"
      ∷ "Regulator liaison assistance" ∷ [];
  cta_label = "Contact us";
  cta_href = "/login";
  emphasized = false;
}

unfoldable pub pricing_zigzag : List Element
unfolding show_tier
pricing_zigzag =
    text "Pricing" ∷ text "Start free. Scale with confidence." ∷ show_tier free
    ++ show_tier pro
    ++ show_tier enterprise
