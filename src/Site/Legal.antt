-- ===== src/Site/Legal.antt =====
-- frontend/app/privacy/page.tsx, frontend/app/terms/page.tsx, frontend/app/accessibility/page.tsx and
-- frontend/app/not-found.tsx.
use blackbox_agent_accountab.Prelude.{false, String, Bool, List, [], ◌∷◌, if◌then◌else◌}
use blackbox_agent_accountab.Js.{template}
use blackbox_agent_accountab.Contrast.{Numbers, contrast_ratio, meets_wcag_aa}
use blackbox_agent_accountab.Site.{Element, text, anchor, link, outward}

abbrev pub privacy : List Element
privacy =
    anchor "main-content"
    ∷ link "/" "← Back to homepage"
    ∷ text "Privacy Policy"
    ∷ text
        "Last updated 2026-08-17. This is a technical description of our current data practices, not legal advice. If you need a legal opinion on this policy, consult qualified counsel."
    ∷ text "What we collect"
    ∷ text
        "When you create an account, we collect the email address and password you provide (handled by our authentication provider, Supabase). If you enable BYOK (bring your own key) mode, we store the Anthropic API key you supply so TELUVANE can run live tribunal audits on your behalf. We also store the AI agent action logs you send us for auditing, the API keys TELUVANE issues you for programmatic access, and basic usage counters (how many hosted audits your workspace has run)."
    ∷ text "What we don't collect"
    ∷ text
        "We don't store your payment card details. Billing is handled by LemonSqueezy, our merchant of record; LemonSqueezy processes and stores payment information under their own privacy policy."
    ∷ text "Third-party processors"
    ∷ text
        "We use Supabase for authentication and database hosting, LemonSqueezy for billing and payment processing, and, if you enable BYOK, Anthropic to run the live tribunal audits using the API key you provide. Each of these processors has its own privacy policy governing the data they handle on our behalf."
    ∷ text "How we use your data"
    ∷ text
        "We use your data to operate the product: authenticating you, running audits against the logs you submit, tracking usage against your plan, and processing billing. We do not sell your data."
    ∷ text "Data retention"
    ∷ text
        "We retain your account data and audit logs for as long as your account is active. You can delete your API keys and clear your BYOK key at any time from the dashboard. To request full account deletion, open an issue on our GitHub repository (see Contact below)."
    ∷ text "Your rights"
    ∷ text
        "You can access, correct, or delete the data associated with your account by contacting us as described below. If you are located in a jurisdiction with statutory data-protection rights (such as the EU), those rights apply to the extent required by law."
    ∷ text "Contact"
    ∷ text
        "TELUVANE is an open-source project (AGPL-3.0 licensed) based in Bursa, Türkiye. For privacy questions or data requests, open an issue at"
    ∷ outward "https://github.com/iWeslax83/teluvane" "github.com/iWeslax83/teluvane"
    ∷ text "."
    ∷ []

abbrev pub terms : List Element
terms =
    anchor "main-content"
    ∷ link "/" "← Back to homepage"
    ∷ text "Terms of Service"
    ∷ text
        "Last updated 2026-08-17. This is a plain-language summary of our terms, not legal advice. If you need a legal opinion on these terms, consult qualified counsel."
    ∷ text "The service"
    ∷ text
        "TELUVANE is a flight recorder and compliance tribunal for AI agent actions. The core recorder and audit engine are open source (AGPL-3.0 licensed) and can be self-hosted for free. We also offer a hosted Pro plan with a managed dashboard, scheduled audits, and priority support."
    ∷ text "Your account"
    ∷ text
        "You're responsible for the security of your account credentials and your API keys, including any Anthropic key you supply under BYOK. You're responsible for the content of the agent logs you submit for auditing."
    ∷ text "Acceptable use"
    ∷ text
        "Don't use TELUVANE to process data you don't have the right to process, or to circumvent the usage limits of your plan. We reserve the right to suspend accounts that abuse the service."
    ∷ text "Billing"
    ∷ text
        "Paid plans are billed through LemonSqueezy, our merchant of record. Subscriptions renew automatically until cancelled. You can manage or cancel your subscription from the billing page in your dashboard, which links to LemonSqueezy's customer portal."
    ∷ text "No warranty"
    ∷ text
        "TELUVANE is a technical tool, not legal advice, and does not guarantee regulatory compliance with the EU AI Act or any other framework. The service is provided \"as is,\" without warranty of any kind, to the maximum extent permitted by law."
    ∷ text "Termination"
    ∷ text
        "You can stop using the service and delete your account at any time. We may suspend or terminate accounts that violate these terms."
    ∷ text "Contact"
    ∷ text
        "TELUVANE is an open-source project (AGPL-3.0 licensed) based in Bursa, Türkiye. For questions about these terms, open an issue at"
    ∷ outward "https://github.com/iWeslax83/teluvane" "github.com/iWeslax83/teluvane"
    ∷ text "."
    ∷ []

-- A line of the accessibility page about two colours.
abbrev pub contrast_line : String → String → Bool → String
contrast_line what ratio passes =
    template (what ∷ ratio ∷ ":1 — " ∷ (if passes then "passes AA" else "fails AA") ∷ [])

-- The accessibility page, for what frontend/lib/contrast.ts says of its colours, and whether the browser
-- asks for reduced motion.
unfoldable pub accessibility : String → Bool → String → Bool → Bool → List Element
accessibility body_ratio body_passes accent_ratio accent_passes reduced_motion =
    anchor "main-content"
    ∷ link "/" "← Back to homepage"
    ∷ text "Accessibility"
    ∷ text
        "Last updated 2026-08-22. How TELUVANE is built to work for keyboard users, screen reader users, and people who need reduced motion."
    ∷ text "Conformance statement"
    ∷ text
        "TELUVANE targets WCAG 2.1 Level AA across the marketing site and the dashboard. We haven't had a third-party audit yet, so treat this as a good-faith statement of intent and current practice, not a certification. If you hit a barrier, tell us (see Contact below) and we'll fix it."
    ∷ text "Keyboard navigation"
    ∷ text
        "Every interactive element (links, buttons, form fields, the session table, the sidebar nav) is reachable and operable with Tab, Shift+Tab, and Enter/Space alone. Focus order follows visual order, and focus is never trapped except in modal dialogs, where Escape closes the dialog and returns focus to the element that opened it. Focus outlines are never removed with CSS."
    ∷ text "Color contrast"
    ∷ text
        "Body text and links on this page are checked against WCAG AA (4.5:1 for normal text, 3:1 for large text) using the same contrast utility (lib/contrast.ts) the app uses internally. Live result for the colors on this page:"
    ∷ text (contrast_line "Body text on background: " body_ratio body_passes)
    ∷ text (contrast_line "Accent links on background: " accent_ratio accent_passes)
    ∷ text "Reduced motion"
    ∷ text
        "Pages check the prefers-reduced-motion media query (via lib/useReducedMotion.ts) and skip decorative transitions and animations when it's set. Your browser is currently reporting:"
    ∷ text (
        if reduced_motion
        then "Reduced motion: on. Animations are disabled for you right now."
        else "Reduced motion: off. Your system isn't requesting reduced motion.")
    ∷ text "Screen readers"
    ∷ text
        "Pages use semantic HTML (headings, lists, landmarks) instead of div soup, form fields have associated labels, and icon-only buttons carry an accessible name. We test regularly with VoiceOver on macOS."
    ∷ text "Known gaps"
    ∷ text
        "The insights charts don't yet have a text-table fallback for screen reader users. We're working on it."
    ∷ text "Contact"
    ∷ text "Found an accessibility barrier? Open an issue at"
    ∷ outward "https://github.com/iWeslax83/teluvane" "github.com/iWeslax83/teluvane"
    ∷ text "and we'll prioritize it."
    ∷ []

abbrev pub not_found : List Element
not_found =
    anchor "main-content"
    ∷ text "T"
    ∷ text "Page not found"
    ∷ text
        "The page you're looking for doesn't exist or has moved. Check the URL, or head back to the homepage."
    ∷ link "/" "Back to homepage"
    ∷ []

abbrev pub bg : String
bg = "#f4efe6"

abbrev pub text_colour : String
text_colour = "#1a1714"

abbrev pub accent : String
accent = "#b4451f"

-- The accessibility page with its colours measured; `to_fixed` is `toFixed(2)`.
unfoldable pub measured_accessibility : (N : Numbers) → (N.F → String) → Bool → List Element
measured_accessibility N to_fixed reduced_motion =
    accessibility (to_fixed (contrast_ratio N bg text_colour))
      (meets_wcag_aa N bg text_colour false) (to_fixed (contrast_ratio N bg accent))
      (meets_wcag_aa N bg accent false) reduced_motion
