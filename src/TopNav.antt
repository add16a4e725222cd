-- ===== src/TopNav.antt =====
-- frontend/components/TopNav.tsx: the links of the workspace and the log-out.
--
-- The path of the present page and Supabase are parameters.
pub mod Current
use blackbox_agent_accountab.Prelude.{
  String, Bool, false, List, [], ◌∷◌, ◌++◌, Result, ok, if◌then◌else◌, ◌===◌,
}
use blackbox_agent_accountab.Js.{has_prefix}
use blackbox_agent_accountab.View.{Node, text, button, each}
use blackbox_agent_accountab.Runtime.{Prog, done, act, call}

pub record Link : Type 0 where
  pub href : String
  pub label : String

abbrev link : String → String → Link
link href label = record { href = href; label = label }

abbrev pub links : List Link
links =
    link "/app" "Sessions"
    ∷ link "/app/insights" "Insights"
    ∷ link "/app/team" "Team"
    ∷ link "/app/keys" "API keys"
    ∷ link "/app/billing" "Billing"
    ∷ link "/app/settings" "Settings"
    ∷ link "/accessibility" "Accessibility"
    ∷ []

-- Whether a link is marked as that of the page with the path `pathname`.
abbrev pub active : String → Link → Bool
active pathname l = if l.href === "/app" then pathname === "/app" else has_prefix l.href pathname

-- The labels of the links that are marked.
abbrev pub keep_active : String → List Link → List Link
keep_active pathname [] = []
keep_active pathname (l ∷ ls) =
    let rest = keep_active pathname ls in if active pathname l then l ∷ rest else rest

unfoldable pub marked : String → List Link
marked pathname = keep_active pathname links

-- What the bar told the router.
pub record Bar : Type 0 where
  pub pushed : List String

pub data Req : Type 0 where
  sign_out : Req

abbrev pub Reply : Req → Type 0
Reply _ = Unit {0}

abbrev pub signed_out : Result (Unit {0}) → Prog Bar Req Reply
signed_out (ok _) = act (λ u. record u { pushed = "/login" ∷ u.pushed }) done
signed_out (Result.err e) = done

-- `logout`, where a rejection of `signOut` ends it
unfoldable pub logout : Prog Bar Req Reply
logout = call sign_out signed_out

pub data Event : Type 0 where
  click_logout : Event

unfoldable pub handle : Event → Bar → Prog Bar Req Reply
unfolding logout
handle click_logout s = logout

-- The bar: the brand, the links as texts and the log-out.
unfoldable pub view : List (Node Event)
view =
    text "TELUVANE"
    ∷ (each links (λ l. text l.label ∷ []) ++ button "Log out" false click_logout ∷ [])
