-- ===== src/Session.antt =====
-- frontend/lib/useSession.ts: the token of the signed-in user, and frontend/lib/supabase.ts: the
-- client that it comes from.
--
-- Supabase is a parameter: what `getSession` answers and what `onAuthStateChange` reports are events.
pub mod Provisioned
pub mod Ordering
use blackbox_agent_accountab.Prelude.{
  String, Bool, true, false, Option, none, some, Result, if◌then◌else◌, truthy,
}
use blackbox_agent_accountab.Runtime.{Prog, done, act, call}

pub record Session : Type 0 where
  pub token : Option String
  pub loading : Bool

-- What the hook starts with.
abbrev pub start : Session
start = record { token = none; loading = true }

-- The call of `ensureOrg(t)`, which settles without a value and never throws.
pub data Req : Type 0 where
  ensure_org : String → Req

abbrev pub Reply : Req → Type 0
Reply _ = Unit {0}

abbrev pub set_session : Option String → Prog Session Req Reply
set_session t = act (λ u. record u { token = t }) (act (λ u. record u { loading = false }) done)

-- `apply(t)`
unfoldable pub apply : Option String → Prog Session Req Reply
apply none = set_session none
apply (some t) =
    if truthy t then call (ensure_org t) (λ _. set_session (some t)) else set_session (some t)

-- `getSession` answers with a token or none, and the state of the authentication changes to one.
pub data Event : Type 0 where
  answered : Option String → Event
  changed : Option String → Event

unfoldable pub handle : Event → Session → Prog Session Req Reply
unfolding apply
handle (answered t) s = apply t
handle (changed t) s = apply t

-- `getSupabase`: the client of the module, made by `create` when it is first asked for.
unfoldable pub get_supabase {ℓ} : {C : Type ℓ} → (Unit {0} → C) → Option C → C × Option C
get_supabase create none = (create tt, some (create tt))
get_supabase create (some c) = (c, some c)
