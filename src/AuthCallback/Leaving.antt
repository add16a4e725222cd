-- ===== src/AuthCallback/Leaving.antt =====
-- frontend/app/auth/callback/page.tsx:
-- Leaving the page while it waits.
use blackbox_agent_accountab.Prelude.{
  ◌≡◌, refl, String, true, false, List, [], ◌∷◌, Result, ok, Bool-cases, inl, inr,
}
use blackbox_agent_accountab.Js.{includes}
use blackbox_agent_accountab.Runtime.Schedule.{Move, starts, settles, move, play}
use blackbox_agent_accountab.AuthCallback.{
  fresh, Req, Reply, get_session, Event, mounts, auth_changes, unmounts, handle,
}

-- The page is left before Supabase has answered; then the answers come.
abbrev pub left_early : List (Move Event)
left_early = starts mounts ∷ starts unmounts ∷ settles 0 ∷ settles 0 ∷ []

-- At any address, and if there is no session yet: when the page is left before Supabase has answered
-- and the answers have come, the page is not mounted, no call is waiting and the address is as it was;
-- and a sign-in that comes only then replaces it by "/app".
pub left_page_navigates :
    (url : String) (reply : (r : Req) → Result (Reply r))
    → reply get_session ≡ ok false
    → let w = play (handle url) reply left_early (record { state = fresh; tasks = [] }) in
      (w.tasks ≡ [])
      × (w.state.mounted ≡ false)
      × (w.state.replaced ≡ [])
      × ((move (handle url) reply (starts (auth_changes true)) w).state.replaced ≡ "/app" ∷ [])
unfolding handle
left_page_navigates url reply h = elim (Bool-cases (includes url "code=")) [
  | inl code ↦ rw (code, h) (refl, refl, refl, refl)
  | inr plain ↦ rw (plain, h) (refl, refl, refl, refl)
]
