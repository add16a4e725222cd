-- ===== src/Billing/Quiescence.antt =====
-- frontend/app/app/billing/page.tsx:
-- The busy flag of the page, over every interleaving of events and replies.
use blackbox_agent_accountab.Prelude.{
  ◌≡◌, ◌⊎◌, refl, inl, inr, true, false, not, [], Result, ok, same, ◌||◌, is_some,
}
use blackbox_agent_accountab.Runtime.{World, Reach}
use blackbox_agent_accountab.Runtime.Frame.{
  Frames, Frames-with_token, Frames-await_all, Frames-Keeps,
}
use blackbox_agent_accountab.Runtime.Quiet.{Keeps, Keeps-only_if, Keeps-with_token}
use blackbox_agent_accountab.Runtime.Waiting.{quiet}
use blackbox_agent_accountab.Billing.{
  Page, Req, Reply, idle, get_plan, get_usage, refresh, refresh_failed, upgrade, manage, Event,
  session, mounts, user, click_upgrade, click_manage, to_login, handle,
}

-- No button is busy, or the window was sent elsewhere.
abbrev pub IsFree : Page → Type 0
IsFree s = (s.busy ≡ idle) ⊎ (is_some s.location ≡ true)

refresh-Frames : (s : Page) → Frames IsFree (refresh s)
unfolding refresh
refresh-Frames s = Frames-with_token IsFree s.token _ λ t.
    Frames-await_all IsFree (get_plan t) (get_usage t) _ refresh_failed
      (λ p u. ((λ v h. h), ((λ v h. h), tt))) (λ e. ((λ v h. h), ((λ v h. h), tt)))

upgrade-Keeps : (s u : Page) → Keeps IsFree (IsFree u) (upgrade s) u
unfolding upgrade
upgrade-Keeps s u =
    Keeps-with_token IsFree _ s.token _ u (λ h. h)
      λ t.
        Keeps-with_token IsFree _ s.email _ u (λ h. h)
          λ email. inr (elim [ ok url ↦ λ v. inr refl | Result.err e ↦ λ v. inl refl ])

manage-Keeps : (s u : Page) → Keeps IsFree (IsFree u) (manage s) u
unfolding manage
manage-Keeps s u =
    Keeps-with_token IsFree _ s.token _ u (λ h. h)
      λ t. inr (elim [ ok url ↦ λ v. inr refl | Result.err e ↦ λ v. inl refl ])

handle-Keeps : (e : Event) (s : Page) → Keeps IsFree (IsFree s) (handle e s) s
unfolding handle
handle-Keeps (session t) s =
    let signed = record s { token = t; session_loading = false } in
    let sent = to_login (s.session_loading || not (same s.token t)) t signed in
    Keeps-only_if IsFree (IsFree s) (not (same s.token t)) _ sent (λ h. h)
      (Frames-Keeps IsFree (IsFree s) (refresh (record s { token = t })) sent
        (refresh-Frames (record s { token = t })) (λ h. h))
handle-Keeps mounts s = λ h. h
handle-Keeps (user email) s = λ h. h
handle-Keeps click_upgrade s = upgrade-Keeps s s
handle-Keeps click_manage s = manage-Keeps s s

-- From an idle page with no call waiting, and however events and replies interleave, whatever the
-- replies are: once no call is waiting, no button is left busy, unless the window was sent to an
-- address.
pub redirect_is_released :
    {s : Page} {w : World Page Req Reply}
    → s.busy ≡ idle
    → Reach handle (record { state = s; tasks = [] }) w
    → w.tasks ≡ []
    → (w.state.busy ≡ idle) ⊎ (is_some w.state.location ≡ true)
redirect_is_released p = quiet IsFree handle handle-Keeps (inl p)
