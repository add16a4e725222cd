-- ===== src/Workspace/Controls.antt =====
-- frontend/app/app/page.tsx:
-- The buttons that the page shows as enabled.
use blackbox_agent_accountab.Prelude.{
  ◌≡◌, true, false, Option, none, some, All, All-append, truthy, present, not, ◌&&◌, ◌||◌, is_empty,
  if◌then◌else◌, arith, Bool,
}
use blackbox_agent_accountab.View.{button, Calls, when, each, All-when, All-if, All-each}
use blackbox_agent_accountab.Workspace.{Page}
use blackbox_agent_accountab.Workspace.Events.{
  click_load, click_more, click_audit, click_seed, click_evidence, click_pdf, handle,
}
use blackbox_agent_accountab.Workspace.View.{
  view, show_sessions, show_selected, chain_badge, is_load, is_audit, is_demo, is_pdf, show_row,
  show_event, show_verdict,
}

module _ (s : Page) (signed : present s.token ≡ true) where
  more-Calls : Calls handle s (button "Load more" false click_more)
  unfolding handle
  more-Calls = ground arith

  seed-Calls : (disabled : Bool) → Calls handle s (button "" disabled click_seed)
  unfolding handle
  seed-Calls true = tt
  seed-Calls false = ground arith

  load-Calls :
      (disabled : Bool)
      → Calls handle s (button "" (not (truthy s.session_id) || disabled) click_load)
  unfolding handle
  load-Calls disabled = ground arith

  module _ (selected : truthy s.session_id ≡ true) where
    audit-Calls : (disabled : Bool) → Calls handle s (button "" disabled click_audit)
    unfolding handle
    audit-Calls true = tt
    audit-Calls false = ground arith

    pdf-Calls : (disabled : Bool) → Calls handle s (button "" disabled click_pdf)
    unfolding handle
    pdf-Calls true = tt
    pdf-Calls false = ground arith

    evidence-Calls : Calls handle s (button "" false click_evidence)
    unfolding handle
    evidence-Calls = ground arith

  show_sessions-Calls : All (Calls handle s) (show_sessions s)
  unfolding show_sessions
  show_sessions-Calls =
      All-if (Calls handle s) (is_empty s.sessions && not (truthy s.debounced_search)) _ _
        (λ _. (tt, (seed-Calls (is_demo s.busy), tt)))
        (λ _. (
          tt,
          (
            tt,
            (
              load-Calls (is_load s.busy),
              All-append (Calls handle s)
                  (if is_empty s.sessions then _ else each s.sessions (show_row s)) _
                  (All-if (Calls handle s) (is_empty s.sessions) _ _ (λ _. (tt, tt))
                    (λ _. All-each (Calls handle s) s.sessions (show_row s) (λ r. (tt, (tt, tt)))))
                  (All-when (Calls handle s) s.has_more _ (λ _. (more-Calls, tt))),
            ),
          ),
        ))

  badge-Calls : (c : Option Bool) → All (Calls handle s) (chain_badge c)
  badge-Calls none = tt
  badge-Calls (some intact) = (tt, tt)

  show_selected-Calls : truthy s.session_id ≡ true → All (Calls handle s) (show_selected s)
  unfolding show_selected
  show_selected-Calls h = (
    tt,
    (
      audit-Calls h (is_audit s.busy),
      (
        evidence-Calls h,
        (
          pdf-Calls h (is_pdf s.busy),
          All-append (Calls handle s) (when (present s.confirm) _) _
              (All-when (Calls handle s) (present s.confirm) _ (λ _. (tt, tt)))
              (All-append (Calls handle s) (chain_badge s.chain) _ (badge-Calls s.chain) (
                tt,
                (
                  tt,
                  All-append (Calls handle s)
                      (if is_empty s.events then _ else each s.events show_event) _
                      (All-if (Calls handle s) (is_empty s.events) _ _ (λ _. (tt, tt))
                        (λ _. All-each (Calls handle s) s.events show_event (λ e. (tt, (tt, tt)))))
                      (
                        tt,
                        (
                          tt,
                          All-if (Calls handle s) (is_empty s.verdicts) _ _ (λ _. (tt, tt))
                              (λ _.
                                All-each (Calls handle s) s.verdicts show_verdict
                                  (λ v. (tt, (tt, tt)))),
                        ),
                      ),
                ),
              )),
        ),
      ),
    ),
  )

  -- With a session, a click on any button that the page shows as enabled makes a call.
  pub view-Calls : All (Calls handle s) (view s)
  unfolding view
  view-Calls =
      All-if (Calls handle s) s.session_loading _ _ (λ _. (tt, tt))
        λ _. (
          tt,
          All-append (Calls handle s) (show_sessions s) _ show_sessions-Calls (
              All-append (Calls handle s) (when (present s.err) _) _
                (All-when (Calls handle s) (present s.err) _ (λ _. (tt, tt)))
                (All-when (Calls handle s) (truthy s.session_id) _ show_selected-Calls)),
        )
