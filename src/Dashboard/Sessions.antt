-- ===== src/Dashboard/Sessions.antt =====
-- The sessions page, frontend/app/app/page.tsx, beside the session hook.
use blackbox_agent_accountab.Prelude.{
  ◌+◌, refl, inl, inr, String, false, not, ◌||◌, ◌==◌, ◌===◌, same, Option, none, some, [], All,
  Result, ok, truthy, or_else,
}
use blackbox_agent_accountab.Runtime.Sends.{Waits}
use blackbox_agent_accountab.Session
use blackbox_agent_accountab.Session.{start}
use blackbox_agent_accountab.Session.Provisioned.{Provided}
use blackbox_agent_accountab.Runtime.{Prog, World, Reach}
use blackbox_agent_accountab.Dashboard.{Holds, Guarded, Joint}
use blackbox_agent_accountab.Dashboard.Loyal.{
  Loyal, Loyal-only_if, Loyal-with_token, Loyal-then_do, LoyalTo, guard,
}
use blackbox_agent_accountab.Dashboard.Provision.{Holds_at, calls-Provided}
use blackbox_agent_accountab.Workspace.{
  Page, Req, Reply, page_size, wire, load_sessions, load_session, audit_session, seed_demo,
  open_evidence, download_evidence_pdf,
}
use blackbox_agent_accountab.Workspace.Events.{
  Event, session, type_search, type_session_id, debounce_fires, click_load, click_session,
  click_more, click_audit, click_seed, click_evidence, click_pdf, confirm_expires, fire_typed,
  handle,
}

abbrev pub token : Page → Option String
token s = s.token

abbrev pub brings : Event → Option String
brings (session t) = t
brings _ = none

-- The token that a call carries.
pub bearer : Req → String
unfolding wire
bearer r = (wire r).1.token

module _ (T : String → Type 0) where
  abbrev Faithful : Prog Page Req Reply → Type 0
  Faithful p = Loyal token (λ q. T (bearer q)) p

  load_sessions-Loyal : (s : Page) → Holds T (token s) → Faithful (load_sessions s)
  unfolding load_sessions bearer
  load_sessions-Loyal s h = Loyal-with_token token _ s.token _ λ t e i. (
    Holds_at T s.token t h e i,
    elim [ ok rows ↦ (λ u. refl, tt) | Result.err x ↦ (λ u. refl, tt) ],
  )

  load_session-Loyal :
      (sid : Option String) (s : Page) → Holds T (token s) → Faithful (load_session sid s)
  unfolding load_session bearer
  load_session-Loyal sid s h = Loyal-with_token token _ s.token _ λ t e i.
      let b = Holds_at T s.token t h e i in
      Loyal-only_if token _ (truthy (or_else sid s.session_id)) _ (
        λ u. refl,
        (
          b,
          elim [
            | ok es ↦ (
              λ u. refl,
              (
                b,
                elim [
                  | ok v ↦ (λ u. refl, (λ u. refl, tt))
                  | Result.err x ↦ (λ u. refl, (λ u. refl, tt))
                ],
              ),
            )
            | Result.err x ↦ (λ u. refl, (λ u. refl, tt))
          ],
        ),
      )

  audit_session-Loyal : (s : Page) → Holds T (token s) → Faithful (audit_session s)
  unfolding audit_session bearer
  audit_session-Loyal s h = Loyal-with_token token _ s.token _ λ t e i.
      Loyal-only_if token _ (truthy s.session_id) _ (
        λ u. refl,
        (
          Holds_at T s.token t h e i,
          elim [
            | ok vs ↦ (λ u. refl, (λ u. refl, tt))
            | Result.err x ↦ (λ u. refl, (λ u. refl, tt))
          ],
        ),
      )

  open_evidence-Loyal : (s : Page) → Holds T (token s) → Faithful (open_evidence s)
  unfolding open_evidence bearer
  open_evidence-Loyal s h = Loyal-with_token token _ s.token _ λ t e i.
      Loyal-only_if token _ (truthy s.session_id) _ (
        Holds_at T s.token t h e i,
        elim [ ok html ↦ (λ u. refl, tt) | Result.err x ↦ (λ u. refl, tt) ],
      )

  download_evidence_pdf-Loyal : (s : Page) → Holds T (token s) → Faithful (download_evidence_pdf s)
  unfolding download_evidence_pdf bearer
  download_evidence_pdf-Loyal s h = Loyal-with_token token _ s.token _ λ t e i.
      Loyal-only_if token _ (truthy s.session_id) _ (
        λ u. refl,
        (
          Holds_at T s.token t h e i,
          elim [
            | ok blob ↦ (λ u. refl, (λ u. refl, tt))
            | Result.err x ↦ (λ u. refl, (λ u. refl, tt))
          ],
        ),
      )

  seed_demo-Loyal : (s : Page) → Holds T (token s) → Faithful (seed_demo s)
  unfolding seed_demo bearer
  seed_demo-Loyal s h = Loyal-with_token token _ s.token _ λ t e i. (
    λ u. refl,
    (
      Holds_at T s.token t h e i,
      elim [
        | ok id ↦ Loyal-then_do token _ (load_sessions s) _ (load_sessions-Loyal s h) (
            Loyal-then_do token _ (load_session (some id) s) _ (load_session-Loyal (some id) s h)
              (λ u. refl, tt))
        | Result.err x ↦ (λ u. refl, (λ u. refl, tt))
      ],
    ),
  )

  fire_typed-Loyal : (o : Option String) (s : Page) → Holds T (token s) → Faithful (fire_typed o s)
  unfolding load_sessions
  fire_typed-Loyal none s h = tt
  fire_typed-Loyal (some q) s h = (
    λ u. refl,
    Loyal-only_if token _ (not (s.debounced_search === q) || not (s.sessions_limit == page_size)) _
        (load_sessions-Loyal (record s { debounced_search = q; sessions_limit = page_size }) h),
  )

  pub handle-LoyalTo :
      (e : Event) (s : Page)
      → Holds T (brings e)
      → Holds T (token s)
      → LoyalTo token (λ q. T (bearer q)) (brings e) (handle e s)
  unfolding handle
  handle-LoyalTo (session t) s b h = inr (
    (λ u. record u { token = t; session_loading = false }),
    _,
    refl,
    (λ u. refl),
    (
      λ u. refl,
      Loyal-only_if token _ (not (same s.token t)) _
          (load_sessions-Loyal (record s { token = t }) b),
    ),
  )
  handle-LoyalTo (type_search q) s b h = inl (λ u. refl, tt)
  handle-LoyalTo (type_session_id q) s b h = inl (λ u. refl, tt)
  handle-LoyalTo debounce_fires s b h = inl (fire_typed-Loyal s.typing s h)
  handle-LoyalTo click_load s b h = inl (load_session-Loyal none s h)
  handle-LoyalTo (click_session id) s b h = inl (load_session-Loyal (some id) s h)
  handle-LoyalTo click_more s b h = inl (
    λ u. refl,
    load_sessions-Loyal (record s { sessions_limit = s.sessions_limit + page_size }) h,
  )
  handle-LoyalTo click_audit s b h = inl (audit_session-Loyal s h)
  handle-LoyalTo click_seed s b h = inl (seed_demo-Loyal s h)
  handle-LoyalTo click_evidence s b h = inl (open_evidence-Loyal s h)
  handle-LoyalTo click_pdf s b h = inl (download_evidence_pdf-Loyal s h)
  handle-LoyalTo confirm_expires s b h = inl (λ u. refl, tt)

-- The page as the hook sees it.
abbrev pub sessions_page : Guarded Event Page Req Reply
sessions_page = guard handle token brings bearer handle-LoyalTo

-- The sessions page beside the session hook, from a page with no token on, and in whatever order
-- sign-ins, clicks, timers and replies come: a call of the page that waits carries a token for which
-- a call of `ensureOrg` has settled.
pub sessions_calls-Provided :
    {v : World Session.Session Session.Req Session.Reply}
    {r : Reach Session.handle (record { state = start; tasks = [] }) v} {w : World Page Req Reply}
    → Joint sessions_page v r w
    → All (Waits (λ q. Provided (bearer q) r)) w.tasks
sessions_calls-Provided j = calls-Provided sessions_page j
