-- ===== src/Workspace/Searching.antt =====
-- frontend/app/app/page.tsx:
-- The search field, its timer and the list of the sessions.
use text.Mathlib.TextEquality.{eq_iff}
use blackbox_agent_accountab.Prelude.{
  ◌≡◌, ◌⊎◌, inl, inr, refl, String, Bool, true, false, Option, none, some, List, [], ◌∷◌, Result,
  ok, not, ◌||◌, ◌&&◌, ◌===◌, ◌==◌, same, truthy, or_else, arith, ◌+◌, if◌then◌else◌, Bool-cases,
}
use blackbox_agent_accountab.Runtime.{World, Reach, only_if}
use blackbox_agent_accountab.Runtime.Sequential.{exec}
use blackbox_agent_accountab.Runtime.Frame.{
  Frames, Frames-only_if, Frames-with_token, Frames-then_do,
}
use blackbox_agent_accountab.Runtime.Invariant.{Begins, Frames-Begins, Begins-only_if, always}
use blackbox_agent_accountab.Workspace.{
  Page, Req, Reply, list_sessions, page_size, load_sessions, load_session, audit_session, seed_demo,
  open_evidence, download_evidence_pdf,
}
use blackbox_agent_accountab.Workspace.Events.{
  Event, session, type_search, type_session_id, debounce_fires, click_load, click_session,
  click_more, click_audit, click_seed, click_evidence, click_pdf, confirm_expires, to_login,
  fire_typed, handle,
}

-- The timer runs with the text of the field, or that text is `debouncedSearch` and no timer runs.
abbrev pub Pending : Page → Type 0
Pending s = (s.typing ≡ some s.search) ⊎ ((s.typing ≡ none) × (s.debounced_search ≡ s.search))

load_sessions-Frames : (s : Page) → Frames Pending (load_sessions s)
unfolding load_sessions
load_sessions-Frames s =
    Frames-with_token Pending s.token _
      λ t. elim [ ok rows ↦ (λ u h. h, tt) | Result.err e ↦ (λ u h. h, tt) ]

load_session-Frames : (sid : Option String) (s : Page) → Frames Pending (load_session sid s)
unfolding load_session
load_session-Frames sid s = Frames-with_token Pending s.token _ λ t.
    Frames-only_if Pending (truthy (or_else sid s.session_id)) _ (
      λ u h. h,
      elim [
        | ok es ↦ (
          λ u h. h,
          elim [
            | ok intact ↦ (λ u h. h, (λ u h. h, tt))
            | Result.err e ↦ (λ u h. h, (λ u h. h, tt))
          ],
        )
        | Result.err e ↦ (λ u h. h, (λ u h. h, tt))
      ],
    )

audit_session-Frames : (s : Page) → Frames Pending (audit_session s)
unfolding audit_session
audit_session-Frames s = Frames-with_token Pending s.token _ λ t.
    Frames-only_if Pending (truthy s.session_id) _ (
      λ u h. h,
      elim [ ok vs ↦ (λ u h. h, (λ u h. h, tt)) | Result.err e ↦ (λ u h. h, (λ u h. h, tt)) ],
    )

seed_demo-Frames : (s : Page) → Frames Pending (seed_demo s)
unfolding seed_demo
seed_demo-Frames s = Frames-with_token Pending s.token _ λ t. (
  λ u h. h,
  elim [
    | ok id ↦ Frames-then_do Pending (load_sessions s) _ (load_sessions-Frames s) (
        Frames-then_do Pending (load_session (some id) s) _ (load_session-Frames (some id) s)
          (λ u h. h, tt))
    | Result.err e ↦ (λ u h. h, (λ u h. h, tt))
  ],
)

open_evidence-Frames : (s : Page) → Frames Pending (open_evidence s)
unfolding open_evidence
open_evidence-Frames s = Frames-with_token Pending s.token _ λ t.
    Frames-only_if Pending (truthy s.session_id) _
      (elim [ ok html ↦ (λ u h. h, tt) | Result.err e ↦ (λ u h. h, tt) ])

download_evidence_pdf-Frames : (s : Page) → Frames Pending (download_evidence_pdf s)
unfolding download_evidence_pdf
download_evidence_pdf-Frames s = Frames-with_token Pending s.token _ λ t.
    Frames-only_if Pending (truthy s.session_id) _ (
      λ u h. h,
      elim [ ok blob ↦ (λ u h. h, (λ u h. h, tt)) | Result.err e ↦ (λ u h. h, (λ u h. h, tt)) ],
    )

type_search-Pending :
    (q : String) (s : Page)
    → Pending s
    → Pending (record s { search = q; typing = if s.search === q then s.typing else some q })
type_search-Pending q s h = elim (Bool-cases (s.search === q)) [
  | inl same_text ↦ let e = (eq_iff s.search q).0 same_text in ground arith
  | inr other ↦ rw other (inl refl)
]

text_of-Pending : (q : String) (s : Page) → Pending s → s.typing ≡ some q → q ≡ s.search
text_of-Pending q s (inl h) e = ground arith
text_of-Pending q s (inr h) e = ground arith

fire_typed-Begins :
    (o : Option String) (s : Page)
    → ((q : String) → o ≡ some q → q ≡ s.search)
    → Pending s
    → Begins Pending (fire_typed o s) s
unfolding load_sessions
fire_typed-Begins none s g h = h
fire_typed-Begins (some q) s g h =
    let fired = record s { debounced_search = q; sessions_limit = page_size; typing = none } in
    let shown : Pending fired = inr (refl, g q refl) in
    Begins-only_if Pending (not (s.debounced_search === q) || not (s.sessions_limit == page_size)) _
      fired shown
      (Frames-Begins Pending _ fired
        (load_sessions-Frames (record s { debounced_search = q; sessions_limit = page_size }))
        shown)

handle-Begins : (e : Event) (s : Page) → Pending s → Begins Pending (handle e s) s
unfolding handle
handle-Begins (session t) s h =
    let signed = record s { token = t; session_loading = false } in
    let sent = to_login (s.session_loading || not (same s.token t)) t signed in
    Begins-only_if Pending (not (same s.token t)) _ sent h
      (Frames-Begins Pending _ sent (load_sessions-Frames (record s { token = t })) h)
handle-Begins (type_search q) s h = type_search-Pending q s h
handle-Begins (type_session_id q) s h = h
handle-Begins debounce_fires s h = fire_typed-Begins s.typing s (λ q. text_of-Pending q s h) h
handle-Begins click_load s h = Frames-Begins Pending _ s (load_session-Frames none s) h
handle-Begins (click_session id) s h = Frames-Begins Pending _ s (load_session-Frames (some id) s) h
handle-Begins click_more s h =
    let more = record s { sessions_limit = s.sessions_limit + page_size } in
    Frames-Begins Pending _ more (load_sessions-Frames more) h
handle-Begins click_audit s h = Frames-Begins Pending _ s (audit_session-Frames s) h
handle-Begins click_seed s h = Frames-Begins Pending _ s (seed_demo-Frames s) h
handle-Begins click_evidence s h = Frames-Begins Pending _ s (open_evidence-Frames s) h
handle-Begins click_pdf s h = Frames-Begins Pending _ s (download_evidence_pdf-Frames s) h
handle-Begins confirm_expires s h = h

module _ (reply : (r : Req) → Result (Reply r)) (t : String) (present_token : truthy t ≡ true) where
  -- The timer is over, `debouncedSearch` is the text of `u`, and the calls are `calls`.
  abbrev pub Searches : Page → List Req → Page × List Req → Type 0
  Searches u calls (v, made) =
      (v.typing ≡ none) × (v.search ≡ u.search) × (v.debounced_search ≡ u.search) × (made ≡ calls)

  fired_lists :
      (u : Page) (b c : Bool)
      → u.token ≡ some t
      → Searches u (if b && c then [] else list_sessions t page_size u.search ∷ []) (
          exec reply
            (only_if (not b || not c) (
              load_sessions (record u { debounced_search = u.search; sessions_limit = page_size })))
            (record u { debounced_search = u.search; sessions_limit = page_size; typing = none }))
  unfolding load_sessions
  fired_lists u b c signed = ground arith

  timer_lists :
      (u : Page)
      → u.token ≡ some t
      → u.typing ≡ some u.search
      → Searches u
          (if u.debounced_search === u.search && u.sessions_limit == page_size
            then []
            else list_sessions t page_size u.search ∷ [])
          (exec reply (handle debounce_fires u) u)
  unfolding handle
  timer_lists u signed runs =
      rw runs
        (fired_lists u (u.debounced_search === u.search) (u.sessions_limit == page_size) signed)

  -- With a token, and from a page with no call waiting and no timer running whose `debouncedSearch` is
  -- the text of the field: after whatever events and replies, either `debouncedSearch` is the text of the
  -- field again and no timer runs, or the timer runs for that text; and when it fires and its call, if
  -- any, is the next to settle, `debouncedSearch` is that text, and the call is for the first 25 sessions
  -- with it; none is made if `debouncedSearch` and the limit were those already. What rows the page shows
  -- is not said: that is up to the replies.
  pub typed_text_is_asked_for :
      {s : Page} {w : World Page Req Reply}
      → s.typing ≡ none
      → s.debounced_search ≡ s.search
      → Reach handle (record { state = s; tasks = [] }) w
      → w.state.token ≡ some t
      → let u = w.state in
        ((u.typing ≡ none) × (u.debounced_search ≡ u.search))
        ⊎ ((u.typing ≡ some u.search)
            × Searches u
                (if u.debounced_search === u.search && u.sessions_limit == page_size
                  then []
                  else list_sessions t page_size u.search ∷ [])
                (exec reply (handle debounce_fires u) u))
  typed_text_is_asked_for {w} quiet listed r signed =
      elim (always Pending handle handle-Begins (inr (quiet, listed)) r) [
        | inl runs ↦ inr (runs, timer_lists w.state signed runs)
        | inr over ↦ inl over
      ]
