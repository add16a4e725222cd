-- ===== src/Workspace/Events.antt =====
-- frontend/app/app/page.tsx:
-- What can happen on the page, with the effects that React runs when their dependencies change.
use blackbox_agent_accountab.Prelude.{
  ◌+◌, String, Bool, false, not, ◌&&◌, ◌||◌, Option, none, some, ◌∷◌, if◌then◌else◌, ◌==◌, ◌===◌,
  present, same,
}
use blackbox_agent_accountab.Runtime.{done, act, only_if}
use blackbox_agent_accountab.Workspace.{
  Page, Handler, page_size, load_sessions, load_session, audit_session, seed_demo, open_evidence,
  download_evidence_pdf,
}

pub data Event : Type 0 where
  -- the session hook reports a token, or that there is none
  session : Option String → Event
  type_search : String → Event
  type_session_id : String → Event
  -- 300 ms after the last change of the search
  debounce_fires : Event
  click_load : Event
  click_session : String → Event
  click_more : Event
  click_audit : Event
  click_seed : Event
  click_evidence : Event
  click_pdf : Event
  confirm_expires : Event

-- The effect that sends a user without a session to the log-in page.
abbrev pub to_login : Bool → Option String → Page → Page
to_login changed t u = record u {
  pushed = if changed && not (present t) then "/login" ∷ u.pushed else u.pushed;
}

-- The timer fires with the text `q`, in a page that was rendered with the state `s`.
abbrev pub fire : String → Page → Handler
unfolding load_sessions
fire q s =
    act (λ u. record u { debounced_search = q; sessions_limit = page_size; typing = none })
      (only_if (not (s.debounced_search === q) || not (s.sessions_limit == page_size))
        (load_sessions (record s { debounced_search = q; sessions_limit = page_size })))

abbrev pub fire_typed : Option String → Page → Handler
unfolding load_sessions
fire_typed none s = done
fire_typed (some q) s = fire q s

unfoldable pub handle : Event → Page → Handler
unfolding load_sessions load_session audit_session seed_demo open_evidence download_evidence_pdf
handle (session t) s =
    let changed = not (same s.token t) in
    act (λ u. record u { token = t; session_loading = false })
      (act (to_login (s.session_loading || changed) t)
        (only_if changed (load_sessions (record s { token = t }))))
handle (type_search q) s =
    act (λ u. record u { search = q; typing = if s.search === q then u.typing else some q }) done
handle (type_session_id q) s = act (λ u. record u { session_id = q }) done
handle debounce_fires s = fire_typed s.typing s
handle click_load s = load_session none s
handle (click_session id) s = load_session (some id) s
handle click_more s =
    act (λ u. record u { sessions_limit = u.sessions_limit + page_size })
      (load_sessions (record s { sessions_limit = s.sessions_limit + page_size }))
handle click_audit s = audit_session s
handle click_seed s = seed_demo s
handle click_evidence s = open_evidence s
handle click_pdf s = download_evidence_pdf s
handle confirm_expires s = act (λ u. record u { confirm = none }) done
