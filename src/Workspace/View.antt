-- ===== src/Workspace/View.antt =====
-- frontend/app/app/page.tsx:
-- What the page renders.
use blackbox_agent_accountab.Prelude.{
  String, Bool, true, false, not, ◌&&◌, ◌||◌, Option, none, some, List, [], ◌∷◌, ◌++◌,
  if◌then◌else◌, ◌===◌, truthy, present, or_else, length, is_empty,
}
use blackbox_agent_accountab.Js.{template, to_string}
use blackbox_agent_accountab.View.{Node, text, button, item, input, when, each}
use blackbox_agent_accountab.Workspace.{
  Recorded, Verdict, SessionRow, Busy, load, audit, demo, pdf, Page,
}
use blackbox_agent_accountab.Workspace.Events.{
  Event, type_search, type_session_id, click_load, click_session, click_more, click_audit,
  click_seed, click_evidence, click_pdf,
}

abbrev pub is_load : Busy → Bool
is_load load = true
is_load _ = false

abbrev pub is_audit : Busy → Bool
is_audit audit = true
is_audit _ = false

abbrev pub is_demo : Busy → Bool
is_demo demo = true
is_demo _ = false

abbrev pub is_pdf : Busy → Bool
is_pdf pdf = true
is_pdf _ = false

abbrev pub show_row : Page → SessionRow → List (Node Event)
show_row s r =
    text (template (r.session_id ∷ " " ∷ to_string r.events ∷ " events" ∷ []))
    ∷ item (if r.session_id === s.session_id then "▶ selected" else "open")
        (click_session r.session_id)
    ∷ []

-- The list of the sessions, and the two ways to pick one.
unfoldable pub show_sessions : Page → List (Node Event)
show_sessions s =
    if is_empty s.sessions && not (truthy s.debounced_search)
    then text "A session is a recorded stream of an agent’s actions. You don’t have any yet."
      ∷ button (if is_demo s.busy then "Seeding…" else "Load a demo session") (is_demo s.busy)
          click_seed
      ∷ []
    else input "Search sessions…" s.search type_search
      ∷ input "…or paste a session id" s.session_id type_session_id
      ∷ button (if is_load s.busy then "Loading…" else "Load")
          (not (truthy s.session_id) || is_load s.busy) click_load
      ∷ ((if is_empty s.sessions
            then text (template ("No sessions match “" ∷ s.debounced_search ∷ "”." ∷ [])) ∷ []
            else each s.sessions (show_row s))
          ++ when s.has_more (button "Load more" false click_more ∷ []))

abbrev pub chain_badge : Option Bool → List (Node Event)
chain_badge none = []
chain_badge (some intact) = text (if intact then "chain intact" else "chain TAMPERED") ∷ []

abbrev tool_suffix : Option String → String
tool_suffix o = if present o then template (" · " ∷ or_else o "" ∷ []) else ""

abbrev pub show_event : Recorded → List (Node Event)
show_event e =
    text (template ("#" ∷ to_string e.seq ∷ " · " ∷ e.kind ∷ tool_suffix e.tool ∷ []))
    ∷ text e.intent
    ∷ []

abbrev pub show_verdict : Verdict → List (Node Event)
show_verdict v = text (template (v.rule_id ∷ " " ∷ v.severity ∷ [])) ∷ text v.rationale ∷ []

-- The selected session.
unfoldable pub show_selected : Page → List (Node Event)
show_selected s =
    text (template ("Session · " ∷ s.session_id ∷ []))
    ∷ button (if is_audit s.busy then "Auditing…" else "Run tribunal audit") (is_audit s.busy)
        click_audit
    ∷ button "Evidence pack ↗" false click_evidence
    ∷ button (if is_pdf s.busy then "Preparing PDF…" else "Download PDF") (is_pdf s.busy) click_pdf
    ∷ (when (present s.confirm) (text (or_else s.confirm "") ∷ [])
        ++ (chain_badge s.chain
            ++ (text "Events"
                ∷ text (to_string (length s.events))
                ∷ ((if is_empty s.events then text "No events." ∷ [] else each s.events show_event)
                    ++ (text "Verdicts"
                        ∷ text (to_string (length s.verdicts))
                        ∷ (if is_empty s.verdicts
                            then text "Run an audit to see verdicts." ∷ []
                            else each s.verdicts show_verdict))))))

abbrev pub shown_page : Page → List (Node Event)
shown_page s =
    text "Sessions"
    ∷ (show_sessions s
        ++ (when (present s.err) (text (or_else s.err "") ∷ [])
            ++ when (truthy s.session_id) (show_selected s)))

unfoldable pub view : Page → List (Node Event)
unfolding show_sessions show_selected
view s = if s.session_loading then text "Loading…" ∷ [] else shown_page s
