-- ===== src/Workspace/Online/Prompt.antt =====
-- frontend/app/app/page.tsx against frontend/lib/api.ts:
-- How long the page waits.
use blackbox_agent_accountab.Prelude.{
  ℕ, ◌+◌, ◌*◌, ◌≤◌, ◌≡◌, refl, ap, subst, String, Option, some, Result,
}
use blackbox_agent_accountab.Api.{Fetched, Body, timeout, decode, api_fetch, map_result}
use blackbox_agent_accountab.Api.Timeout.{Timely, Settled, read_body-Settled}
use blackbox_agent_accountab.Runtime.Sequential.{exec}
use blackbox_agent_accountab.Runtime.Alone.{exec-Keeps, length-exec, elapsed, elapsed-le}
use blackbox_agent_accountab.Workspace.{
  Page, Req, Reply, list_sessions, get_events, verify, run_audit, seed, evidence, evidence_pdf,
  wire, idle,
}
use blackbox_agent_accountab.Workspace.Events.{Event, handle}
use blackbox_agent_accountab.Workspace.Quiescence.{IsIdle, handle-Keeps}
use blackbox_agent_accountab.Workspace.Replies.{handle-Within}
use blackbox_agent_accountab.Workspace.Online.Plain.{handle-Plain}
use blackbox_agent_accountab.Workspace.Online.{from_body, as_reply, fetched, settled}

timeout-wire : (r : Req) → timeout (wire r).1 ≡ 15000
unfolding wire
timeout-wire (list_sessions _ _ _) = refl
timeout-wire (get_events _ _) = refl
timeout-wire (verify _ _) = refl
timeout-wire (run_audit _ _) = refl
timeout-wire (seed _) = refl
timeout-wire (evidence _ _) = refl
timeout-wire (evidence_pdf _ _) = refl

module _ (of_text : (r : Req) → String → Reply r) (backend : (r : Req) → Fetched (Reply r)) (d : ℕ)
    (timely : (r : Req) → Timely d (backend r)) where
  as_reply-Settled :
      (n : ℕ) (r : Req) (o : Option (ℕ × Result (Body (Reply r))))
      → Settled n o
      → Settled n (as_reply of_text backend r o)
  as_reply-Settled n r o (t, x, e, l) =
      (t, map_result (from_body of_text backend r) x, ap (as_reply of_text backend r) e, l)

  fetched-Settled : (r : Req) → Settled (15000 + d) (fetched of_text backend r)
  unfolding api_fetch fetched
  fetched-Settled r =
      let h = read_body-Settled (wire r).0 (wire r).1 decode d (backend r) (timely r) in
      as_reply-Settled (15000 + d) r _ (
        subst (λ n. Settled (n + d) (api_fetch (wire r).0 (wire r).1 (backend r))) (timeout-wire r)
          h)

  settled-Settled : (r : Req) → Settled (15000 + d) (settled of_text backend r)
  unfolding settled
  settled-Settled (list_sessions t n q) = fetched-Settled (list_sessions t n q)
  settled-Settled (get_events t id) = fetched-Settled (get_events t id)
  settled-Settled (verify t id) = fetched-Settled (verify t id)
  settled-Settled (run_audit t id) = fetched-Settled (run_audit t id)
  settled-Settled (seed t) = fetched-Settled (seed t)
  settled-Settled (evidence t id) = fetched-Settled (evidence t id)
  settled-Settled (evidence_pdf t id) =
      let r = evidence_pdf t id in
      subst (λ n. Settled (n + d) (settled of_text backend r)) (timeout-wire r)
        (read_body-Settled (wire r).0 (wire r).1 (λ res. res.blob) d (backend r) (timely r))

-- Against a backend whose bodies come within `d` milliseconds of their headers, whatever else it
-- answers, and however late it is or whether it hangs: every call of the page settles; and what a user
-- starts on an idle page, if nothing else runs on the page while it waits, is over, with the page idle,
-- when its calls have settled one after another, within four times 15 seconds and that time.
pub handler_is_prompt :
    (of_text : (r : Req) → String → Reply r) (backend : (r : Req) → Fetched (Reply r)) (d : ℕ)
    (e : Event) (s : Page)
    → ((r : Req) → Timely d (backend r))
    → s.busy ≡ idle
    → (answer : (r : Req) → Result (Reply r)) × (took : Req → ℕ) × ((r : Req)
        → settled of_text backend r ≡ some (took r, answer r))
      × ((exec answer (handle e s) s).0.busy ≡ idle)
      × (elapsed took (exec answer (handle e s) s).1 ≤ 4 * (15000 + d))
handler_is_prompt of_text backend d e s timely i =
    let all_settle = settled-Settled of_text backend d timely in
    let answer : (r : Req) → Result (Reply r) = λ r. (all_settle r).1 in
    let took : Req → ℕ = λ r. (all_settle r).0 in
    (
      answer,
      took,
      (λ r. (all_settle r).2),
      exec-Keeps answer IsIdle (IsIdle s) (handle e s) s (handle-Plain e s) (handle-Keeps e s) i,
      elapsed-le took 4 (15000 + d) (exec answer (handle e s) s).1 (λ r. (all_settle r).3)
          (length-exec answer 4 (handle e s) s (handle-Plain e s) (handle-Within e s)),
    )
