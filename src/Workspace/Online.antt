-- ===== src/Workspace/Online.antt =====
-- frontend/app/app/page.tsx against frontend/lib/api.ts: the calls of the page as requests.
--
-- The backend is a parameter: what the `fetch` of each call comes to.
pub mod Plain
pub mod Prompt
use blackbox_agent_accountab.Prelude.{ℕ, String, Option, none, some, Result}
use blackbox_agent_accountab.Api.{Fetched, Body, json, text, map_result, api_fetch, api_fetch_blob}
use blackbox_agent_accountab.Workspace.{Req, Reply, evidence_pdf, wire}

module _ (of_text : (r : Req) → String → Reply r) (backend : (r : Req) → Fetched (Reply r)) where
  -- What the page takes the decoded body of a reply for; `of_text` is for one that is a text.
  abbrev pub from_body : (r : Req) → Body (Reply r) → Reply r
  from_body r (json x) = x
  from_body r (text s) = of_text r s

  abbrev pub as_reply :
      (r : Req) → Option (ℕ × Result (Body (Reply r))) → Option (ℕ × Result (Reply r))
  as_reply r none = none
  as_reply r (some (t, x)) = some (t, map_result (from_body r) x)

  abbrev pub fetched : (r : Req) → Option (ℕ × Result (Reply r))
  unfolding wire api_fetch
  fetched r = as_reply r (api_fetch (wire r).0 (wire r).1 (backend r))

  -- When a call of the page settles, and with what: `apiFetchBlob` for the export, else `apiFetch`.
  unfoldable pub settled : (r : Req) → Option (ℕ × Result (Reply r))
  unfolding wire api_fetch_blob
  settled (evidence_pdf t id) =
      api_fetch_blob (wire (evidence_pdf t id)).0 (wire (evidence_pdf t id)).1
        (backend (evidence_pdf t id))
  settled r = fetched r
