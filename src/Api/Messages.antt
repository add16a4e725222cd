-- ===== src/Api/Messages.antt =====
-- What the texts of the errors of frontend/lib/api.ts include.
use blackbox_agent_accountab.Prelude.{ℕ, ◌≡◌, String, true}
use blackbox_agent_accountab.Js.{includes, to_string}
use blackbox_agent_accountab.Js.Includes.{includes-append_right, includes-append_left}
use blackbox_agent_accountab.Api.{timed_out, api_error}

-- The text of a timeout includes what the path does.
pub includes-timed_out :
    (path t : String) → includes path t ≡ true → includes (timed_out path) t ≡ true
unfolding timed_out
includes-timed_out path t h =
    includes-append_right "Error: API request to " _ t (includes-append_left path _ t h)

-- The text of an error response includes what its status does.
pub includes-api_error :
    (status : ℕ) (body t : String)
    → includes (to_string status) t ≡ true
    → includes (api_error status body) t ≡ true
unfolding api_error
includes-api_error status body t h =
    includes-append_right "Error: API " _ t (includes-append_left (to_string status) _ t h)
