-- ===== src/Keys.antt =====
-- frontend/app/app/keys/page.tsx: the API keys of the workspace.
pub mod Laws
use blackbox_agent_accountab.Prelude.{
  ℕ, String, Bool, true, false, not, ◌&&◌, ◌||◌, Option, none, some, List, [], ◌∷◌, ◌++◌, Result,
  ok, if◌then◌else◌, truthy, present, same, is_some, or_else, is_empty,
}
use blackbox_agent_accountab.Js.{template, to_string}
use blackbox_agent_accountab.Json.{str, stringify}
use blackbox_agent_accountab.Api.{Options, bare, with_body, fetching}
use blackbox_agent_accountab.Runtime.{Prog, done, act, call, spawn, with_token, only_if}
use blackbox_agent_accountab.View.{Node, text, button, input, when, each}

pub record ApiKey : Type 0 where
  pub id : ℕ
  pub name : String
  pub prefix : String
  pub revoked_at : Option String

-- The state of the page: its hooks, and what it told the router.
pub record Page : Type 0 where
  pub token : Option String
  pub session_loading : Bool
  pub keys : List ApiKey
  pub created : Option String
  pub name : String
  pub err : Option String
  pub loading : Bool
  pub confirm : Option String
  pub pushed : List String

-- The calls of the API that the page makes.
pub data Req : Type 0 where
  list_keys : String → Req
  create_key : String → String → Req
  delete_key : String → ℕ → Req

abbrev pub Reply : Req → Type 0
Reply (list_keys _) = List ApiKey
Reply (create_key _ _) = String
Reply (delete_key _ _) = Unit {0}

-- What the call of a request is given.
unfoldable pub wire : Req → String × Options
wire (list_keys t) = ("/keys", fetching t)
wire (create_key t name) = ("/keys", with_body "POST" t (("name", some (str name)) ∷ []))
wire (delete_key t id) = (template ("/keys/" ∷ to_string id ∷ []), bare "DELETE" t)

abbrev pub Handler : Type 0
Handler = Prog Page Req Reply

-- What `refresh` does with the reply.
abbrev refreshed : Result (List ApiKey) → Page → Page
refreshed (ok ks) s = record s { keys = ks; loading = false }
refreshed (Result.err e) s = record s { err = some e; loading = false }

unfoldable pub refresh : Page → Handler
refresh s = with_token s.token λ t. call (list_keys t) (λ x. act (refreshed x) done)

abbrev pub created_key : Page → Result String → Handler
unfolding refresh
created_key s (ok key) =
    act (λ u. record u { created = some key; name = "" }) (spawn (refresh s) done)
created_key s (Result.err e) = act (λ u. record u { err = some e }) done

unfoldable pub create : Page → Handler
unfolding created_key
create s = with_token s.token λ t.
    only_if (truthy s.name)
      (act (λ u. record u { err = none }) (call (create_key t s.name) (created_key s)))

abbrev pub revoked : Page → Result (Unit {0}) → Handler
unfolding refresh
revoked s (ok _) = spawn (refresh s) (act (λ u. record u { confirm = some "Key revoked" }) done)
revoked s (Result.err e) = act (λ u. record u { err = some e }) done

unfoldable pub revoke : ℕ → Page → Handler
unfolding revoked
revoke id s = with_token s.token λ t. call (delete_key t id) (revoked s)

-- What can happen on the page: the session hook reports a token, with the effects that depend on it,
-- the user types or clicks, and the confirmation goes away.
pub data Event : Type 0 where
  session : Option String → Event
  type_name : String → Event
  click_create : Event
  click_revoke : ℕ → Event
  confirm_expires : Event

unfoldable pub handle : Event → Page → Handler
unfolding refresh create revoke
handle (session t) s =
    let changed = not (same s.token t) in
    act (λ u. record u { token = t; session_loading = false })
      (act
        (λ u. record u {
          pushed =
              if (s.session_loading || changed) && not (present t)
              then "/login" ∷ u.pushed
              else u.pushed;
        })
        (only_if changed (refresh (record s { token = t }))))
handle (type_name n) s = act (λ u. record u { name = n }) done
handle click_create s = create s
handle (click_revoke id) s = revoke id s
handle confirm_expires s = act (λ u. record u { confirm = none }) done

show_key : ApiKey → List (Node Event)
show_key k =
    text (template (k.prefix ∷ "… " ∷ k.name ∷ []))
    ∷ (if present k.revoked_at
        then text "revoked" ∷ []
        else button "Revoke" false (click_revoke k.id) ∷ [])

abbrev created_notice : Page → List (Node Event)
created_notice s =
    text (template ("Copy this now, it’s shown only once: " ∷ or_else s.created "" ∷ [])) ∷ []

show_list : Page → List (Node Event)
unfolding show_key
show_list s =
    if s.loading
    then text "Loading your API keys…" ∷ []
    else if is_empty s.keys
    then text "No keys yet." ∷ []
    else each s.keys show_key

unfoldable pub view : Page → List (Node Event)
unfolding show_list
view s =
    input "key name (e.g. production)" s.name type_name
    ∷ button "Create key" (not (truthy s.name)) click_create
    ∷ (when (present s.confirm) (text (or_else s.confirm "") ∷ [])
        ++ (when (present s.created) (created_notice s)
            ++ (when (present s.err) (text (or_else s.err "") ∷ []) ++ show_list s)))
