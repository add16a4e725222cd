-- ===== src/Keys/Laws.antt =====
-- frontend/app/app/keys/page.tsx:
-- What creating and revoking a key does, and what the page offers.
use blackbox_agent_accountab.Prelude.{
  ◌≡◌, ℕ, String, true, false, not, none, some, List, [], ◌∷◌, Result, ok, All, All-append, truthy,
  present, or_else, is_empty, arith,
}
use blackbox_agent_accountab.Runtime.Sequential.{exec}
use blackbox_agent_accountab.View.{text, button, Calls, when, All-when, All-if, All-each}
use blackbox_agent_accountab.Keys.{
  ApiKey, Page, Req, Reply, list_keys, create_key, create, refresh, click_create, click_revoke,
  handle, show_key, show_list, created_notice, view,
}

module _ (reply : (r : Req) → Result (Reply r)) (s : Page) (t : String) (signed : s.token ≡ some t)
    (present_token : truthy t ≡ true) (present_name : truthy s.name ≡ true) where
  -- With a session and a name: if the server creates the key and lists the keys, `create` alone shows
  -- the key that was created and the list, empties the field and clears the error, with these two
  -- calls.
  pub create_lem :
      {key : String} {ks : List ApiKey}
      → reply (create_key t s.name) ≡ ok key
      → reply (list_keys t) ≡ ok ks
      → let (u, calls) = exec reply (create s) s in
        (u.created ≡ some key)
        × (u.keys ≡ ks)
        × (u.name ≡ "")
        × (u.err ≡ none)
        × (u.loading ≡ false)
        × (calls ≡ create_key t s.name ∷ list_keys t ∷ [])
  unfolding create refresh
  create_lem p q = ground arith

  -- With a session and a name: if the server refuses, `create` alone shows the error, keeps the
  -- name, the list and the key that was shown, and makes no other call.
  pub create_refused :
      {e : String}
      → reply (create_key t s.name) ≡ Result.err e
      → let (u, calls) = exec reply (create s) s in
        (u.err ≡ some e)
        × (u.name ≡ s.name)
        × (u.keys ≡ s.keys)
        × (u.created ≡ s.created)
        × (calls ≡ create_key t s.name ∷ [])
  unfolding create refresh
  create_refused p = ground arith

module _ (s : Page) (signed : present s.token ≡ true) where
  create-Calls : Calls handle s (button "" (not (truthy s.name)) click_create)
  unfolding handle
  create-Calls = ground arith

  revoke-Calls : (id : ℕ) → Calls handle s (button "" false (click_revoke id))
  unfolding handle
  revoke-Calls id = ground arith

  show_key-Calls : (k : ApiKey) → All (Calls handle s) (show_key k)
  unfolding show_key
  show_key-Calls k = (
    tt,
    All-if (Calls handle s) (present k.revoked_at) _ _ (λ _. (tt, tt))
        (λ _. (revoke-Calls k.id, tt)),
  )

  show_list-Calls : All (Calls handle s) (show_list s)
  unfolding show_list
  show_list-Calls =
      All-if (Calls handle s) s.loading _ _ (λ _. (tt, tt))
        (λ _.
          All-if (Calls handle s) (is_empty s.keys) _ _ (λ _. (tt, tt))
            (λ _. All-each (Calls handle s) s.keys show_key show_key-Calls))

  -- With a session, a click on any button that the page shows as enabled makes a call.
  pub keys-view-Calls : All (Calls handle s) (view s)
  unfolding view
  keys-view-Calls = (
    tt,
    (
      create-Calls,
      All-append (Calls handle s) (when (present s.confirm) (text (or_else s.confirm "") ∷ [])) _
          (All-when (Calls handle s) (present s.confirm) (text (or_else s.confirm "") ∷ [])
            (λ _. (tt, tt)))
          (All-append (Calls handle s) (when (present s.created) (created_notice s)) _
            (All-when (Calls handle s) (present s.created) (created_notice s) (λ _. (tt, tt)))
            (All-append (Calls handle s) (when (present s.err) (text (or_else s.err "") ∷ [])) _
              (All-when (Calls handle s) (present s.err) (text (or_else s.err "") ∷ [])
                (λ _. (tt, tt)))
              show_list-Calls)),
    ),
  )
