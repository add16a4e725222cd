-- ===== src/Api/Timeout.antt =====
-- When the requests of frontend/lib/api.ts settle, and with what.
use blackbox_agent_accountab.Prelude.{
  ℕ, ◌+◌, Result, Option, some, ◌≤◌, ◌<◌, ◌≡◌, ◌↔◌, refl, ap, subst, String, true, none, ok, arith,
}
use blackbox_agent_accountab.Api.{
  Options, Response, Fetched, responds, fails, hangs, is_ok, timeout, raw_fetch, read_body,
  api_fetch,
}

module _ {B : Type 0} (path : String) (opts : Options) where
  -- Whatever the backend does, `rawFetch` settles, within the timeout.
  pub raw_fetch_bounded : (f : Fetched B) → (raw_fetch path opts f).0 ≤ timeout opts
  unfolding raw_fetch
  raw_fetch_bounded hangs = omega arith
  raw_fetch_bounded (fails t e) = ground arith
  raw_fetch_bounded (responds t res) = ground arith

  -- `rawFetch` gives a response exactly when headers with a status from 200 to 299 come before the
  -- timeout, and it gives that response, when its headers come.
  pub raw_fetch-eq-ok_iff :
      (f : Fetched B) (t : ℕ) (res : Response B)
      → (raw_fetch path opts f ≡ (t, ok res))
        ↔ ((f ≡ responds t res) × (t < timeout opts) × (200 ≤ res.status) × (res.status ≤ 299))
  unfolding raw_fetch
  raw_fetch-eq-ok_iff hangs t res = ground arith
  raw_fetch-eq-ok_iff (fails u e) t res = ground arith
  raw_fetch-eq-ok_iff (responds u r) t res = ground arith

  -- `apiFetch` stays pending for ever exactly when headers with a status from 200 to 299 come
  -- before the timeout and the body never does.
  pub api_fetch_pending_iff :
      (f : Fetched B)
      → (api_fetch path opts f ≡ none) ↔ (
          (t : ℕ) × (res : Response B) × (f ≡ responds t res)
          × (t < timeout opts)
          × (is_ok res.status ≡ true)
          × (res.body_delay ≡ none))
  unfolding api_fetch
  api_fetch_pending_iff hangs = (λ e. cc, λ h. ground arith)
  api_fetch_pending_iff (fails u e) = (λ h. ground arith, λ h. ground arith)
  api_fetch_pending_iff (responds u r) =
      (λ h. (u, r, refl, ground arith, ground arith, ground arith), λ h. ground arith)

-- The body of a response, if there is one, comes within `d` of its headers.
abbrev pub Timely : {B : Type 0} → ℕ → Fetched B → Type 0
Timely d (responds t res) = (e : ℕ) × (res.body_delay ≡ some e) × (e ≤ d)
Timely d _ = Unit

-- A wait that comes to an end, within `n`.
abbrev pub Settled : {C : Type 0} → ℕ → Option (ℕ × Result C) → Type 0
Settled {C} n o = (t : ℕ) × (x : Result C) × (o ≡ some (t, x)) × (t ≤ n)

-- The body of the response that a request gave comes within `d`.
response-Timely :
    {B : Type 0} (path : String) (opts : Options) (d : ℕ) (g : Fetched B) (res : Response B)
    → Timely d g
    → (raw_fetch path opts g).1 ≡ ok res
    → (e : ℕ) × (res.body_delay ≡ some e) × (e ≤ d)
response-Timely path opts d g res h k =
    let t = (raw_fetch path opts g).0 in
    subst (Timely d) ((raw_fetch-eq-ok_iff path opts g t res).0 (ap (λ x. (t, x)) k)).0 h

module _ {B C : Type 0} (path : String) (opts : Options) (f : Response B → Result C) where
  read-Settled :
      (d n : ℕ) (y : ℕ × Result (Response B))
      → y.0 ≤ n
      → ((res : Response B) → y.1 ≡ ok res → (e : ℕ) × (res.body_delay ≡ some e) × (e ≤ d))
      → Settled (n + d) (read_body f y)
  read-Settled d n (t, Result.err e) h k = (t, Result.err e, refl, omega arith)
  read-Settled d n (t, ok res) h k =
      let (e, b, l) = k res refl in
      let came : read_body f (t, ok res) ≡ some (t + e, f res) =
        ap
          (λ o. elim o as (λ o. Option (ℕ × Result C)) [
            | none ↦ none
            | some u ↦ some (t + u, f res)
          ])
          b in
      (t + e, f res, came, omega arith)

  -- With a timely body a request settles within its timeout and that time.
  pub read_body-Settled :
      (d : ℕ) (g : Fetched B)
      → Timely d g
      → Settled (timeout opts + d) (read_body f (raw_fetch path opts g))
  read_body-Settled d g h =
      read-Settled d (timeout opts) (raw_fetch path opts g) (raw_fetch_bounded path opts g)
        (λ res. response-Timely path opts d g res h)
