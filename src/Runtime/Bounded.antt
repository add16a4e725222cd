-- ===== src/Runtime/Bounded.antt =====
-- How many calls a program makes, and how many replies a history can have.
use blackbox_agent_accountab.Prelude.{
  ℕ, zero, suc, ◌+◌, ◌*◌, ◌≤◌, ◌≡◌, inl, inr, sym, subst, arith, Bool, true, false, String, Option,
  none, some, List, [], ◌∷◌, ◌++◌, Result, if◌then◌else◌, truthy,
}
use blackbox_agent_accountab.Runtime.{
  Prog, done, act, call, race, spawn, with_token, only_if, then_do, advance, Settles, World, event,
  settle, Reach, here, next,
}

module _ {S Req : Type 0} {R : Req → Type 0} where
  -- On every path the program makes at most `n` calls, those of what it spawns included.
  abbrev pub Within : ℕ → Prog S Req R → Type 0
  Within n done = Unit
  Within n (act f p) = Within n p
  Within zero (call r k) = ⊥
  Within (suc n) (call r k) = (x : Result (R r)) → Within n (k x)
  Within zero (race r k r' k') = ⊥
  Within (suc n) (race r k r' k') =
      ((x : Result (R r)) → Within n (k x)) × ((x : Result (R r')) → Within n (k' x))
  Within n (spawn p q) = (a : ℕ) × (b : ℕ) × (a + b ≤ n) × Within a p × Within b q

  -- The same of waiting programs together.
  abbrev pub Together : ℕ → List (Prog S Req R) → Type 0
  Together n [] = Unit
  Together n (t ∷ ts) = (a : ℕ) × (b : ℕ) × (a + b ≤ n) × Within a t × Together b ts

  Together-weaken : (n m : ℕ) (ts : List (Prog S Req R)) → n ≤ m → Together n ts → Together m ts
  Together-weaken n m [] h k = tt
  Together-weaken n m (t ∷ ts) h (a, b, e, w, k) = (a, b, omega arith, w, k)

  Together-append :
      (n m : ℕ) (ts us : List (Prog S Req R))
      → Together n ts
      → Together m us
      → Together (n + m) (ts ++ us)
  Together-append n m [] us h k = Together-weaken m (n + m) us (omega arith) k
  Together-append n m (t ∷ ts) us (a, b, e, w, h) k =
      (a, b + m, omega arith, w, Together-append b m ts us h k)

  -- The part of one waiting program, and that of the others.
  Together-middle :
      (n : ℕ) (ts : List (Prog S Req R)) (t : Prog S Req R) (us : List (Prog S Req R))
      → Together n (ts ++ t ∷ us)
      → (a : ℕ) × (b : ℕ) × (a + b ≤ n) × Within a t × Together b (ts ++ us)
  Together-middle n [] t us h = h
  Together-middle n (x ∷ ts) t us (a, b, e, w, h) =
      let (c, d, e', v, k) = Together-middle b ts t us h in
      (c, a + d, omega arith, v, (a, d, omega arith, w, k))

  advance-Together : (n : ℕ) (p : Prog S Req R) (s : S) → Within n p → Together n (advance p s).1
  advance-Together n done s h = tt
  advance-Together n (act f p) s h = advance-Together n p (f s) h
  advance-Together zero (call r k) s h = elim h [ ]
  advance-Together (suc n) (call r k) s h = (suc n, 0, omega arith, h, tt)
  advance-Together zero (race r k r' k') s h = elim h [ ]
  advance-Together (suc n) (race r k r' k') s h = (suc n, 0, omega arith, h, tt)
  advance-Together n (spawn p q) s (a, b, e, v, w) =
      Together-weaken (a + b) n _ e (
        Together-append a b _ _ (advance-Together a p s v) (advance-Together b q (advance p s).0 w))

  -- A reply leaves fewer calls to come.
  Settles-Within :
      (n : ℕ) (t p : Prog S Req R) → Within n t → Settles t p → (m : ℕ) × (suc m ≤ n) × Within m p
  Settles-Within zero (call r k) p h e = elim h [ ]
  Settles-Within (suc n) (call r k) p h (x, e) = (n, omega arith, subst (Within n) (sym e) (h x))
  Settles-Within zero (race r k r' k') p h e = elim h [ ]
  Settles-Within (suc n) (race r k r' k') p h (inl (x, e)) =
      (n, omega arith, subst (Within n) (sym e) (h.0 x))
  Settles-Within (suc n) (race r k r' k') p h (inr (x, e)) =
      (n, omega arith, subst (Within n) (sym e) (h.1 x))
  Settles-Within n done p h e = elim e [ ]
  Settles-Within n (act _ _) p h e = elim e [ ]
  Settles-Within n (spawn _ _) p h e = elim e [ ]

  module _ {A : Type 0} {handle : A → S → Prog S Req R} where
    abbrev pub events : {w v : World S Req R} → Reach handle w v → ℕ
    events here = 0
    events (next r (event a)) = suc (events r)
    events (next r (settle _ _ _ _ _ _)) = events r

    abbrev pub replies : {w v : World S Req R} → Reach handle w v → ℕ
    replies here = 0
    replies (next r (event a)) = replies r
    replies (next r (settle _ _ _ _ _ _)) = suc (replies r)

  module _ {A : Type 0} (handle : A → S → Prog S Req R) (n : ℕ)
      (within : (a : A) (s : S) → Within n (handle a s)) where
    Reach-Together :
        {s : S} {w : World S Req R} (r : Reach handle (record { state = s; tasks = [] }) w)
        → (m : ℕ) × (m + replies r ≤ n * events r) × Together m w.tasks
    Reach-Together here = (0, omega arith, tt)
    Reach-Together (next {u} r (event a)) =
        let (m, e, h) = Reach-Together r in
        (
          m + n,
          grind arith,
          Together-append m n u.tasks _ h
              (advance-Together n (handle a u.state) u.state (within a u.state)),
        )
    Reach-Together (next {u} r (settle ts us t p e x)) =
        let (m, h, k) = Reach-Together r in
        let (a, b, f, v, others) = Together-middle m ts t us (subst (Together m) e k) in
        let (c, g, w) = Settles-Within a t p v x in
        (
          b + c,
          omega arith,
          Together-append b c (ts ++ us) _ others (advance-Together c p u.state w),
        )

    -- From a state with no call waiting, a history has at most `n` replies for each of its events.
    pub replies-le :
        {s : S} {w : World S Req R} (r : Reach handle (record { state = s; tasks = [] }) w)
        → replies r ≤ n * events r
    replies-le r = let (m, h, k) = Reach-Together r in omega arith

  -- How the shapes of handlers keep to a number of calls.
  pub Within-only_if : (n : ℕ) (b : Bool) (p : Prog S Req R) → Within n p → Within n (only_if b p)
  Within-only_if n true p h = h
  Within-only_if n false p h = tt

  Within-if : (n : ℕ) (b : Bool) (p : Prog S Req R) → Within n p → Within n (if b then p else done)
  Within-if n true p h = h
  Within-if n false p h = tt

  pub Within-with_token :
      (n : ℕ) (o : Option String) (f : String → Prog S Req R)
      → ((t : String) → Within n (f t))
      → Within n (with_token o f)
  Within-with_token n none f h = tt
  Within-with_token n (some t) f h = Within-if n (truthy t) (f t) (h t)

  pub Within-weaken : (n m : ℕ) (p : Prog S Req R) → n ≤ m → Within n p → Within m p
  Within-weaken n m done e h = tt
  Within-weaken n m (act f p) e h = Within-weaken n m p e h
  Within-weaken zero m (call r k) e h = elim h [ ]
  Within-weaken (suc n) zero (call r k) e h = absurd (omega arith)
  Within-weaken (suc n) (suc m) (call r k) e h = λ x. Within-weaken n m (k x) (omega arith) (h x)
  Within-weaken zero m (race r k r' k') e h = elim h [ ]
  Within-weaken (suc n) zero (race r k r' k') e h = absurd (omega arith)
  Within-weaken (suc n) (suc m) (race r k r' k') e h = (
    λ x. Within-weaken n m (k x) (omega arith) (h.0 x),
    λ x. Within-weaken n m (k' x) (omega arith) (h.1 x),
  )
  Within-weaken n m (spawn p q) e (a, b, f, v, w) = (a, b, omega arith, v, w)

  pub Within-then_do :
      (n m : ℕ) (p q : Prog S Req R) → Within n p → Within m q → Within (n + m) (then_do p q)
  Within-then_do n m done q h k = Within-weaken m (n + m) q (omega arith) k
  Within-then_do n m (act f p) q h k = Within-then_do n m p q h k
  Within-then_do zero m (call r c) q h k = elim h [ ]
  Within-then_do (suc n) m (call r c) q h k =
      let e : suc (n + m) ≡ suc n + m = omega arith in
      subst (λ i. Within i (call r (λ x. then_do (c x) q))) e
        (λ x. Within-then_do n m (c x) q (h x) k)
  Within-then_do zero m (race r c r' c') q h k = elim h [ ]
  Within-then_do (suc n) m (race r c r' c') q h k =
      let e : suc (n + m) ≡ suc n + m = omega arith in
      subst (λ i. Within i (race r (λ x. then_do (c x) q) r' (λ x. then_do (c' x) q))) e
        (λ x. Within-then_do n m (c x) q (h.0 x) k, λ x. Within-then_do n m (c' x) q (h.1 x) k)
  Within-then_do n m (spawn p p') q (a, b, e, v, w) k =
      (a, b + m, omega arith, v, Within-then_do b m p' q w k)
