-- ===== src/Runtime/Sends.antt =====
-- The calls that programs make, and those that wait.
use blackbox_agent_accountab.Prelude.{
  ◌≡◌, refl, Bool, true, false, String, Option, none, some, if◌then◌else◌, truthy, sym, subst, inl,
  inr, List, [], ◌∷◌, Result, All, All-append, All-middle,
}
use blackbox_agent_accountab.Runtime.{
  Prog, done, act, call, race, spawn, only_if, with_token, then_do, advance, Settles, World, Step,
  event, settle, Reach, here, next,
}

module _ {S Req : Type 0} {R : Req → Type 0} (P : Req → Type 0) where
  -- Every call of the program satisfies `P`, whatever its calls settle with.
  abbrev pub Sends : Prog S Req R → Type 0
  Sends done = Unit
  Sends (act f p) = Sends p
  Sends (call r k) = P r × ((x : Result (R r)) → Sends (k x))
  Sends (race r k r' k') =
      P r × P r' × ((x : Result (R r)) → Sends (k x)) × ((x : Result (R r')) → Sends (k' x))
  Sends (spawn p q) = Sends p × Sends q

  -- The calls that a waiting task waits for.
  abbrev pub Waits : Prog S Req R → Type 0
  Waits (call r k) = P r
  Waits (race r k r' k') = P r × P r'
  Waits _ = Unit

  pub Sends-then_do : (p q : Prog S Req R) → Sends p → Sends q → Sends (then_do p q)
  Sends-then_do done q h k = k
  Sends-then_do (act f p) q h k = Sends-then_do p q h k
  Sends-then_do (call r c) q h k = (h.0, λ x. Sends-then_do (c x) q (h.1 x) k)
  Sends-then_do (race r c r' c') q h k =
      (h.0, h.1, λ x. Sends-then_do (c x) q (h.2 x) k, λ x. Sends-then_do (c' x) q (h.3 x) k)
  Sends-then_do (spawn p p') q h k = (h.0, Sends-then_do p' q h.1 k)

  pub Sends-only_if : (b : Bool) (p : Prog S Req R) → (b ≡ true → Sends p) → Sends (only_if b p)
  Sends-only_if true p h = h refl
  Sends-only_if false p h = tt

  Sends-if : (b : Bool) (p : Prog S Req R) → (b ≡ true → Sends p) → Sends (if b then p else done)
  Sends-if true p h = h refl
  Sends-if false p h = tt

  pub Sends-with_token :
      (o : Option String) (f : String → Prog S Req R)
      → ((t : String) → o ≡ some t → truthy t ≡ true → Sends (f t))
      → Sends (with_token o f)
  Sends-with_token none f h = tt
  Sends-with_token (some t) f h = Sends-if (truthy t) (f t) (h t refl)

  pub advance-Sends : (p : Prog S Req R) (s : S) → Sends p → All Sends (advance p s).1
  advance-Sends done s h = tt
  advance-Sends (act f p) s h = advance-Sends p (f s) h
  advance-Sends (call r k) s h = (h, tt)
  advance-Sends (race r k r' k') s h = (h, tt)
  advance-Sends (spawn p q) s h =
      All-append Sends _ _ (advance-Sends p s h.0) (advance-Sends q (advance p s).0 h.1)

  pub Settles-Sends : (t p : Prog S Req R) → Sends t → Settles t p → Sends p
  Settles-Sends (call r k) p h (x, e) = subst Sends (sym e) (h.1 x)
  Settles-Sends (race r k r' k') p h (inl (x, e)) = subst Sends (sym e) (h.2 x)
  Settles-Sends (race r k r' k') p h (inr (x, e)) = subst Sends (sym e) (h.3 x)
  Settles-Sends _ p h e = elim e [ ]

  pub Sends-Waits : (ts : List (Prog S Req R)) → All Sends ts → All Waits ts
  Sends-Waits [] h = tt
  Sends-Waits (done ∷ ts) h = (tt, Sends-Waits ts h.1)
  Sends-Waits (act f p ∷ ts) h = (tt, Sends-Waits ts h.1)
  Sends-Waits (call r k ∷ ts) h = (h.0.0, Sends-Waits ts h.1)
  Sends-Waits (race r k r' k' ∷ ts) h = ((h.0.0, h.0.1), Sends-Waits ts h.1)
  Sends-Waits (spawn p q ∷ ts) h = (tt, Sends-Waits ts h.1)

  module _ {A : Type 0} (handle : A → S → Prog S Req R)
      (sends : (a : A) (s : S) → Sends (handle a s)) where
    Step-Sends : {w v : World S Req R} → Step handle w v → All Sends w.tasks → All Sends v.tasks
    Step-Sends {w} (event a) h =
        All-append Sends _ _ h (advance-Sends (handle a w.state) w.state (sends a w.state))
    Step-Sends {w} (settle ts us t p e m) h =
        let (now, rest) = All-middle Sends ts t us (subst (All Sends) e h) in
        All-append Sends _ _ rest (advance-Sends p w.state (Settles-Sends t p now m))

    Reach-Sends : {w v : World S Req R} → All Sends w.tasks → Reach handle w v → All Sends v.tasks
    Reach-Sends h here = h
    Reach-Sends h (next r st) = Step-Sends st (Reach-Sends h r)

    -- From a state with no call waiting, every call that ever waits satisfies `P`.
    pub every_call :
        {s : S} {w : World S Req R}
        → Reach handle (record { state = s; tasks = [] }) w
        → All Waits w.tasks
    every_call {w} r = Sends-Waits w.tasks (Reach-Sends tt r)

pub Sends-map :
    {S Req : Type 0} {R : Req → Type 0} (P Q : Req → Type 0)
    → ((r : Req) → P r → Q r)
    → (p : Prog S Req R) → Sends P p
    → Sends Q p
Sends-map P Q f done h = tt
Sends-map P Q f (act g p) h = Sends-map P Q f p h
Sends-map P Q f (call r k) h = (f r h.0, λ x. Sends-map P Q f (k x) (h.1 x))
Sends-map P Q f (race r k r' k') h =
    (f r h.0, f r' h.1, λ x. Sends-map P Q f (k x) (h.2 x), λ x. Sends-map P Q f (k' x) (h.3 x))
Sends-map P Q f (spawn p q) h = (Sends-map P Q f p h.0, Sends-map P Q f q h.1)
