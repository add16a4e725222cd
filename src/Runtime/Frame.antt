-- ===== src/Runtime/Frame.antt =====
-- Programs each of whose updates keeps a condition.
use blackbox_agent_accountab.Prelude.{
  inl, String, Bool, true, false, Option, none, some, Result, ok, err, if◌then◌else◌, truthy,
}
use blackbox_agent_accountab.Runtime.{
  Prog, done, act, call, race, spawn, with_token, only_if, then_do, await_both, await_all,
  on_result, advance,
}
use blackbox_agent_accountab.Runtime.Quiet.{Keeps}

module _ {S Req : Type 0} {R : Req → Type 0} (Q : S → Type 0) where
  abbrev pub Frames : Prog S Req R → Type 0
  Frames done = Unit
  Frames (act f p) = ((s : S) → Q s → Q (f s)) × Frames p
  Frames (call r k) = (x : Result (R r)) → Frames (k x)
  Frames (race r k r' k') =
      ((x : Result (R r)) → Frames (k x)) × ((x : Result (R r')) → Frames (k' x))
  Frames (spawn p q) = Frames p × Frames q

  pub Frames-only_if : (b : Bool) (p : Prog S Req R) → Frames p → Frames (only_if b p)
  Frames-only_if true p h = h
  Frames-only_if false p h = tt

  Frames-if : (b : Bool) (p : Prog S Req R) → Frames p → Frames (if b then p else done)
  Frames-if true p h = h
  Frames-if false p h = tt

  pub Frames-with_token :
      (o : Option String) (f : String → Prog S Req R)
      → ((t : String) → Frames (f t))
      → Frames (with_token o f)
  Frames-with_token none f h = tt
  Frames-with_token (some t) f h = Frames-if (truthy t) (f t) (h t)

  pub Frames-then_do : (p q : Prog S Req R) → Frames p → Frames q → Frames (then_do p q)
  Frames-then_do done q h k = k
  Frames-then_do (act f p) q h k = (h.0, Frames-then_do p q h.1 k)
  Frames-then_do (call r c) q h k = λ x. Frames-then_do (c x) q (h x) k
  Frames-then_do (race r c r' c') q h k =
      (λ x. Frames-then_do (c x) q (h.0 x) k, λ x. Frames-then_do (c' x) q (h.1 x) k)
  Frames-then_do (spawn p p') q h k = (h.0, Frames-then_do p' q h.1 k)

  pub Frames-await_both :
      (r : Req) (f : Result (R r) → S → S) (r' : Req) (f' : Result (R r') → S → S)
      (q : Prog S Req R)
      → ((x : Result (R r)) (s : S) → Q s → Q (f x s))
      → ((x : Result (R r')) (s : S) → Q s → Q (f' x s))
      → Frames q
      → Frames (await_both r f r' f' q)
  Frames-await_both r f r' f' q h h' k = (λ x. (h x, λ y. (h' y, k)), λ y. (h' y, λ x. (h x, k)))

  pub Frames-on_result :
      {A : Type 0} (f : A → Prog S Req R) (g : String → Prog S Req R)
      → ((a : A) → Frames (f a))
      → ((e : String) → Frames (g e))
      → (x : Result A) → Frames (on_result f g x)
  Frames-on_result f g h k (ok a) = h a
  Frames-on_result f g h k (err e) = k e

  pub Frames-await_all :
      (r r' : Req) (f : R r → R r' → Prog S Req R) (g : String → Prog S Req R)
      → ((a : R r) (b : R r') → Frames (f a b))
      → ((e : String) → Frames (g e))
      → Frames (await_all r r' f g)
  Frames-await_all r r' f g h k = (
    Frames-on_result _ g (λ a. Frames-on_result _ g (λ b. h a b) k) k,
    Frames-on_result _ g (λ b. Frames-on_result _ g (λ a. h a b) k) k,
  )

  pub advance-Frames : (p : Prog S Req R) (s : S) → Frames p → Q s → Q (advance p s).0
  advance-Frames done s h q = q
  advance-Frames (act f p) s h q = advance-Frames p (f s) h.1 (h.0 s q)
  advance-Frames (call r k) s h q = q
  advance-Frames (race r k r' k') s h q = q
  advance-Frames (spawn p p') s h q =
      advance-Frames p' (advance p s).0 h.1 (advance-Frames p s h.0 q)

  -- Such a program keeps the condition beside whatever else runs.
  pub Frames-Keeps : (P : Type 0) (p : Prog S Req R) (s : S) → Frames p → (P → Q s) → Keeps Q P p s
  Frames-Keeps P done s h q = q
  Frames-Keeps P (act f p) s h q = Frames-Keeps P p (f s) h.1 (λ x. h.0 s (q x))
  Frames-Keeps P (call r k) s h q = inl (q, λ x t. Frames-Keeps (Q t) (k x) t (h x) (λ y. y))
  Frames-Keeps P (race r k r' k') s h q = inl (
    q,
    λ x t. Frames-Keeps (Q t) (k x) t (h.0 x) (λ y. y),
    λ x t. Frames-Keeps (Q t) (k' x) t (h.1 x) (λ y. y),
  )
  Frames-Keeps P (spawn p q) s h k = (
    Frames-Keeps ⊥ p s h.0 (λ x. absurd x),
    Frames-Keeps P q (advance p s).0 h.1 (λ x. advance-Frames p s h.0 (k x)),
  )
