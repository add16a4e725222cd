-- ===== src/Runtime/Quiet.antt =====
-- Conditions that handlers break only while they wait: that a flag is clear, say, which each handler
-- sets before its first `await` and clears at its end.
use blackbox_agent_accountab.Prelude.{
  ◌⊎◌, inl, inr, Result, Bool, true, false, String, Option, none, some, if◌then◌else◌, truthy,
}
use blackbox_agent_accountab.Runtime.{
  Prog, done, act, call, race, spawn, with_token, only_if, then_do, advance,
}

module _ {S Req : Type 0} {R : Req → Type 0} (Q : S → Type 0) where
  -- `p`, in a segment that began in a state with `P`, keeps the condition: each of its segments
  -- does, or ends at a call after which it is restored. A segment that follows a call begins in
  -- any state.
  abbrev mutual
    pub Keeps : Type 0 → Prog S Req R → S → Type 0
    Keeps P done s = P → Q s
    Keeps P (act f p) s = Keeps P p (f s)
    Keeps P (call r k) s =
        ((P → Q s) × ((x : Result (R r)) (t : S) → Keeps (Q t) (k x) t))
        ⊎ ((x : Result (R r)) (t : S) → Restores (k x) t)
    Keeps P (race r k r' k') s =
        ((P → Q s)
          × ((x : Result (R r)) (t : S) → Keeps (Q t) (k x) t)
          × ((x : Result (R r')) (t : S) → Keeps (Q t) (k' x) t))
        ⊎ (((x : Result (R r)) (t : S) → Restores (k x) t)
            × ((x : Result (R r')) (t : S) → Restores (k' x) t))
    Keeps P (spawn p q) s = Keeps ⊥ p s × Keeps P q (advance p s).0

    -- `p` ends with the condition, whatever other handlers do while it waits.
    pub Restores : Prog S Req R → S → Type 0
    Restores done s = Q s
    Restores (act f p) s = Restores p (f s)
    Restores (call r k) s = (x : Result (R r)) (t : S) → Restores (k x) t
    Restores (race r k r' k') s =
        ((x : Result (R r)) (t : S) → Restores (k x) t)
        × ((x : Result (R r')) (t : S) → Restores (k' x) t)
    Restores (spawn p q) s = Keeps ⊥ p s × Restores q (advance p s).0

  pub Restores-Keeps : (P : Type 0) (p : Prog S Req R) (s : S) → Restores p s → Keeps P p s
  Restores-Keeps P done s h = λ _. h
  Restores-Keeps P (act g p) s h = Restores-Keeps P p (g s) h
  Restores-Keeps P (call r k) s h = inr h
  Restores-Keeps P (race r k r' k') s h = inr h
  Restores-Keeps P (spawn p q) s h = (h.0, Restores-Keeps P q (advance p s).0 h.1)

  -- A guard keeps the condition if what it guards does.
  pub Keeps-only_if :
      (P : Type 0) (b : Bool) (p : Prog S Req R) (s : S)
      → (P → Q s)
      → Keeps P p s
      → Keeps P (only_if b p) s
  Keeps-only_if P true p s q h = h
  Keeps-only_if P false p s q h = q

  pub Keeps-if :
      (P : Type 0) (b : Bool) (p : Prog S Req R) (s : S)
      → (P → Q s)
      → Keeps P p s
      → Keeps P (if b then p else done) s
  Keeps-if P true p s q h = h
  Keeps-if P false p s q h = q

  pub Keeps-with_token :
      (P : Type 0) (o : Option String) (f : String → Prog S Req R) (s : S)
      → (P → Q s)
      → ((t : String) → Keeps P (f t) s)
      → Keeps P (with_token o f) s
  Keeps-with_token P none f s q h = q
  Keeps-with_token P (some t) f s q h = Keeps-if P (truthy t) (f t) s q (h t)

  -- What follows an awaited function restores the condition, if that function never leaves it
  -- broken by itself.
  pub Restores-then_do :
      (P : Type 0) (p q : Prog S Req R) (s : S)
      → Keeps P p s
      → ((t : S) → Restores q t)
      → Restores (then_do p q) s
  Restores-then_do P done q s h k = k s
  Restores-then_do P (act f p) q s h k = Restores-then_do P p q (f s) h k
  Restores-then_do P (call r c) q s (inl h) k = λ x t. Restores-then_do (Q t) (c x) q t (h.1 x t) k
  Restores-then_do P (call r c) q s (inr h) k =
      λ x t. Restores-then_do P (c x) q t (Restores-Keeps P (c x) t (h x t)) k
  Restores-then_do P (race r c r' c') q s (inl h) k = (
    λ x t. Restores-then_do (Q t) (c x) q t (h.1 x t) k,
    λ x t. Restores-then_do (Q t) (c' x) q t (h.2 x t) k,
  )
  Restores-then_do P (race r c r' c') q s (inr h) k = (
    λ x t. Restores-then_do P (c x) q t (Restores-Keeps P (c x) t (h.0 x t)) k,
    λ x t. Restores-then_do P (c' x) q t (Restores-Keeps P (c' x) t (h.1 x t)) k,
  )
  Restores-then_do P (spawn p p') q s h k = (h.0, Restores-then_do P p' q (advance p s).0 h.1 k)
