-- ===== src/Runtime/Alone.antt =====
-- What one handler alone does, with nothing else running while it waits.
use blackbox_agent_accountab.Prelude.{
  ℕ, zero, suc, ◌+◌, ◌*◌, ◌≤◌, inl, inr, arith, Bool, true, false, String, Option, none, some, List,
  [], ◌∷◌, length, Result, if◌then◌else◌, truthy,
}
use blackbox_agent_accountab.Runtime.{
  Prog, done, act, call, race, spawn, with_token, only_if, then_do,
}
use blackbox_agent_accountab.Runtime.Sequential.{exec}
use blackbox_agent_accountab.Runtime.Bounded.{Within}
use blackbox_agent_accountab.Runtime.Quiet.{Keeps, Restores}

module _ {S Req : Type 0} {R : Req → Type 0} where
  -- The program calls no asynchronous function without awaiting it.
  abbrev pub Plain : Prog S Req R → Type 0
  Plain done = Unit
  Plain (act f p) = Plain p
  Plain (call r k) = (x : Result (R r)) → Plain (k x)
  Plain (race r k r' k') = ((x : Result (R r)) → Plain (k x)) × ((x : Result (R r')) → Plain (k' x))
  Plain (spawn p q) = ⊥

  pub Plain-only_if : (b : Bool) (p : Prog S Req R) → Plain p → Plain (only_if b p)
  Plain-only_if true p h = h
  Plain-only_if false p h = tt

  Plain-if : (b : Bool) (p : Prog S Req R) → Plain p → Plain (if b then p else done)
  Plain-if true p h = h
  Plain-if false p h = tt

  pub Plain-with_token :
      (o : Option String) (f : String → Prog S Req R)
      → ((t : String) → Plain (f t))
      → Plain (with_token o f)
  Plain-with_token none f h = tt
  Plain-with_token (some t) f h = Plain-if (truthy t) (f t) (h t)

  pub Plain-then_do : (p q : Prog S Req R) → Plain p → Plain q → Plain (then_do p q)
  Plain-then_do done q h k = k
  Plain-then_do (act f p) q h k = Plain-then_do p q h k
  Plain-then_do (call r c) q h k = λ x. Plain-then_do (c x) q (h x) k
  Plain-then_do (race r c r' c') q h k =
      (λ x. Plain-then_do (c x) q (h.0 x) k, λ x. Plain-then_do (c' x) q (h.1 x) k)
  Plain-then_do (spawn p p') q h k = elim h [ ]

  module _ (reply : (r : Req) → Result (R r)) where
    module _ (Q : S → Type 0) where
      pub exec-Restores :
          (p : Prog S Req R) (s : S) → Plain p → Restores Q p s → Q (exec reply p s).0
      exec-Restores done s h k = k
      exec-Restores (act f p) s h k = exec-Restores p (f s) h k
      exec-Restores (call r c) s h k = exec-Restores (c (reply r)) s (h (reply r)) (k (reply r) s)
      exec-Restores (race r c r' c') s h k =
          exec-Restores (c (reply r)) s (h.0 (reply r)) (k.0 (reply r) s)
      exec-Restores (spawn p q) s h k = elim h [ ]

      -- A handler that keeps a condition ends with it, if it began with it.
      pub exec-Keeps :
          (P : Type 0) (p : Prog S Req R) (s : S)
          → Plain p
          → Keeps Q P p s
          → P
          → Q (exec reply p s).0
      exec-Keeps P done s h k i = k i
      exec-Keeps P (act f p) s h k i = exec-Keeps P p (f s) h k i
      exec-Keeps P (call r c) s h (inl k) i =
          exec-Keeps (Q s) (c (reply r)) s (h (reply r)) (k.1 (reply r) s) (k.0 i)
      exec-Keeps P (call r c) s h (inr k) i =
          exec-Restores (c (reply r)) s (h (reply r)) (k (reply r) s)
      exec-Keeps P (race r c r' c') s h (inl k) i =
          exec-Keeps (Q s) (c (reply r)) s (h.0 (reply r)) (k.1 (reply r) s) (k.0 i)
      exec-Keeps P (race r c r' c') s h (inr k) i =
          exec-Restores (c (reply r)) s (h.0 (reply r)) (k.0 (reply r) s)
      exec-Keeps P (spawn p q) s h k i = elim h [ ]

    -- The calls that a handler makes are at most those that its program has on every path.
    pub length-exec :
        (n : ℕ) (p : Prog S Req R) (s : S) → Plain p → Within n p → length (exec reply p s).1 ≤ n
    length-exec n done s h k = omega arith
    length-exec n (act f p) s h k = length-exec n p (f s) h k
    length-exec zero (call r c) s h k = elim k [ ]
    length-exec (suc n) (call r c) s h k =
        let rest = length-exec n (c (reply r)) s (h (reply r)) (k (reply r)) in omega arith
    length-exec zero (race r c r' c') s h k = elim k [ ]
    length-exec (suc n) (race r c r' c') s h k =
        let rest = length-exec n (c (reply r)) s (h.0 (reply r)) (k.0 (reply r)) in omega arith
    length-exec n (spawn p q) s h k = elim h [ ]

-- The time that calls take one after the other.
abbrev pub elapsed : {Req : Type 0} → (Req → ℕ) → List Req → ℕ
elapsed took [] = 0
elapsed took (r ∷ rs) = took r + elapsed took rs

pub elapsed-le :
    {Req : Type 0} (took : Req → ℕ) (n b : ℕ) (rs : List Req)
    → ((r : Req) → took r ≤ b)
    → length rs ≤ n
    → elapsed took rs ≤ n * b
elapsed-le took n b [] h k = omega arith
elapsed-le took zero b (r ∷ rs) h k = absurd (omega arith)
elapsed-le took (suc n) b (r ∷ rs) h k =
    let rest = elapsed-le took n b rs h (omega arith) in let one = h r in grind arith
