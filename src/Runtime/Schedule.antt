-- ===== src/Runtime/Schedule.antt =====
-- An interleaving as an explicit sequence of moves, for given replies.
use blackbox_agent_accountab.Prelude.{
  ℕ, zero, suc, ◌≡◌, refl, ap, inl, Option, none, some, List, [], ◌∷◌, ◌++◌, Result,
}
use blackbox_agent_accountab.Runtime.{Prog, call, race, World, run, event, settle, Reach, next}

pub data Move (A : Type 0) : Type 0 where
  starts : A → Move A
  -- the waiting call with that position settles; of two calls that are out together, the first
  settles : ℕ → Move A

module _ {S Req : Type 0} {R : Req → Type 0} where
  abbrev push :
      Prog S Req R
      → Option (List (Prog S Req R) × Prog S Req R × List (Prog S Req R))
      → Option (List (Prog S Req R) × Prog S Req R × List (Prog S Req R))
  push t none = none
  push t (some (before, u, after)) = some (t ∷ before, u, after)

  abbrev split_at :
      ℕ → List (Prog S Req R) → Option (List (Prog S Req R) × Prog S Req R × List (Prog S Req R))
  split_at n [] = none
  split_at zero (t ∷ ts) = some ([], t, ts)
  split_at (suc n) (t ∷ ts) = push t (split_at n ts)

  -- What a position in the list shows of the list.
  abbrev Splits :
      List (Prog S Req R)
      → Option (List (Prog S Req R) × Prog S Req R × List (Prog S Req R))
      → Type 0
  Splits l none = Unit
  Splits l (some (ts, t, us)) = l ≡ ts ++ t ∷ us

  Splits-cons :
      (u : Prog S Req R) (l : List (Prog S Req R))
      (o : Option (List (Prog S Req R) × Prog S Req R × List (Prog S Req R)))
      → Splits l o
      → Splits (u ∷ l) (push u o)
  Splits-cons u l none h = tt
  Splits-cons u l (some (ts, t, us)) h = ap (λ r. u ∷ r) h

  split_at-Splits : (n : ℕ) (l : List (Prog S Req R)) → Splits l (split_at n l)
  split_at-Splits n [] = tt
  split_at-Splits zero (t ∷ ts) = refl
  split_at-Splits (suc n) (t ∷ ts) = Splits-cons t ts (split_at n ts) (split_at-Splits n ts)

  module _ {A : Type 0} (handle : A → S → Prog S Req R) (reply : (r : Req) → Result (R r)) where
    abbrev go_on : World S Req R → List (Prog S Req R) → Prog S Req R → World S Req R
    go_on w ts (call r k) = run (k (reply r)) w.state ts
    go_on w ts (race r k _ _) = run (k (reply r)) w.state ts
    go_on w ts _ = w

    abbrev settle_at :
        World S Req R
        → Option (List (Prog S Req R) × Prog S Req R × List (Prog S Req R))
        → World S Req R
    settle_at w none = w
    settle_at w (some (ts, t, us)) = go_on w (ts ++ us) t

    abbrev pub move : Move A → World S Req R → World S Req R
    move (starts a) w = run (handle a w.state) w.state w.tasks
    move (settles n) w = settle_at w (split_at n w.tasks)

    abbrev pub play : List (Move A) → World S Req R → World S Req R
    play [] w = w
    play (m ∷ ms) w = play ms (move m w)

    settle_at-Reach :
        {v : World S Req R} (w : World S Req R)
        (o : Option (List (Prog S Req R) × Prog S Req R × List (Prog S Req R)))
        → Splits w.tasks o
        → Reach handle v w
        → Reach handle v (settle_at w o)
    settle_at-Reach w none h r = r
    settle_at-Reach w (some (ts, call q k, us)) h r =
        next r (settle ts us (call q k) (k (reply q)) h (reply q, refl))
    settle_at-Reach w (some (ts, race q k q' k', us)) h r =
        next r (settle ts us (race q k q' k') (k (reply q)) h (inl (reply q, refl)))
    settle_at-Reach w (some (ts, _, us)) h r = r

    move-Reach :
        {v : World S Req R} (m : Move A) (w : World S Req R)
        → Reach handle v w
        → Reach handle v (move m w)
    move-Reach (starts a) w r = next r (event a)
    move-Reach (settles n) w r =
        settle_at-Reach w (split_at n w.tasks) (split_at-Splits n w.tasks) r

    -- What is played is reached.
    pub play-Reach :
        {v : World S Req R} (ms : List (Move A)) (w : World S Req R)
        → Reach handle v w
        → Reach handle v (play ms w)
    play-Reach [] w r = r
    play-Reach (m ∷ ms) w r = play-Reach ms (move m w) (move-Reach m w r)
