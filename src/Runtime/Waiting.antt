-- ===== src/Runtime/Waiting.antt =====
-- What waiting calls owe to such a condition, over every interleaving.
use blackbox_agent_accountab.Prelude.{
  ◌≡◌, ◌⊎◌, inl, inr, List, [], ◌∷◌, ◌++◌, Result, All, Any, All-append, Any-append_left,
  Any-append_right, Any-middle, All-middle, subst, sym,
}
use blackbox_agent_accountab.Runtime.{
  Prog, done, act, call, race, spawn, advance, Settles, World, run, Step, event, settle, Reach,
  here, next,
}
use blackbox_agent_accountab.Runtime.Quiet.{Keeps, Restores}

module _ {S Req : Type 0} {R : Req → Type 0} (Q : S → Type 0) where
  -- A waiting call after which the condition is restored.
  abbrev pub Owes : Prog S Req R → Type 0
  Owes (call r k) = (x : Result (R r)) (t : S) → Restores Q (k x) t
  Owes (race r k r' k') =
      ((x : Result (R r)) (t : S) → Restores Q (k x) t)
      × ((x : Result (R r')) (t : S) → Restores Q (k' x) t)
  Owes _ = ⊥

  abbrev Mild : Prog S Req R → Type 0
  Mild t = (p : Prog S Req R) → Settles t p → (s : S) → Keeps Q (Q s) p s

  abbrev Good : Prog S Req R → Type 0
  Good t = Owes t ⊎ Mild t

  -- What holds after a segment: the condition does, or a waiting call owes it.
  abbrev Holds : S → List (Prog S Req R) → Type 0
  Holds s ts = Q s ⊎ Any Owes ts

  Owes-Restores : (t p : Prog S Req R) → Owes t → Settles t p → (s : S) → Restores Q p s
  Owes-Restores (call r k) p o (x, e) s = subst (λ q. Restores Q q s) (sym e) (o x s)
  Owes-Restores (race r k r' k') p o (inl (x, e)) s = subst (λ q. Restores Q q s) (sym e) (o.0 x s)
  Owes-Restores (race r k r' k') p o (inr (x, e)) s = subst (λ q. Restores Q q s) (sym e) (o.1 x s)
  Owes-Restores _ p o e s = elim o [ ]

  Mild-call :
      (r : Req) (k : Result (R r) → Prog S Req R)
      → ((x : Result (R r)) (t : S) → Keeps Q (Q t) (k x) t)
      → Mild (call r k)
  Mild-call r k h p (x, e) s = subst (λ q. Keeps Q (Q s) q s) (sym e) (h x s)

  Mild-race :
      (r : Req) (k : Result (R r) → Prog S Req R) (r' : Req) (k' : Result (R r') → Prog S Req R)
      → ((x : Result (R r)) (t : S) → Keeps Q (Q t) (k x) t)
      → ((x : Result (R r')) (t : S) → Keeps Q (Q t) (k' x) t)
      → Mild (race r k r' k')
  Mild-race r k r' k' h h' p (inl (x, e)) s = subst (λ q. Keeps Q (Q s) q s) (sym e) (h x s)
  Mild-race r k r' k' h h' p (inr (x, e)) s = subst (λ q. Keeps Q (Q s) q s) (sym e) (h' x s)

  Keeps-Good : (P : Type 0) (p : Prog S Req R) (s : S) → Keeps Q P p s → All Good (advance p s).1
  Keeps-Good P done s h = tt
  Keeps-Good P (act f p) s h = Keeps-Good P p (f s) h
  Keeps-Good P (call r k) s (inl h) = (inr (Mild-call r k h.1), tt)
  Keeps-Good P (call r k) s (inr h) = (inl h, tt)
  Keeps-Good P (race r k r' k') s (inl h) = (inr (Mild-race r k r' k' h.1 h.2), tt)
  Keeps-Good P (race r k r' k') s (inr h) = (inl h, tt)
  Keeps-Good P (spawn p q) s h =
      All-append Good _ _ (Keeps-Good ⊥ p s h.0) (Keeps-Good P q (advance p s).0 h.1)

  Keeps-Holds :
      (P : Type 0) (p : Prog S Req R) (s : S)
      → Keeps Q P p s
      → P
      → Holds (advance p s).0 (advance p s).1
  Keeps-Holds P done s h x = inl (h x)
  Keeps-Holds P (act f p) s h x = Keeps-Holds P p (f s) h x
  Keeps-Holds P (call r k) s (inl h) x = inl (h.0 x)
  Keeps-Holds P (call r k) s (inr h) x = inr (inl h)
  Keeps-Holds P (race r k r' k') s (inl h) x = inl (h.0 x)
  Keeps-Holds P (race r k r' k') s (inr h) x = inr (inl h)
  Keeps-Holds P (spawn p q) s h x = elim (Keeps-Holds P q (advance p s).0 h.1 x) [
    | inl here_now ↦ inl here_now
    | inr owed ↦ inr (Any-append_right Owes _ _ owed)
  ]

  Restores-Good : (p : Prog S Req R) (s : S) → Restores Q p s → All Good (advance p s).1
  Restores-Good done s h = tt
  Restores-Good (act f p) s h = Restores-Good p (f s) h
  Restores-Good (call r k) s h = (inl h, tt)
  Restores-Good (race r k r' k') s h = (inl h, tt)
  Restores-Good (spawn p q) s h =
      All-append Good _ _ (Keeps-Good ⊥ p s h.0) (Restores-Good q (advance p s).0 h.1)

  Restores-Holds :
      (p : Prog S Req R) (s : S) → Restores Q p s → Holds (advance p s).0 (advance p s).1
  Restores-Holds done s h = inl h
  Restores-Holds (act f p) s h = Restores-Holds p (f s) h
  Restores-Holds (call r k) s h = inr (inl h)
  Restores-Holds (race r k r' k') s h = inr (inl h)
  Restores-Holds (spawn p q) s h = elim (Restores-Holds q (advance p s).0 h.1) [
    | inl here_now ↦ inl here_now
    | inr owed ↦ inr (Any-append_right Owes _ _ owed)
  ]

  abbrev Inv : World S Req R → Type 0
  Inv w = All Good w.tasks × Holds w.state w.tasks

  -- The segment of a program keeps the invariant beside the other waiting calls.
  run-Keeps-Inv :
      (p : Prog S Req R) (s : S) (ts : List (Prog S Req R))
      → Keeps Q (Q s) p s
      → All Good ts
      → Holds s ts
      → Inv (run p s ts)
  run-Keeps-Inv p s ts k g h = (
    All-append Good _ _ g (Keeps-Good (Q s) p s k),
    elim h [
      | inl q ↦ elim (Keeps-Holds (Q s) p s k q) [
        | inl q' ↦ inl q'
        | inr owed ↦ inr (Any-append_right Owes ts _ owed)
      ]
      | inr owed ↦ inr (Any-append_left Owes ts _ owed)
    ],
  )

  run-Restores-Inv :
      (p : Prog S Req R) (s : S) (ts : List (Prog S Req R))
      → Restores Q p s
      → All Good ts
      → Inv (run p s ts)
  run-Restores-Inv p s ts r g = (
    All-append Good _ _ g (Restores-Good p s r),
    elim (Restores-Holds p s r) [
      | inl q ↦ inl q
      | inr owed ↦ inr (Any-append_right Owes ts _ owed)
    ],
  )

  settle-Inv :
      (s : S) (ts us : List (Prog S Req R)) (t p : Prog S Req R)
      → All Good (ts ++ t ∷ us)
      → Holds s (ts ++ t ∷ us)
      → Settles t p
      → Inv (run p s (ts ++ us))
  settle-Inv s ts us t p g h e =
      let (good, rest) = All-middle Good ts t us g in
      elim good [
        | inl owes ↦ run-Restores-Inv p s (ts ++ us) (Owes-Restores t p owes e s) rest
        | inr mild ↦ elim h [
          | inl q ↦ run-Keeps-Inv p s (ts ++ us) (mild p e s) rest (inl q)
          | inr owed ↦ elim (Any-middle Owes ts t us owed) [
            | inl owes ↦ run-Restores-Inv p s (ts ++ us) (Owes-Restores t p owes e s) rest
            | inr others ↦ run-Keeps-Inv p s (ts ++ us) (mild p e s) rest (inr others)
          ]
        ]
      ]

  module _ {A : Type 0} (handle : A → S → Prog S Req R)
      (keeps : (a : A) (s : S) → Keeps Q (Q s) (handle a s) s) where
    Step-Inv : {w v : World S Req R} → Step handle w v → Inv w → Inv v
    Step-Inv {w} (event a) i =
        run-Keeps-Inv (handle a w.state) w.state w.tasks (keeps a w.state) i.0 i.1
    Step-Inv {w} (settle ts us t p e m) i =
        settle-Inv w.state ts us t p (subst (All Good) e i.0) (subst (Holds w.state) e i.1) m

    Reach-Inv : {w v : World S Req R} → Inv w → Reach handle w v → Inv v
    Reach-Inv i here = i
    Reach-Inv i (next r st) = Step-Inv st (Reach-Inv i r)

    -- From a state with the condition and no call waiting, every state with no call waiting that
    -- is reached has the condition.
    pub quiet :
        {s : S} {w : World S Req R}
        → Q s
        → Reach handle (record { state = s; tasks = [] }) w
        → w.tasks ≡ []
        → Q w.state
    quiet {w} q r e = elim (Reach-Inv (tt, inl q) r).1 [
      | inl q' ↦ q'
      | inr owed ↦ absurd (subst (Any Owes) e owed)
    ]
