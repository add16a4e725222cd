-- ===== src/Runtime/Cause.antt =====
-- What the replies must have been for a state to be reached.
use blackbox_agent_accountab.Prelude.{
  ◌⊎◌, inl, inr, sym, subst, String, Option, none, some, Bool, true, false, List, [], ◌++◌, Result,
  All, All-append, All-middle, if◌then◌else◌, truthy,
}
use blackbox_agent_accountab.Runtime.{
  Prog, done, act, call, race, spawn, with_token, only_if, then_do, advance, Settles, World, run,
  event, settle, Reach, here, next,
}

module _ {S Req : Type 0} {R : Req → Type 0} (P : (q : Req) → Result (R q) → Type 0) where
  -- The reply with which a waiting program goes on satisfies `P`.
  abbrev pub Replied : (t p : Prog S Req R) → Settles t p → Type 0
  Replied (call q k) p (x, e) = P q x
  Replied (race q k q' k') p (inl (x, e)) = P q x
  Replied (race q k q' k') p (inr (x, e)) = P q' x
  Replied _ p e = ⊥

  -- In the history some reply satisfied `P`.
  abbrev pub Happened :
      {A : Type 0} {handle : A → S → Prog S Req R} {w v : World S Req R} → Reach handle w v → Type 0
  Happened here = ⊥
  Happened (next r (event a)) = Happened r
  Happened (next r (settle ts us t p e m)) = Replied t p m ⊎ Happened r

  module _ (Q : S → Type 0) where
    -- The program keeps `Q`, unless a reply to it satisfies `P`.
    abbrev pub Awaits : Prog S Req R → Type 0
    Awaits done = Unit
    Awaits (act f p) = ((s : S) → Q s → Q (f s)) × Awaits p
    Awaits (call q k) = (x : Result (R q)) → P q x ⊎ Awaits (k x)
    Awaits (race q k q' k') =
        ((x : Result (R q)) → P q x ⊎ Awaits (k x)) × ((x : Result (R q')) → P q' x ⊎ Awaits (k' x))
    Awaits (spawn p q) = Awaits p × Awaits q

    pub Awaits-only_if : (b : Bool) (p : Prog S Req R) → Awaits p → Awaits (only_if b p)
    Awaits-only_if true p h = h
    Awaits-only_if false p h = tt

    pub Awaits-if : (b : Bool) (p : Prog S Req R) → Awaits p → Awaits (if b then p else done)
    Awaits-if true p h = h
    Awaits-if false p h = tt

    pub Awaits-with_token :
        (o : Option String) (f : String → Prog S Req R)
        → ((t : String) → Awaits (f t))
        → Awaits (with_token o f)
    Awaits-with_token none f h = tt
    Awaits-with_token (some t) f h = Awaits-if (truthy t) (f t) (h t)

    or_both : {A : Type 0} (B C : Type 0) → (B → C) → A ⊎ B → A ⊎ C
    or_both B C f (inl a) = inl a
    or_both B C f (inr b) = inr (f b)

    pub Awaits-then_do : (p q : Prog S Req R) → Awaits p → Awaits q → Awaits (then_do p q)
    Awaits-then_do done q h k = k
    Awaits-then_do (act f p) q h k = (h.0, Awaits-then_do p q h.1 k)
    Awaits-then_do (call r c) q h k = λ x.
        or_both (Awaits (c x)) (Awaits (then_do (c x) q)) (λ i. Awaits-then_do (c x) q i k) (h x)
    Awaits-then_do (race r c r' c') q h k = (
      λ x.
          or_both (Awaits (c x)) (Awaits (then_do (c x) q)) (λ i. Awaits-then_do (c x) q i k)
            (h.0 x),
      λ x.
          or_both (Awaits (c' x)) (Awaits (then_do (c' x) q)) (λ i. Awaits-then_do (c' x) q i k)
            (h.1 x),
    )
    Awaits-then_do (spawn p p') q h k = (h.0, Awaits-then_do p' q h.1 k)

    advance-Awaits :
        (p : Prog S Req R) (s : S) → Awaits p → Q s → Q (advance p s).0 × All Awaits (advance p s).1
    advance-Awaits done s h q = (q, tt)
    advance-Awaits (act f p) s h q = advance-Awaits p (f s) h.1 (h.0 s q)
    advance-Awaits (call r k) s h q = (q, (h, tt))
    advance-Awaits (race r k r' k') s h q = (q, (h, tt))
    advance-Awaits (spawn p p') s h q =
        let (q', a) = advance-Awaits p s h.0 q in
        let (q'', b) = advance-Awaits p' (advance p s).0 h.1 q' in (q'', All-append Awaits _ _ a b)

    pub Settles-Awaits :
        (t p : Prog S Req R) (m : Settles t p) → Awaits t → Replied t p m ⊎ Awaits p
    Settles-Awaits (call q k) p (x, e) h =
        or_both (Awaits (k x)) (Awaits p) (subst Awaits (sym e)) (h x)
    Settles-Awaits (race q k q' k') p (inl (x, e)) h =
        or_both (Awaits (k x)) (Awaits p) (subst Awaits (sym e)) (h.0 x)
    Settles-Awaits (race q k q' k') p (inr (x, e)) h =
        or_both (Awaits (k' x)) (Awaits p) (subst Awaits (sym e)) (h.1 x)
    Settles-Awaits done p e h = elim e [ ]
    Settles-Awaits (act _ _) p e h = elim e [ ]
    Settles-Awaits (spawn _ _) p e h = elim e [ ]

    abbrev pub Inv : World S Req R → Type 0
    Inv w = Q w.state × All Awaits w.tasks

    pub run-Inv :
        (p : Prog S Req R) (s : S) (ts : List (Prog S Req R))
        → Awaits p
        → Q s
        → All Awaits ts
        → Inv (run p s ts)
    run-Inv p s ts h q a = let (q', b) = advance-Awaits p s h q in (q', All-append Awaits ts _ a b)

    module _ {A : Type 0} (handle : A → S → Prog S Req R)
        (awaits : (a : A) (s : S) → Awaits (handle a s)) where
      Reach-Inv : {w v : World S Req R} → Inv w → (r : Reach handle w v) → Happened r ⊎ Inv v
      Reach-Inv i here = inr i
      Reach-Inv i (next {u} r (event a)) =
          or_both (Inv u) _
            (λ j. run-Inv (handle a u.state) u.state u.tasks (awaits a u.state) j.0 j.1)
            (Reach-Inv i r)
      Reach-Inv i (next {u} r (settle ts us t p e m)) = elim (Reach-Inv i r) [
        | inl h ↦ inl (inr h)
        | inr j ↦
            let (now, rest) = All-middle Awaits ts t us (subst (All Awaits) e j.1) in
            elim (Settles-Awaits t p m now) [
              | inl replied ↦ inl (inl replied)
              | inr goes_on ↦ inr (run-Inv p u.state (ts ++ us) goes_on j.0 rest)
            ]
      ]

      -- From a state with `Q` and no call waiting: where `Q` does not hold, some reply satisfied `P`.
      pub cause :
          {s : S} {w : World S Req R}
          → Q s
          → (r : Reach handle (record { state = s; tasks = [] }) w) → Happened r ⊎ Q w.state
      cause {w} q r = or_both (Inv w) (Q w.state) (λ i. i.0) (Reach-Inv (q, tt) r)
