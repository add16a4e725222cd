-- ===== src/Runtime/Invariant.antt =====
-- Conditions on the state that hold after every step, also where handlers close over it.
--
-- The first segment of a handler runs on the very state that it closes over; each later one, on
-- whatever state there is then.
use blackbox_agent_accountab.Prelude.{
  sym, subst, inl, inr, Bool, true, false, [], Result, All, All-append, All-middle,
}
use blackbox_agent_accountab.Runtime.{
  Prog, done, act, call, race, spawn, only_if, advance, Settles, World, Step, event, settle, Reach,
  here, next,
}
use blackbox_agent_accountab.Runtime.Frame.{Frames, advance-Frames}

module _ {S Req : Type 0} {R : Req → Type 0} (Q : S → Type 0) where
  -- The first segment, begun in `s`, ends with the condition, and what follows keeps it.
  abbrev pub Begins : Prog S Req R → S → Type 0
  Begins done s = Q s
  Begins (act f p) s = Begins p (f s)
  Begins (call r k) s = Q s × ((x : Result (R r)) → Frames Q (k x))
  Begins (race r k r' k') s =
      Q s × ((x : Result (R r)) → Frames Q (k x)) × ((x : Result (R r')) → Frames Q (k' x))
  Begins (spawn p q) s = Q s × Frames Q p × Frames Q q

  pub Frames-Begins : (p : Prog S Req R) (s : S) → Frames Q p → Q s → Begins p s
  Frames-Begins done s h q = q
  Frames-Begins (act f p) s h q = Frames-Begins p (f s) h.1 (h.0 s q)
  Frames-Begins (call r k) s h q = (q, h)
  Frames-Begins (race r k r' k') s h q = (q, h.0, h.1)
  Frames-Begins (spawn p p') s h q = (q, h.0, h.1)

  pub Begins-only_if :
      (b : Bool) (p : Prog S Req R) (s : S) → Q s → Begins p s → Begins (only_if b p) s
  Begins-only_if true p s q h = h
  Begins-only_if false p s q h = q

  advance-Begins : (p : Prog S Req R) (s : S) → Begins p s → Q (advance p s).0
  advance-Begins done s h = h
  advance-Begins (act f p) s h = advance-Begins p (f s) h
  advance-Begins (call r k) s h = h.0
  advance-Begins (race r k r' k') s h = h.0
  advance-Begins (spawn p q) s h =
      advance-Frames Q q (advance p s).0 h.2 (advance-Frames Q p s h.1 h.0)

  tasks-Frames : (p : Prog S Req R) (s : S) → Frames Q p → All (Frames Q) (advance p s).1
  tasks-Frames done s h = tt
  tasks-Frames (act f p) s h = tasks-Frames p (f s) h.1
  tasks-Frames (call r k) s h = (h, tt)
  tasks-Frames (race r k r' k') s h = (h, tt)
  tasks-Frames (spawn p q) s h =
      All-append (Frames Q) _ _ (tasks-Frames p s h.0) (tasks-Frames q (advance p s).0 h.1)

  tasks-Begins : (p : Prog S Req R) (s : S) → Begins p s → All (Frames Q) (advance p s).1
  tasks-Begins done s h = tt
  tasks-Begins (act f p) s h = tasks-Begins p (f s) h
  tasks-Begins (call r k) s h = (h.1, tt)
  tasks-Begins (race r k r' k') s h = ((h.1, h.2), tt)
  tasks-Begins (spawn p q) s h =
      All-append (Frames Q) _ _ (tasks-Frames p s h.1) (tasks-Frames q (advance p s).0 h.2)

  Settles-Frames : (t p : Prog S Req R) → Frames Q t → Settles t p → Frames Q p
  Settles-Frames (call r k) p h (x, e) = subst (Frames Q) (sym e) (h x)
  Settles-Frames (race r k r' k') p h (inl (x, e)) = subst (Frames Q) (sym e) (h.0 x)
  Settles-Frames (race r k r' k') p h (inr (x, e)) = subst (Frames Q) (sym e) (h.1 x)
  Settles-Frames _ p h e = elim e [ ]

  module _ {A : Type 0} (handle : A → S → Prog S Req R)
      (begins : (a : A) (s : S) → Q s → Begins (handle a s) s) where
    abbrev Sound : World S Req R → Type 0
    Sound w = Q w.state × All (Frames Q) w.tasks

    Step-Sound : {w v : World S Req R} → Step handle w v → Sound w → Sound v
    Step-Sound {w} (event a) (q, h) =
        let b = begins a w.state q in
        (
          advance-Begins (handle a w.state) w.state b,
          All-append (Frames Q) _ _ h (tasks-Begins (handle a w.state) w.state b),
        )
    Step-Sound {w} (settle ts us t p e m) (q, h) =
        let (now, rest) = All-middle (Frames Q) ts t us (subst (All (Frames Q)) e h) in
        let k = Settles-Frames t p now m in
        (advance-Frames Q p w.state k q, All-append (Frames Q) _ _ rest (tasks-Frames p w.state k))

    Reach-Sound : {w v : World S Req R} → Reach handle w v → Sound w → Sound v
    Reach-Sound here h = h
    Reach-Sound (next r st) h = Step-Sound st (Reach-Sound r h)

    -- From a state with the condition and no call waiting, every state that is reached has it.
    pub always :
        {s : S} {w : World S Req R}
        → Q s
        → Reach handle (record { state = s; tasks = [] }) w
        → Q w.state
    always q r = (Reach-Sound r (q, tt)).0
