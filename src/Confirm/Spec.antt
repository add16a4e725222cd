-- ===== src/Confirm/Spec.antt =====
-- frontend/lib/useConfirm.ts:
-- What the hook promises, and that its timer keeps the promise.
use blackbox_agent_accountab.Prelude.{
  ℕ, ◌+◌, ◌<◌, ◌≡◌, refl, String, Option, none, some, List, [], ◌∷◌, arith, ltb, if◌then◌else◌,
}
use blackbox_agent_accountab.Confirm.{Confirm, fresh, Happens, shows, passes, step, history}

-- The last message that was shown, and how long ago: what a user of the hook knows.
abbrev Last : Type 0
Last = Option (String × ℕ)

abbrev pub heard : Happens → Last → Last
heard (shows m) o = some (m, 0)
heard (passes d) none = none
heard (passes d) (some (m, age)) = some (m, age + d)

abbrev pub last : List Happens → Last → Last
last [] o = o
last (h ∷ hs) o = last hs (heard h o)

-- The promise: the last message is there for the delay, from when it was shown.
abbrev pub promised : ℕ → Last → Option String
promised ms none = none
promised ms (some (m, age)) = if ltb age ms then some m else none

-- The state of the hook is that of the promise.
abbrev Fits : ℕ → Last → Option String → Option ℕ → ℕ → Type 0
Fits ms o none none now = promised ms o ≡ none
Fits ms (some (m, age)) (some m') (some t) now = (m' ≡ m) × (age < ms) × (t + age ≡ now + ms)
Fits ms _ _ _ now = ⊥

step-Fits :
    (ms : ℕ) (h : Happens) (o : Last) (c : Confirm)
    → 0 < ms
    → Fits ms o c.message c.timer c.now
    → let c' = step ms h c in Fits ms (heard h o) c'.message c'.timer c'.now
unfolding step
step-Fits ms (shows m) o c p f = ground arith
step-Fits ms (passes d) none c p f = ground arith
step-Fits ms (passes d) (some (m, age)) c p f = ground arith

history-Fits :
    (ms : ℕ) (hs : List Happens) (o : Last) (c : Confirm)
    → 0 < ms
    → Fits ms o c.message c.timer c.now
    → let c' = history ms hs c in Fits ms (last hs o) c'.message c'.timer c'.now
unfolding history
history-Fits ms [] o c p f = f
history-Fits ms (h ∷ hs) o c p f =
    history-Fits ms hs (heard h o) (step ms h c) p (step-Fits ms h o c p f)

Fits-promised :
    (ms : ℕ) (o : Last) (message : Option String) (timer : Option ℕ) (now : ℕ)
    → Fits ms o message timer now
    → message ≡ promised ms o
Fits-promised ms o none none now f = ground arith
Fits-promised ms (some (m, age)) (some m') (some t) now f = ground arith
Fits-promised ms none (some m') (some t) now f = elim f [ ]
Fits-promised ms none none (some t) now f = elim f [ ]
Fits-promised ms (some _) none (some t) now f = elim f [ ]
Fits-promised ms none (some m') none now f = elim f [ ]
Fits-promised ms (some _) (some m') none now f = elim f [ ]

-- However a hook with a positive delay is used, and in whatever steps the time passes: the message
-- is the last one that was shown, if that was less than the delay ago, and else none.
pub history_refines :
    (ms t : ℕ) (hs : List Happens)
    → 0 < ms
    → (history ms hs (fresh t)).message ≡ promised ms (last hs none)
history_refines ms t hs p =
    let c = history ms hs (fresh t) in
    Fits-promised ms (last hs none) c.message c.timer c.now
      (history-Fits ms hs none (fresh t) p refl)
