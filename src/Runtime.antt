-- ===== src/Runtime.antt =====
-- The asynchronous functions of the pages, and the loop that runs them.
--
-- A handler is a `Prog`: state updates up to the next `await`, and a continuation for every value
-- that the awaited call can settle with. It closes over the state of the render that made it, so
-- a page defines it as a function of that state. `Req` is the type of the calls that a page makes,
-- and `R r` the type that the source casts the reply of `r` to.
--
-- The JavaScript runtime runs one segment at a time; between two segments of a handler any other
-- handler may run. `Step` says so: an event starts a handler on the present state, or one waiting
-- call settles, in any order and with any value or error.
pub mod Quiet
pub mod Waiting
pub mod Bounded
pub mod Cause
pub mod Frame
pub mod Sends
pub mod Sequential
pub mod Alone
pub mod Invariant
pub mod Schedule
use blackbox_agent_accountab.Prelude.{
  ◌≡◌, ◌⊎◌, List, [], ◌∷◌, ◌++◌, Result, ok, err, Bool, true, false, String, Option, none, some,
  if◌then◌else◌, truthy,
}

pub data Prog (S : Type 0) (Req : Type 0) (R : Req → Type 0) : Type 0 where
  done : Prog S Req R
  -- `setX(…)`
  act : (S → S) → Prog S Req R → Prog S Req R
  -- `await` of a call, with what follows
  call : (r : Req) → (Result (R r) → Prog S Req R) → Prog S Req R
  -- two calls are out, and the one that settles first goes on
  race :
      (r : Req)
      → (Result (R r) → Prog S Req R)
      → (r' : Req) → (Result (R r') → Prog S Req R)
      → Prog S Req R
  -- an asynchronous function is called and not awaited
  spawn : Prog S Req R → Prog S Req R → Prog S Req R

module _ {S Req : Type 0} {R : Req → Type 0} where
  -- `if (!token) return;`, with what follows
  abbrev pub with_token : Option String → (String → Prog S Req R) → Prog S Req R
  with_token none f = done
  with_token (some t) f = if truthy t then f t else done

  -- `if (test) { p }`
  abbrev pub only_if : Bool → Prog S Req R → Prog S Req R
  only_if true p = p
  only_if false p = done

  -- `await f(); rest`, where `f` is an asynchronous function that never throws.
  abbrev pub then_do : Prog S Req R → Prog S Req R → Prog S Req R
  then_do done q = q
  then_do (act f p) q = act f (then_do p q)
  then_do (call r k) q = call r (λ x. then_do (k x) q)
  then_do (race r k r' k') q = race r (λ x. then_do (k x) q) r' (λ x. then_do (k' x) q)
  then_do (spawn p p') q = spawn p (then_do p' q)

  -- `await Promise.all([f(), g()]); rest`, where each function makes one call, then updates the state
  -- by what it settles with, and never throws.
  abbrev pub await_both :
      (r : Req)
      → (Result (R r) → S → S)
      → (r' : Req) → (Result (R r') → S → S)
      → Prog S Req R
      → Prog S Req R
  await_both r f r' f' q =
      race r (λ x. act (f x) (call r' (λ y. act (f' y) q))) r'
        (λ y. act (f' y) (call r (λ x. act (f x) q)))

  abbrev pub on_result :
      {A : Type 0} → (A → Prog S Req R) → (String → Prog S Req R) → Result A → Prog S Req R
  on_result f g (ok a) = f a
  on_result f g (err e) = g e

  -- `const [a, b] = await Promise.all([…, …]); rest`, with the `catch`: the first call that fails
  -- decides, and what the other one settles with is not looked at.
  abbrev pub await_all :
      (r : Req) → (r' : Req) → (R r → R r' → Prog S Req R) → (String → Prog S Req R) → Prog S Req R
  await_all r r' f g =
      race r (on_result (λ a. call r' (on_result (λ b. f a b) g)) g) r'
        (on_result (λ b. call r (on_result (λ a. f a b) g)) g)

  -- Runs a segment: the state at the next `await`s, and the calls that are then waiting.
  abbrev pub advance : Prog S Req R → S → S × List (Prog S Req R)
  advance done s = (s, [])
  advance (act f p) s = advance p (f s)
  advance (call r k) s = (s, call r k ∷ [])
  advance (race r k r' k') s = (s, race r k r' k' ∷ [])
  advance (spawn p q) s =
      let (s', ts) = advance p s in let (s'', us) = advance q s' in (s'', ts ++ us)

  -- What a waiting call can go on with.
  abbrev pub Settles : Prog S Req R → Prog S Req R → Type 0
  Settles (call r k) p = (x : Result (R r)) × (p ≡ k x)
  Settles (race r k r' k') p = ((x : Result (R r)) × (p ≡ k x)) ⊎ ((x : Result (R r')) × (p ≡ k' x))
  Settles _ p = ⊥

pub record World (S : Type 0) (Req : Type 0) (R : Req → Type 0) : Type 0 where
  pub state : S
  pub tasks : List (Prog S Req R)

module _ {S Req : Type 0} {R : Req → Type 0} where
  abbrev pub run : Prog S Req R → S → List (Prog S Req R) → World S Req R
  run p s ts = let (s', us) = advance p s in record { state = s'; tasks = ts ++ us }

  module _ {A : Type 0} (handle : A → S → Prog S Req R) where
    pub data Step (w : World S Req R) : World S Req R → Type 0 where
      event : (a : A) → Step w (run (handle a w.state) w.state w.tasks)
      settle :
          (ts us : List (Prog S Req R)) (t p : Prog S Req R)
          → w.tasks ≡ ts ++ t ∷ us
          → Settles t p
          → Step w (run p w.state (ts ++ us))

    pub data Reach (w : World S Req R) : World S Req R → Type 0 where
      here : Reach w w
      next : {u v : World S Req R} → Reach w u → Step u v → Reach w v
