-- ===== src/Dashboard/Loyal.antt =====
-- Handlers whose calls carry good tokens, and which leave the token of the page to the hook.
use blackbox_agent_accountab.Prelude.{
  ◌≡◌, ◌⊎◌, refl, inl, inr, ◌∙◌, sym, subst, String, Bool, true, false, Option, none, some, Result,
  ok, err, if◌then◌else◌, truthy,
}
use blackbox_agent_accountab.Runtime.{
  Prog, done, act, call, race, spawn, with_token, only_if, then_do, await_both, await_all,
  on_result,
}
use blackbox_agent_accountab.Runtime.Sends.{Sends}
use blackbox_agent_accountab.Dashboard.{Holds, Steady, Hears, Guarded}

module _ {S Req : Type 0} {R : Req → Type 0} (token : S → Option String) (P : Req → Type 0) where
  -- Every call of the program satisfies `P`, and no update changes the token.
  abbrev pub Loyal : Prog S Req R → Type 0
  Loyal done = Unit
  Loyal (act f p) = ((s : S) → token (f s) ≡ token s) × Loyal p
  Loyal (call r k) = P r × ((x : Result (R r)) → Loyal (k x))
  Loyal (race r k r' k') =
      P r × P r' × ((x : Result (R r)) → Loyal (k x)) × ((x : Result (R r')) → Loyal (k' x))
  Loyal (spawn p q) = Loyal p × Loyal q

  pub Loyal-Sends : (p : Prog S Req R) → Loyal p → Sends P p
  Loyal-Sends done h = tt
  Loyal-Sends (act f p) h = Loyal-Sends p h.1
  Loyal-Sends (call r k) h = (h.0, λ x. Loyal-Sends (k x) (h.1 x))
  Loyal-Sends (race r k r' k') h =
      (h.0, h.1, λ x. Loyal-Sends (k x) (h.2 x), λ x. Loyal-Sends (k' x) (h.3 x))
  Loyal-Sends (spawn p q) h = (Loyal-Sends p h.0, Loyal-Sends q h.1)

  pub Loyal-Steady : (p : Prog S Req R) → Loyal p → Steady token p
  Loyal-Steady done h c = tt
  Loyal-Steady (act f p) h c = (λ s e. h.0 s ∙ e, Loyal-Steady p h.1 c)
  Loyal-Steady (call r k) h c = λ x. Loyal-Steady (k x) (h.1 x) c
  Loyal-Steady (race r k r' k') h c =
      (λ x. Loyal-Steady (k x) (h.2 x) c, λ x. Loyal-Steady (k' x) (h.3 x) c)
  Loyal-Steady (spawn p q) h c = (Loyal-Steady p h.0 c, Loyal-Steady q h.1 c)

  pub Loyal-only_if : (b : Bool) (p : Prog S Req R) → Loyal p → Loyal (only_if b p)
  Loyal-only_if true p h = h
  Loyal-only_if false p h = tt

  Loyal-if : (b : Bool) (p : Prog S Req R) → (b ≡ true → Loyal p) → Loyal (if b then p else done)
  Loyal-if true p h = h refl
  Loyal-if false p h = tt

  pub Loyal-with_token :
      (o : Option String) (f : String → Prog S Req R)
      → ((t : String) → o ≡ some t → truthy t ≡ true → Loyal (f t))
      → Loyal (with_token o f)
  Loyal-with_token none f h = tt
  Loyal-with_token (some t) f h = Loyal-if (truthy t) (f t) (h t refl)

  pub Loyal-then_do : (p q : Prog S Req R) → Loyal p → Loyal q → Loyal (then_do p q)
  Loyal-then_do done q h k = k
  Loyal-then_do (act f p) q h k = (h.0, Loyal-then_do p q h.1 k)
  Loyal-then_do (call r c) q h k = (h.0, λ x. Loyal-then_do (c x) q (h.1 x) k)
  Loyal-then_do (race r c r' c') q h k =
      (h.0, h.1, λ x. Loyal-then_do (c x) q (h.2 x) k, λ x. Loyal-then_do (c' x) q (h.3 x) k)
  Loyal-then_do (spawn p p') q h k = (h.0, Loyal-then_do p' q h.1 k)

  pub Loyal-await_both :
      (r : Req) (f : Result (R r) → S → S) (r' : Req) (f' : Result (R r') → S → S)
      (q : Prog S Req R)
      → P r
      → P r'
      → ((x : Result (R r)) (s : S) → token (f x s) ≡ token s)
      → ((x : Result (R r')) (s : S) → token (f' x s) ≡ token s)
      → Loyal q
      → Loyal (await_both r f r' f' q)
  Loyal-await_both r f r' f' q p p' h h' k =
      (p, p', λ x. (h x, (p', λ y. (h' y, k))), λ y. (h' y, (p, λ x. (h x, k))))

  Loyal-on_result :
      {A : Type 0} (f : A → Prog S Req R) (g : String → Prog S Req R)
      → ((a : A) → Loyal (f a))
      → ((e : String) → Loyal (g e))
      → (x : Result A) → Loyal (on_result f g x)
  Loyal-on_result f g h k (ok a) = h a
  Loyal-on_result f g h k (err e) = k e

  pub Loyal-await_all :
      (r r' : Req) (f : R r → R r' → Prog S Req R) (g : String → Prog S Req R)
      → P r
      → P r'
      → ((a : R r) (b : R r') → Loyal (f a b))
      → ((e : String) → Loyal (g e))
      → Loyal (await_all r r' f g)
  Loyal-await_all r r' f g p p' h k = (
    p,
    p',
    Loyal-on_result _ g (λ a. (p', Loyal-on_result _ g (λ b. h a b) k)) k,
    Loyal-on_result _ g (λ b. (p, Loyal-on_result _ g (λ a. h a b) k)) k,
  )

  -- The program is loyal, or it is once it has set the token to `o`.
  abbrev pub LoyalTo : Option String → Prog S Req R → Type 0
  LoyalTo o p =
      Loyal p
      ⊎ ((f : S → S) × (q : Prog S Req R) × (p ≡ act f q) × ((s : S) → token (f s) ≡ o) × Loyal q)

  pub LoyalTo-Sends : (o : Option String) (p : Prog S Req R) → LoyalTo o p → Sends P p
  LoyalTo-Sends o p (inl h) = Loyal-Sends p h
  LoyalTo-Sends o p (inr (f, q, e, sets, h)) = subst (Sends P) (sym e) (Loyal-Sends q h)

  pub LoyalTo-Hears :
      (o : Option String) (p : Prog S Req R) → LoyalTo o p → Steady token p ⊎ Hears token o p
  LoyalTo-Hears o p (inl h) = inl (Loyal-Steady p h)
  LoyalTo-Hears o p (inr (f, q, e, sets, h)) = inr (f, q, e, sets, Loyal-Steady q h)

pub any_token : (o : Option String) → Holds (λ _. Unit) o
any_token none = tt
any_token (some t) = λ _. tt

-- A page with such handlers.
abbrev pub guard :
    {A S Req : Type 0} {R : Req → Type 0} (handle : A → S → Prog S Req R)
    (token : S → Option String) (brings : A → Option String) (bearer : Req → String)
    → ((T : String → Type 0) (a : A) (s : S)
        → Holds T (brings a)
        → Holds T (token s)
        → LoyalTo token (λ q. T (bearer q)) (brings a) (handle a s))
    → Guarded A S Req R
guard handle token brings bearer loyal = record {
  handle = handle;
  token = token;
  brings = brings;
  bearer = bearer;
  sends = λ T a s b h. LoyalTo-Sends token _ (brings a) (handle a s) (loyal T a s b h);
  hears = λ a s.
      LoyalTo-Hears token (λ _. Unit) (brings a) (handle a s)
        (loyal (λ _. Unit) a s (any_token (brings a)) (any_token (token s)));
}
