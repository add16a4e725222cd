-- ===== src/View.antt =====
-- What a page renders, without its layout and style: the texts, and the controls with what they do.
use blackbox_agent_accountab.Prelude.{
  String, Bool, true, false, ◌≡◌, List, [], ◌∷◌, ◌++◌, is_empty, if◌then◌else◌, All, All-append,
  refl,
}
use blackbox_agent_accountab.Runtime.{Prog, advance}

-- `A` is the type of the page's events.
pub data Node (A : Type 0) : Type 0 where
  text : String → Node A
  -- the label, `disabled` and `onClick`
  button : String → Bool → A → Node A
  -- the text of a list's item with an `onClick`
  item : String → A → Node A
  -- the placeholder or label, the value and `onChange`
  input : String → String → (String → A) → Node A
  -- the label, the value, the values to choose from, `disabled` and `onChange`
  select : String → String → List String → Bool → (String → A) → Node A

-- A component in another page, whose events are among those of the page by `f`.
abbrev pub embed : {A B : Type 0} → (A → B) → Node A → Node B
embed f (text s) = text s
embed f (button label disabled a) = button label disabled (f a)
embed f (item s a) = item s (f a)
embed f (input label value g) = input label value (λ x. f (g x))
embed f (select label value values disabled g) = select label value values disabled (λ x. f (g x))

abbrev pub embed_all : {A B : Type 0} → (A → B) → List (Node A) → List (Node B)
embed_all f [] = []
embed_all f (n ∷ ns) = embed f n ∷ embed_all f ns

-- `{test && …}`
abbrev pub when : {A : Type 0} → Bool → List (Node A) → List (Node A)
when true ns = ns
when false ns = []

-- `{items.map(item => …)}`
abbrev pub each : {A B : Type 0} → List B → (B → List (Node A)) → List (Node A)
each [] f = []
each (x ∷ xs) f = f x ++ each xs f

module _ {A S Req : Type 0} {R : Req → Type 0} (handle : A → S → Prog S Req R) (s : S) where
  -- A click on the button, if it is enabled, makes a call.
  abbrev pub Calls : Node A → Type 0
  Calls (button label false a) = is_empty (advance (handle a s) s).1 ≡ false
  Calls _ = Unit

module _ {A : Type 0} (P : Node A → Type 0) where
  pub All-when : (b : Bool) (ns : List (Node A)) → (b ≡ true → All P ns) → All P (when b ns)
  All-when true ns h = h refl
  All-when false ns h = tt

  pub All-if :
      (b : Bool) (ms ns : List (Node A))
      → (b ≡ true → All P ms)
      → (b ≡ false → All P ns)
      → All P (if b then ms else ns)
  All-if true ms ns h k = h refl
  All-if false ms ns h k = k refl

  pub All-each :
      {B : Type 0} (xs : List B) (f : B → List (Node A))
      → ((x : B) → All P (f x))
      → All P (each xs f)
  All-each [] f h = tt
  All-each (x ∷ xs) f h = All-append P (f x) (each xs f) (h x) (All-each xs f h)

pub All-embed_all :
    {A B : Type 0} (P : Node A → Type 0) (Q : Node B → Type 0) (f : A → B)
    → ((n : Node A) → P n → Q (embed f n))
    → (ns : List (Node A)) → All P ns
    → All Q (embed_all f ns)
All-embed_all P Q f h [] k = tt
All-embed_all P Q f h (n ∷ ns) (k, ks) = (h n k, All-embed_all P Q f h ns ks)
