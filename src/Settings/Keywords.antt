-- ===== src/Settings/Keywords.antt =====
-- frontend/app/app/settings/page.tsx:
-- The keywords of a rule, written into the field and read from it.
use Prim.Native.String
use text.Mathlib.TextLemmas.{nil-append, cons-append}
use blackbox_agent_accountab.Prelude.{
  ◌≡◌, refl, ap, ◌∙◌, String, true, List, [], ◌∷◌, All, truthy, arith,
}
use blackbox_agent_accountab.Js.{split_commas, trim}
use blackbox_agent_accountab.Js.Encoding.{AllCodes}
use blackbox_agent_accountab.Settings.Rules.{clean, keywords_of}
use blackbox_agent_accountab.Settings.Saving.{no_comma}

-- A keyword without commas and without white space at its ends.
abbrev pub IsTidy : String → Type 0
IsTidy k = (truthy k ≡ true) × AllCodes no_comma k × (trim k ≡ k)

-- Keywords as a user types them, with commas between them.
abbrev pub typed : List String → String
typed [] = ""
typed (k ∷ []) = k
typed (k ∷ k' ∷ ks) = String.◌++◌ k (String.◌++◌ "," (typed (k' ∷ ks)))

split_commas-word : (k : String) → AllCodes no_comma k → split_commas k ≡ k ∷ []
unfolding split_commas
split_commas-word String.[] h = refl
split_commas-word (String.◌∷◌ c k) (h, hs) = ground (arith, split_commas-word k hs)

split_commas-append :
    (k s : String)
    → AllCodes no_comma k
    → split_commas (String.◌++◌ k (String.◌++◌ "," s)) ≡ k ∷ split_commas s
unfolding split_commas
split_commas-append String.[] s h =
    rw (nil-append (String.◌++◌ "," s), cons-append "," "" s, nil-append s) refl
split_commas-append (String.◌∷◌ c k) s (h, hs) =
    rw (cons-append c k (String.◌++◌ "," s)) (ground (arith, split_commas-append k s hs))

clean-cons : (k : String) (ks : List String) → IsTidy k → clean ks ≡ ks → clean (k ∷ ks) ≡ k ∷ ks
clean-cons k ks (full, _, tidy) h = ground arith

split_commas-typed :
    (k : String) (ks : List String) → All IsTidy (k ∷ ks) → split_commas (typed (k ∷ ks)) ≡ k ∷ ks
split_commas-typed k [] (h, hs) = split_commas-word k h.1
split_commas-typed k (k' ∷ ks) (h, hs) =
    split_commas-append k (typed (k' ∷ ks)) h.1 ∙ ap (λ r. k ∷ r) (split_commas-typed k' ks hs)

clean-tidy : (ks : List String) → All IsTidy ks → clean ks ≡ ks
clean-tidy [] h = refl
clean-tidy (k ∷ ks) (h, hs) = clean-cons k ks h (clean-tidy ks hs)

-- Keywords that are typed with commas between them are read back as they are, if each is nonempty,
-- has no comma in it and no white space at its ends.
pub keywords_of-typed : (ks : List String) → All IsTidy ks → keywords_of (typed ks) ≡ ks
unfolding keywords_of split_commas trim
keywords_of-typed [] h = refl
keywords_of-typed (k ∷ ks) h = ap clean (split_commas-typed k ks h) ∙ clean-tidy (k ∷ ks) h
