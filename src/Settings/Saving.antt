-- ===== src/Settings/Saving.antt =====
-- frontend/app/app/settings/page.tsx:
-- What saving a rule or the framework does, alone.
use Prim.Native.Char.{Char, code}
use Prim.Native.String.{String}
use blackbox_agent_accountab.Prelude.{
  ◌≡◌, refl, ℕ, Bool, true, false, not, none, some, List, [], ◌∷◌, Result, ok, All, truthy, arith,
  ◌==◌, Bool-cases, inl, inr,
}
use blackbox_agent_accountab.Js.{
  split_commas, trim, trim_start, trim_end, cons_first, cons_trimmed, is_space, to_string, includes,
}
use blackbox_agent_accountab.Js.Encoding.{AllCodes}
use blackbox_agent_accountab.Api.{api_error}
use blackbox_agent_accountab.Api.Messages.{includes-api_error}
use blackbox_agent_accountab.Runtime.Sequential.{exec}
use blackbox_agent_accountab.Settings.{
  PolicyRule, Page, Req, Reply, put_rule, get_rules, put_framework, get_framework,
}
use blackbox_agent_accountab.Settings.Rules.{clean, keywords_of, add_rule}
use blackbox_agent_accountab.Settings.Framework.{change_framework}

abbrev pub no_comma : ℕ → Bool
no_comma c = not (c == b',')

-- A keyword that the page sends: not empty and with no comma in it.
abbrev pub IsKeyword : String → Type 0
IsKeyword k = (truthy k ≡ true) × AllCodes no_comma k

cons_first-clean :
    (c : Char) (ss : List String)
    → no_comma (code c) ≡ true
    → All (AllCodes no_comma) ss
    → All (AllCodes no_comma) (cons_first c ss)
cons_first-clean c [] h k = ((h, tt), tt)
cons_first-clean c (s ∷ ss) h (k, ks) = ((h, k), ks)

split_commas-clean : (s : String) → All (AllCodes no_comma) (split_commas s)
unfolding split_commas
split_commas-clean String.[] = (tt, tt)
split_commas-clean (String.◌∷◌ c s) = elim (Bool-cases (code c == b',')) [
  | inl comma ↦ rw comma (tt, split_commas-clean s)
  | inr other ↦ rw other (cons_first-clean c (split_commas s) (ground arith) (split_commas-clean s))
]

trim_start-AllCodes : (p : ℕ → Bool) (s : String) → AllCodes p s → AllCodes p (trim_start s)
trim_start-AllCodes p String.[] h = tt
trim_start-AllCodes p (String.◌∷◌ c s) h = elim (Bool-cases (is_space (code c))) [
  | inl space ↦ rw space (trim_start-AllCodes p s h.1)
  | inr other ↦ rw other h
]

cons_trimmed-AllCodes :
    (p : ℕ → Bool) (c : Char) (s : String)
    → p (code c) ≡ true
    → AllCodes p s
    → AllCodes p (cons_trimmed c s)
cons_trimmed-AllCodes p c String.[] h k = elim (Bool-cases (is_space (code c))) [
  | inl space ↦ rw space tt
  | inr other ↦ rw other (h, tt)
]
cons_trimmed-AllCodes p c (String.◌∷◌ d s) h k = (h, k)

trim_end-AllCodes : (p : ℕ → Bool) (s : String) → AllCodes p s → AllCodes p (trim_end s)
trim_end-AllCodes p String.[] h = tt
trim_end-AllCodes p (String.◌∷◌ c s) (h, k) =
    cons_trimmed-AllCodes p c (trim_end s) h (trim_end-AllCodes p s k)

trim-AllCodes : (p : ℕ → Bool) (s : String) → AllCodes p s → AllCodes p (trim s)
unfolding trim
trim-AllCodes p s h = trim_end-AllCodes p (trim_start s) (trim_start-AllCodes p s h)

clean-IsKeyword : (ks : List String) → All (AllCodes no_comma) ks → All IsKeyword (clean ks)
clean-IsKeyword [] h = tt
clean-IsKeyword (k ∷ ks) (h, hs) = elim (Bool-cases (truthy (trim k))) [
  | inl full ↦ rw full ((full, trim-AllCodes no_comma k h), clean-IsKeyword ks hs)
  | inr empty ↦ rw empty (clean-IsKeyword ks hs)
]

-- Every keyword that is read from the field is nonempty and has no comma in it.
pub keywords_of-IsKeyword : (s : String) → All IsKeyword (keywords_of s)
unfolding keywords_of
keywords_of-IsKeyword s = clean-IsKeyword (split_commas s) (split_commas-clean s)

module _ (reply : (r : Req) → Result (Reply r)) (s : Page) (t : String) (signed : s.token ≡ some t)
    (present_token : truthy t ≡ true) where
  -- With a session, an id and a description: if the server saves the rule and lists the rules,
  -- `add_rule` alone shows the list and the confirmation, empties the form and clears the error and
  -- the busy flag; it has sent what the form held and then asked for the rules.
  pub add_rule_lem :
      {rs : List PolicyRule}
      → truthy s.rule_id ≡ true
      → truthy s.rule_desc ≡ true
      → reply (put_rule t s.rule_id s.rule_desc s.rule_severity (keywords_of s.rule_keywords))
        ≡ ok tt
      → reply (get_rules t) ≡ ok rs
      → let (u, calls) = exec reply (add_rule s) s in
        (u.rules ≡ rs)
        × (u.rule_id ≡ "")
        × (u.rule_desc ≡ "")
        × (u.rule_keywords ≡ "")
        × (u.rule_severity ≡ "medium")
        × (u.rule_err ≡ none)
        × (u.rule_busy ≡ false)
        × (u.confirm ≡ some "Rule saved")
        × (calls
            ≡ put_rule t s.rule_id s.rule_desc s.rule_severity (keywords_of s.rule_keywords)
              ∷ get_rules t
              ∷ [])
  unfolding add_rule
  add_rule_lem a b p q = ground arith

  -- With a session, an id and a description: if the server answers 402, whatever the text of the
  -- response, `add_rule` alone says that rules want a plan, keeps the id, the description, the
  -- keywords and the rules, clears the busy flag and makes no other call.
  pub add_rule_payment_required :
      (body : String)
      → truthy s.rule_id ≡ true
      → truthy s.rule_desc ≡ true
      → reply (put_rule t s.rule_id s.rule_desc s.rule_severity (keywords_of s.rule_keywords))
        ≡ Result.err (api_error 402 body)
      → let (u, calls) = exec reply (add_rule s) s in
        (u.rule_err ≡ some "Custom policy rules are a Pro plan feature.")
        × (u.rules ≡ s.rules)
        × (u.rule_id ≡ s.rule_id)
        × (u.rule_desc ≡ s.rule_desc)
        × (u.rule_keywords ≡ s.rule_keywords)
        × (u.rule_busy ≡ false)
        × (calls
            ≡ put_rule t s.rule_id s.rule_desc s.rule_severity (keywords_of s.rule_keywords) ∷ [])
  unfolding add_rule to_string includes
  add_rule_payment_required body a b p =
      let found = includes-api_error 402 body "402" refl in ground arith

  -- With a session: if the server accepts the framework, and then neither the framework nor the
  -- rules can be fetched, `change_framework` alone confirms the update; the page keeps the
  -- framework and the rules that it had, shows both errors, and is not busy.
  pub change_framework_confirms :
      {f e e' : String}
      → reply (put_framework t f) ≡ ok tt
      → reply (get_framework t) ≡ Result.err e
      → reply (get_rules t) ≡ Result.err e'
      → let u = (exec reply (change_framework f s) s).0 in
        (u.confirm ≡ some "Framework updated")
        × (u.framework_info ≡ s.framework_info)
        × (u.rules ≡ s.rules)
        × (u.framework_err ≡ some e)
        × (u.rule_err ≡ some e')
        × (u.framework_busy ≡ false)
  unfolding change_framework
  change_framework_confirms p q r = ground arith
