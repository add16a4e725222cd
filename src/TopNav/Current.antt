-- ===== src/TopNav/Current.antt =====
-- frontend/components/TopNav.tsx:
-- Which links are marked as that of the present page.
use text.Mathlib.TextEquality.{eq_iff}
use blackbox_agent_accountab.Prelude.{
  ◌≤◌, ◌≡◌, refl, inl, inr, sym, subst, String, Bool, true, false, not, ◌&&◌, ◌||◌, List, [], ◌∷◌,
  length, all, arith, if◌then◌else◌, ◌===◌, Bool-cases,
}
use blackbox_agent_accountab.Js.{has_prefix}
use blackbox_agent_accountab.TopNav.{Link, links, active, keep_active, marked}

-- Of two prefixes of one text, one is a prefix of the other.
prefixes_nest :
    (a b s : String)
    → has_prefix a s ≡ true
    → has_prefix b s ≡ true
    → (has_prefix a b || has_prefix b a) ≡ true
prefixes_nest String.[] b s h k = refl
prefixes_nest (String.◌∷◌ c a) String.[] s h k = ground arith
prefixes_nest (String.◌∷◌ c a) (String.◌∷◌ d b) String.[] h k = cc
prefixes_nest (String.◌∷◌ c a) (String.◌∷◌ d b) (String.◌∷◌ e s) h k =
    ground (arith, prefixes_nest a b s)

-- No page is that of both links, the second of which is not the first page's.
abbrev apart : Link → Link → Bool
apart l l' =
    not (l'.href === "/app")
    && not (
        if l.href === "/app"
        then has_prefix l'.href "/app"
        else (has_prefix l.href l'.href || has_prefix l'.href l.href))

apart_lem :
    (pathname : String) (l l' : Link)
    → apart l l' ≡ true
    → active pathname l ≡ true
    → active pathname l' ≡ false
apart_lem pathname l l' h k = elim (Bool-cases (l.href === "/app")) [
  | inl home ↦
      let e : pathname ≡ "/app" = (eq_iff pathname "/app").0 (ground arith) in
      subst (λ p. active p l' ≡ false) (sym e) (ground arith)
  | inr other ↦ elim (Bool-cases (has_prefix l'.href pathname)) [
    | inl both ↦
        let nest = prefixes_nest l.href l'.href pathname (ground arith) both in ground arith
    | inr no_prefix ↦ ground arith
  ]
]

abbrev all_apart : List Link → Bool
all_apart [] = true
all_apart (l ∷ ls) = all (apart l) ls && all_apart ls

keep_active-nil :
    (pathname : String) (l : Link) (ls : List Link)
    → all (apart l) ls ≡ true
    → active pathname l ≡ true
    → keep_active pathname ls ≡ []
keep_active-nil pathname l [] h k = refl
keep_active-nil pathname l (l' ∷ ls) h k =
    rw (apart_lem pathname l l' (ground arith) k) (keep_active-nil pathname l ls (ground arith) k)

length-keep_active :
    (pathname : String) (ls : List Link)
    → all_apart ls ≡ true
    → length (keep_active pathname ls) ≤ 1
length-keep_active pathname [] h = omega arith
length-keep_active pathname (l ∷ ls) h = elim (Bool-cases (active pathname l)) [
  | inl here_now ↦
      rw (here_now, keep_active-nil pathname l ls (ground arith) here_now) (omega arith)
  | inr elsewhere ↦ rw elsewhere (length-keep_active pathname ls (ground arith))
]

-- On every page at most one link of the bar is marked.
pub length-marked : (pathname : String) → length (marked pathname) ≤ 1
unfolding marked
length-marked pathname = length-keep_active pathname links refl
