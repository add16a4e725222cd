-- ===== src/Site.antt =====
-- The public pages of frontend/app, without their layout and style: their texts, their links and the
-- places that a link can lead to.
pub mod Landing
pub mod Legal
pub mod Places
pub mod Section
pub mod Robots
use blackbox_agent_accountab.Prelude.{
  String, Bool, true, false, Option, none, some, List, [], ◌∷◌, ◌++◌,
}

-- A link: `href`, whether `target` is `_blank`, `rel` and the label.
pub record Hyperlink : Type 0 where
  pub href : String
  pub new_tab : Bool
  pub rel : Option String
  pub label : String

-- What a page consists of, in the order of the document.
pub data Element : Type 0 where
  text : String → Element
  -- an element with an `id` begins
  anchor : String → Element
  a : Hyperlink → Element

abbrev pub link : String → String → Element
link href label = a (record { href = href; new_tab = false; rel = none; label = label })

-- A link with `target="_blank"` and `rel="noopener"`.
abbrev pub outward : String → String → Element
outward href label =
    a (record { href = href; new_tab = true; rel = some "noopener"; label = label })

-- `{items.map(item => …)}`
abbrev pub each : {B : Type 0} → List B → (B → List Element) → List Element
each [] f = []
each (x ∷ xs) f = f x ++ each xs f
