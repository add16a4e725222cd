-- ===== src/Json.antt =====
-- JSON values, and object literals on their way to `JSON.stringify`.
use blackbox_agent_accountab.Prelude.{
  ℕ, String, Bool, true, false, not, Option, none, some, List, [], ◌∷◌, if◌then◌else◌, ◌==◌, ◌===◌,
  truthy,
}

mutual
  pub data Json : Type 0 where
    null : Json
    bool : Bool → Json
    num : ℕ → Json
    str : String → Json
    arr : Items → Json
    obj : Fields → Json

  pub data Items : Type 0 where
    nil : Items
    cons : Json → Items → Items

  pub data Fields : Type 0 where
    end : Fields
    field : String → Json → Fields → Fields

-- An array of texts.
abbrev pub texts : List String → Items
texts [] = nil
texts (s ∷ ss) = cons (str s) (texts ss)

-- The properties of an object literal, in order; `none` is `undefined`.
abbrev pub Literal : Type 0
Literal = List (String × Option Json)

-- Sets a property, at its place if it is there.
abbrev assign : String → Option Json → Literal → Literal
assign k v [] = (k, v) ∷ []
assign k v ((j, w) ∷ ps) = if j === k then (k, v) ∷ ps else (j, w) ∷ assign k v ps

-- `{ ...ps, ...qs }`
abbrev pub spread : Literal → Literal → Literal
spread ps [] = ps
spread ps ((k, v) ∷ qs) = spread (assign k v ps) qs

-- `JSON.stringify` leaves out a property that is `undefined`.
abbrev pub fields : Literal → Fields
fields [] = end
fields ((k, none) ∷ ps) = fields ps
fields ((k, some v) ∷ ps) = field k v (fields ps)

abbrev pub stringify : Literal → Json
stringify ps = obj (fields ps)

-- The value of a property of an object.
abbrev pub get : String → Fields → Option Json
get k end = none
get k (field j v fs) = if j === k then some v else get k fs

-- What `?` takes for true.
abbrev pub truthy_json : Json → Bool
truthy_json null = false
truthy_json (bool b) = b
truthy_json (num n) = not (n == 0)
truthy_json (str s) = truthy s
truthy_json _ = true
