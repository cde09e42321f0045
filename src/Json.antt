-- ===== src/Json.antt =====
-- The values that `json.loads` gives. An object is a dict with text keys; a number that is no
-- integer is `fraction`.
use coreline_auth_module.Common.{String, Bool, false, Option, some, none, ◌==◌, if◌then◌else◌}
use coreline_auth_module.Common.Int.{ℤ, pos}

mutual
  pub data Json : Type 0 where
    null : Json
    flag : Bool → Json
    number : ℤ → Json
    fraction : Json
    text : String → Json
    array : Jsons → Json
    object : Members → Json

  pub data Jsons : Type 0 where
    nil : Jsons
    cons : Json → Jsons → Jsons

  pub data Members : Type 0 where
    end : Members
    member : String → Json → Members → Members

-- `data.get(key)`
unfoldable pub lookup : String → Members → Option Json
lookup key end = none
lookup key (member k v ms) = if k == key then some v else lookup key ms

-- `isinstance(value, str)`
abbrev pub as_text : Option Json → Option String
as_text (some (Json.text s)) = some s
as_text _ = none

-- `isinstance(value, int)`, which holds of Python's `True` and `False` too.
abbrev pub as_int : Option Json → Option ℤ
as_int (some (Json.number n)) = some n
as_int (some (Json.flag b)) = some (if b then pos 1 else pos 0)
as_int _ = none

-- `isinstance(value, Mapping)`
abbrev pub as_object : Json → Option Members
as_object (Json.object ms) = some ms
as_object _ = none

-- `data.get(key) == t`
abbrev pub holds_text : String → String → Members → Bool
holds_text key t ms = elim (as_text (lookup key ms)) [ none ↦ false | some s ↦ s == t ]
