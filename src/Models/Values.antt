-- ===== src/Models/Values.antt =====
-- `JSONValue` of monitor_agent/models.py. A list or a dict of values is a type of its own in the
-- mutual block, and the conversions below go to and from the library's lists.
use employee_tracker.Common.{
  ℕ, String, Bool, Option, none, some, List, [], ◌∷◌, str_eq, if◌then◌else◌,
}
use employee_tracker.Common.{◌≡◌, refl, arith}
use employee_tracker.Common.Dict.{lookup}
use employee_tracker.Common.Int.{ℤ}

-- A float stands as its IEEE-754 bit pattern; the operations on floats are parameters.
abbrev pub Float : Type 0
Float = ℕ

mutual
  pub data Json : Type 0 where
    null : Json
    bool : Bool → Json
    int : ℤ → Json
    float : Float → Json
    str : String → Json
    list : Items → Json
    dict : Fields → Json

  pub data Items : Type 0 where
    nil : Items
    cons : Json → Items → Items

  pub data Fields : Type 0 where
    end : Fields
    field : String → Json → Fields → Fields

unfoldable pub items : List Json → Items
items [] = nil
items (x ∷ xs) = cons x (items xs)

unfoldable pub fields : List (String × Json) → Fields
fields [] = end
fields ((k, v) ∷ d) = field k v (fields d)

-- `d.get(k)`
unfoldable pub get_field : String → Fields → Option Json
get_field k end = none
get_field k (field j v d) = if str_eq j k then some v else get_field k d

-- `value if isinstance(value, str) else None`
unfoldable pub as_string : Json → Option String
as_string (str s) = some s
as_string _ = none

-- A nullable text as JSON.
abbrev pub nullable : Option String → Json
nullable none = null
nullable (some s) = str s

-- A dict of JSON values is read as the association list that it was made from.
pub get_field-fields : (k : String) (d : List (String × Json)) → get_field k (fields d) ≡ lookup k d
unfolding get_field fields lookup
get_field-fields k [] = refl
get_field-fields k ((j, v) ∷ d) = ground (arith, get_field-fields k d)
