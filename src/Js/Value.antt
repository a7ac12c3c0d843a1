-- ===== src/Js/Value.antt =====
-- A value of unknown shape, as a decoder returns it: what `typeof`, `instanceof`, `Array.isArray`
-- and a property read can tell. Numbers are integers; no frame of the program carries another.
use mortstack.Prelude.{ℕ, ℤ, String, Bool, true, false, ◌==◌, List, [], ◌∷◌, if◌then◌else◌}

mutual
  pub data Value : Type 0 where
    undefined : Value
    null : Value
    boolean : Bool → Value
    number : ℤ → Value
    text : String → Value
    bytes : List ℕ → Value
    array : Items → Value
    object : Fields → Value

  pub data Items : Type 0 where
    nil : Items
    cons : Value → Items → Items

  pub data Fields : Type 0 where
    end : Fields
    field : String → Value → Fields → Fields

abbrev pub elements : Items → List Value
elements nil = []
elements (cons v vs) = v ∷ elements vs

-- `o.name` of an object's own properties
unfoldable pub property : Fields → String → Value
property end name = undefined
property (field key v rest) name = if key == name then v else property rest name

-- `"name" in o`
unfoldable pub has_property : Fields → String → Bool
has_property end name = false
has_property (field key v rest) name = if key == name then true else has_property rest name
