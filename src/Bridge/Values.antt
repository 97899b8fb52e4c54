-- ===== src/Bridge/Values.antt =====
-- JSON values as `JSON.parse` gives them, and what the program asks of one. `F` is the type of numbers.
use downshift.Base.{String, Bool, true, false, Option, none, some, str_eq, if◌then◌else◌}

-- A value that holds values is in a block with its lists of items and of fields.
mutual
  pub data Json (F : Type 0) : Type 0 where
    null : Json F
    bool : Bool → Json F
    number : F → Json F
    text : String → Json F
    array : Items F → Json F
    object : Fields F → Json F

  pub data Items (F : Type 0) : Type 0 where
    nil : Items F
    cons : Json F → Items F → Items F

  pub data Fields (F : Type 0) : Type 0 where
    end : Fields F
    field : String → Json F → Fields F → Fields F

module _ {F : Type 0} where
  -- `none` stands for undefined. Of two fields with one name, `JSON.parse` keeps the last.
  abbrev pub get_field : Fields F → String → Option (Json F)
  get_field end key = none
  get_field (field name value rest) key =
      let later = get_field rest key in
      elim later [ some v ↦ some v | none ↦ if str_eq name key then some value else none ]

  abbrev pub every : (Json F → Bool) → Items F → Bool
  every p nil = true
  every p (cons x xs) = let rest = every p xs in if p x then rest else false

  abbrev pub text_of : Option (Json F) → Option String
  text_of (some (text s)) = some s
  text_of _ = none

  abbrev pub fields_of : Option (Json F) → Option (Fields F)
  fields_of (some (object fields)) = some fields
  fields_of _ = none

  -- `value === undefined || typeof value === "string"`
  abbrev pub absent_or_text : Option (Json F) → Bool
  absent_or_text none = true
  absent_or_text (some (text s)) = true
  absent_or_text _ = false

  abbrev pub is_text : Option (Json F) → String → Bool
  is_text (some (text s)) t = str_eq s t
  is_text _ t = false
