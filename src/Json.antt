-- ===== src/Json.antt =====
-- JSON values, as the payloads that the service stores without looking inside.
use funder_match.Base.{Bool, String, List, Option, some, none, [], ◌∷◌}

mutual
  pub data Json : Type 0 where
    null : Json
    boolean : Bool → Json
    number : String → Json
    text : String → Json
    array : Items → Json
    object : Fields → Json

  pub data Items : Type 0 where
    no_item : Items
    item : Json → Items → Items

  pub data Fields : Type 0 where
    no_field : Fields
    field : String → Json → Fields → Fields

-- `dict[str, Any]`
abbrev pub Payload : Type 0
Payload = List (String × Json)

-- `a or b` on optional dictionaries: an empty one is false
unfoldable pub or_else : Option Payload → Option Payload → Option Payload
or_else none b = b
or_else (some []) b = b
or_else (some (x ∷ xs)) b = some (x ∷ xs)
