-- ===== src/Client/Json.antt =====
-- The values that Go's encoding/json decodes into `any` and `map[string]any`.
use arca_go_sdk.Prelude.{String, List, [], ◌∷◌, Option, none, some, Bool, if◌then◌else◌, str_eq}

mutual
  pub data Json : Type 0 where
    null : Json
    bool : Bool → Json
    number : String → Json
    str : String → Json
    arr : Items → Json
    obj : Fields → Json

  pub data Items : Type 0 where
    nil : Items
    cons : Json → Items → Items

  pub data Fields : Type 0 where
    end : Fields
    field : String → Json → Fields → Fields

-- `v, ok := m[key]`; a repeated key cannot occur in a Go map, so the first one is the one.
unfoldable pub get_field : Fields → String → Option Json
get_field end k = none
get_field (field j v fs) k = if str_eq j k then some v else get_field fs k

-- `s, _ := v.(string)`: the empty string where the value is missing or of another type.
unfoldable pub as_string : Option Json → String
as_string (some (str s)) = s
as_string _ = ""

-- `for _, r := range raw { if s, ok := r.(string); ok { out = append(out, s) } }`
unfoldable pub strings_of : Items → List String
strings_of nil = []
strings_of (cons (str s) r) = s ∷ strings_of r
strings_of (cons _ r) = strings_of r
