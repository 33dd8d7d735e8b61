-- ===== src/Core/Json.antt =====
-- JSON values, as the `json` module reads them and as JSONField columns hold them.
use robotics_io_t_smart_auto.Base.{
  String, Bool, true, false, Option, none, some, str_eq, if◌then◌else◌, Float,
}

mutual
  pub data Json : Type 0 where
    null : Json
    bool : Bool → Json
    num : Float → Json
    str : String → Json
    arr : Items → Json
    obj : Fields → Json

  pub data Items : Type 0 where
    nil : Items
    cons : Json → Items → Items

  pub data Fields : Type 0 where
    end : Fields
    field : String → Json → Fields → Fields

-- dict.get(key)
abbrev pub get : String → Fields → Option Json
get k end = none
get k (field j v rest) = if str_eq j k then some v else get k rest

-- `x in [...]` for a text `x`
abbrev pub holds_text : String → Items → Bool
holds_text s nil = false
holds_text s (cons (str t) rest) = if str_eq t s then true else holds_text s rest
holds_text s (cons _ rest) = holds_text s rest
