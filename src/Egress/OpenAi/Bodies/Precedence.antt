-- ===== src/Egress/OpenAi/Bodies/Precedence.antt =====
-- Which of the configuration and the request decides a value of the body that is sent.
use lunaroute.Prelude.{
  ◌≡◌, refl, ◌∙◌, subst, true, false, String, Option, none, some, List, ◌∷◌, str_eq,
}
use lunaroute.Normalized.{Json, JsonFields, text, array, object, null, boolean, number}
use lunaroute.Egress.OpenAi.Bodies.{
  RequestBodyModConfig, is_object, merge_onto, override_by, prepend_to, prepend_all, change_request,
  apply_request_body_modifications,
}
use lunaroute.Egress.OpenAi.Bodies.Merge.{
  value_at, leaves_open, IsMap, get_field-set_field, overlay_decides, base_decides,
}

-- Of an optional overlay.
abbrev pub LeavesOpen : List String → Option Json → Type 0
LeavesOpen path none = Unit
LeavesOpen path (some overlay) = leaves_open path overlay ≡ true

abbrev pub AreMaps : Option Json → Type 0
AreMaps none = Unit
AreMaps (some v) = IsMap v

-- Who decides the value at a path: the overrides, else the request, else the defaults.
pub data Decides (path : List String) (config : RequestBodyModConfig) (request_json : Json)
    : Json → Type 0 where
  by_override :
      (overrides v : Json)
      → config.overrides ≡ some overrides
      → value_at path overrides ≡ some v
      → is_object v ≡ false
      → Decides path config request_json v
  by_request :
      (v : Json)
      → LeavesOpen path config.overrides
      → value_at path request_json ≡ some v
      → is_object v ≡ false
      → Decides path config request_json v
  by_default :
      (defaults v : Json)
      → LeavesOpen path config.overrides
      → leaves_open path request_json ≡ true
      → config.defaults ≡ some defaults
      → value_at path defaults ≡ some v
      → Decides path config request_json v

override_by-keeps :
    (path : List String) (o : Option Json) (request_json : Json)
    → AreMaps o
    → LeavesOpen path o
    → value_at path (override_by o request_json) ≡ value_at path request_json
unfolding override_by
override_by-keeps path none request_json m h = refl
override_by-keeps path (some overrides) request_json m h =
    base_decides path request_json overrides m h

merge_onto-keeps :
    (path : List String) (o : Option Json) (request_json v : Json)
    → IsMap request_json
    → value_at path request_json ≡ some v
    → is_object v ≡ false
    → value_at path (merge_onto o request_json) ≡ some v
unfolding merge_onto
merge_onto-keeps path none request_json v m h plain = h
merge_onto-keeps path (some defaults) request_json v m h plain =
    overlay_decides path defaults request_json v m h plain

prepend_to-keeps :
    (k : String) (path : List String) (msgs : List Json) (o : Option Json) (fields : JsonFields)
    → str_eq "messages" k ≡ false
    → value_at (k ∷ path) (object (prepend_to msgs o fields)) ≡ value_at (k ∷ path) (object fields)
unfolding prepend_to
prepend_to-keeps k path msgs none fields other = refl
prepend_to-keeps k path msgs (some (array items)) fields other =
    rw (get_field-set_field "messages" k _ fields, other) refl
prepend_to-keeps k path msgs (some null) fields other = refl
prepend_to-keeps k path msgs (some (boolean b)) fields other = refl
prepend_to-keeps k path msgs (some (number n)) fields other = refl
prepend_to-keeps k path msgs (some (text s)) fields other = refl
prepend_to-keeps k path msgs (some (object fs)) fields other = refl

prepend_all-keeps :
    (k : String) (path : List String) (msgs : Option (List Json)) (v : Json)
    → str_eq "messages" k ≡ false
    → value_at (k ∷ path) (prepend_all msgs v) ≡ value_at (k ∷ path) v
unfolding prepend_all
prepend_all-keeps k path none v other = refl
prepend_all-keeps k path (some msgs) (object fields) other =
    prepend_to-keeps k path msgs _ fields other
prepend_all-keeps k path (some msgs) null other = refl
prepend_all-keeps k path (some msgs) (boolean b) other = refl
prepend_all-keeps k path (some msgs) (number n) other = refl
prepend_all-keeps k path (some msgs) (text s) other = refl
prepend_all-keeps k path (some msgs) (array items) other = refl

merged_value :
    (path : List String) (config : RequestBodyModConfig) (request_json v : Json)
    → IsMap request_json
    → AreMaps config.overrides
    → Decides path config request_json v
    → value_at path (override_by config.overrides (merge_onto config.defaults request_json))
      ≡ some v
merged_value path config request_json v m m' (by_override overrides _ e h plain) =
    rw e (unfold override_by in overlay_decides path _ overrides v (subst AreMaps e m') h plain)
merged_value path config request_json v m m' (by_request _ left h plain) =
    override_by-keeps path config.overrides _ m' left
    ∙ merge_onto-keeps path config.defaults request_json v m h plain
merged_value path config request_json v m m' (by_default defaults _ left left' e h) =
    override_by-keeps path config.overrides _ m' left
    ∙ rw e (unfold merge_onto in base_decides path defaults request_json m left' ∙ h)

-- In the body that is sent, a value at a path outside the messages is the one that the overrides
-- give; else, where they leave the path open, the request's; else, where it leaves the path open too,
-- the default. Values of the overrides and of the request are meant that are no objects, and each key
-- of an object has one field.
pub precedence :
    (k : String) (path : List String) (config : RequestBodyModConfig) (request_json v : Json)
    → str_eq "messages" k ≡ false
    → IsMap request_json
    → AreMaps config.overrides
    → Decides (k ∷ path) config request_json v
    → value_at (k ∷ path) (apply_request_body_modifications (some config) request_json) ≡ some v
unfolding apply_request_body_modifications change_request
precedence k path config request_json v other m m' decided =
    prepend_all-keeps k path config.prepend_messages _ other
    ∙ merged_value (k ∷ path) config request_json v m m' decided
