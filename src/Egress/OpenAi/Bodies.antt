-- ===== src/Egress/OpenAi/Bodies.antt =====
-- crates/lunaroute-egress/src/openai.rs: the changes that the configuration makes to the bodies of
-- requests and responses. A `serde_json::Map` is its fields, one for each key; the order of the
-- fields is not observed.
pub mod Merge
pub mod Precedence
mod Examples
use lunaroute.Prelude.{
  Bool, true, false, ◌&&◌, String, Option, none, some, List, [], ◌∷◌, if◌then◌else◌, str_eq,
}
use lunaroute.Normalized.{
  Json, JsonItems, JsonFields, text, array, object, nil, cons, end, field, null, boolean, number,
}
use lunaroute.Template.{TemplateContext, Regexes, new, substitute_string}

pub record RequestBodyModConfig : Type 0 where
  pub defaults : Option Json
  pub overrides : Option Json
  pub prepend_messages : Option (List Json)

pub record ResponseBodyModConfig : Type 0 where
  pub enabled : Bool
  pub metadata_namespace : String
  pub fields : Option (List (String × String))
  pub extension_fields : Option (List (String × String))

-- `map.get(key)`.
unfoldable pub get_field : String → JsonFields → Option Json
get_field key end = none
get_field key (field k v rest) = if str_eq k key then some v else get_field key rest

-- `map.insert(key, value)`.
unfoldable pub set_field : String → Json → JsonFields → JsonFields
set_field key value end = field key value end
set_field key value (field k v rest) =
    if str_eq k key then field key value rest else field k v (set_field key value rest)

unfoldable pub is_object : Json → Bool
is_object (object fields) = true
is_object _ = false

-- What takes the place of a field: two objects are merged, and any other value replaces the old one.
unfoldable pub placed : Option Json → (Json → Json) → Json → Json
unfolding is_object
placed none merged value = value
placed (some base_value) merged value =
    if is_object base_value && is_object value then merged base_value else value

unfoldable mutual
  unfolding get_field set_field placed

  -- `deep_merge`.
  pub deep_merge : Json → Json → Json
  deep_merge (object base) (object overlay) = object (merge_fields base overlay)
  deep_merge _ overlay = overlay

  -- The loop over the fields of the overlay.
  pub merge_fields : JsonFields → JsonFields → JsonFields
  merge_fields base end = base
  merge_fields base (field key value rest) =
      merge_fields
        (set_field key
          (placed (get_field key base) (λ base_value. deep_merge base_value value) value) base)
        rest

merge_onto : Option Json → Json → Json
unfolding deep_merge
merge_onto none request_json = request_json
merge_onto (some defaults) request_json = deep_merge defaults request_json

override_by : Option Json → Json → Json
unfolding deep_merge
override_by none request_json = request_json
override_by (some overrides) request_json = deep_merge request_json overrides

-- `messages_array.insert(0, msg)` for each message, the last one first.
unfoldable pub put_first : List Json → JsonItems → JsonItems
put_first [] items = items
put_first (msg ∷ msgs) items = cons msg (put_first msgs items)

prepend_to : List Json → Option Json → JsonFields → JsonFields
unfolding put_first set_field
prepend_to msgs (some (array items)) fields =
    set_field "messages" (array (put_first msgs items)) fields
prepend_to msgs _ fields = fields

prepend_all : Option (List Json) → Json → Json
unfolding prepend_to get_field
prepend_all (some msgs) (object fields) =
    object (prepend_to msgs (get_field "messages" fields) fields)
prepend_all _ request_json = request_json

change_request : RequestBodyModConfig → Json → Json
unfolding merge_onto override_by prepend_all
change_request config request_json =
    prepend_all config.prepend_messages
      (override_by config.overrides (merge_onto config.defaults request_json))

-- With the configuration of the connector.
unfoldable pub apply_request_body_modifications : Option RequestBodyModConfig → Json → Json
unfolding change_request
apply_request_body_modifications none request_json = request_json
apply_request_body_modifications (some config) request_json = change_request config request_json

module _ (to_uppercase : String → String) (env : String → Option String) (regexes : Regexes) where
  -- The entries of a map of templates, each filled in and put into the object.
  unfoldable pub put_fields :
      List (String × String) → TemplateContext → JsonFields → TemplateContext × JsonFields
  unfolding set_field
  put_fields [] context fields = (context, fields)
  put_fields ((key, template) ∷ entries) context fields =
      let (context', value) = substitute_string to_uppercase env regexes template context in
      put_fields entries context' (set_field key (text value) fields)

  put_metadata :
      String
      → Option (List (String × String))
      → TemplateContext
      → JsonFields
      → TemplateContext × JsonFields
  unfolding put_fields set_field
  put_metadata namespace none context response = (context, response)
  put_metadata namespace (some entries) context response =
      let (context', metadata) = put_fields entries context end in
      (context', set_field namespace (object metadata) response)

  put_extension : Option (List (String × String)) → TemplateContext → JsonFields → JsonFields
  unfolding put_fields
  put_extension none context response = response
  put_extension (some entries) context response = (put_fields entries context response).1

  change_response : ResponseBodyModConfig → TemplateContext → Json → Json
  unfolding put_metadata put_extension
  change_response config context (object response) =
      let (context', response') =
        put_metadata config.metadata_namespace config.fields context response in
      object (put_extension config.extension_fields context' response')
  change_response config context response_json = response_json

  -- The request id, the model and the session id fill the templates; the time is an argument.
  unfoldable pub apply_response_body_modifications :
      Option ResponseBodyModConfig → Json → String → String → Option String → String → Json
  unfolding change_response new
  apply_response_body_modifications none response_json request_id model session_id now =
      response_json
  apply_response_body_modifications (some config) response_json request_id model session_id now =
      if config.enabled
      then change_response config
          (record (new request_id "openai" model now) { session_id = session_id }) response_json
      else response_json
