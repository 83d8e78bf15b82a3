-- ===== src/Ingress/Marker/Examples.antt =====
-- The marker at concrete inputs.
use lunaroute.Prelude.{
  ◌≡◌, refl, Bool, false, String, Option, none, some, [], ◌∷◌, ◌++◌, str_eq, first, if◌then◌else◌,
}
use lunaroute.Normalized.{Json, JsonFields}
use lunaroute.Ingress.Marker.{
  get, to_items, is_target, extract_marker, extract_marker_from_msg, marker_result, strip_message,
  keep_message, strip_marker, provider,
}
use lunaroute.Ingress.Marker.Target.{messages_of, strip_marker-target}

abbrev captures : String → Option String
captures t = if str_eq t "hi [LUNAROUTE:sonnet]" then some "sonnet" else none

abbrev is_standalone : String → Bool
is_standalone t = false

abbrev replace_all : String → String
replace_all t = if str_eq t "hi [LUNAROUTE:sonnet]" then "hi " else t

abbrev is_blank : String → Bool
is_blank t = str_eq t ""

abbrev message : String → Json → Json
message role content =
    Json.object
      (JsonFields.field "role" (Json.text role) (JsonFields.field "content" content JsonFields.end))

abbrev asks : Json
asks = message "user" (Json.text "hi [LUNAROUTE:sonnet]")

abbrev tool_results : Json
tool_results = message "user" (
    Json.array (
      to_items
        (Json.object (JsonFields.field "type" (Json.text "tool_result") JsonFields.end) ∷ [])))

abbrev answers : Json
answers = message "assistant" (Json.text "calling")

abbrev request : Json
request = Json.object (
    JsonFields.field "model" (Json.text "m") (
      JsonFields.field "messages" (Json.array (to_items (asks ∷ answers ∷ tool_results ∷ [])))
        JsonFields.end))

strip_marker-target_example :
    let stripped = strip_marker is_standalone replace_all is_blank request in
    (extract_marker captures request
      ≡ marker_result captures (first (extract_marker_from_msg captures asks)))
    × (messages_of stripped
        ≡ some (
            []
            ++ keep_message is_standalone replace_all is_blank
                (strip_message is_standalone replace_all is_blank asks)
                (answers ∷ tool_results ∷ [])))
    × ((k : String) → str_eq "messages" k ≡ false → get k stripped ≡ get k request)
unfolding get to_items is_target
strip_marker-target_example =
    strip_marker-target captures is_standalone replace_all is_blank request asks []
      (answers ∷ tool_results ∷ []) refl refl (refl, (refl, tt))

found : extract_marker captures request ≡ provider "sonnet"
unfolding extract_marker to_items
found = refl

removed :
    strip_message is_standalone replace_all is_blank asks ≡ some (message "user" (Json.text "hi "))
unfolding strip_message
removed = refl
