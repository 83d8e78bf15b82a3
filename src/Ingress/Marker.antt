-- ===== src/Ingress/Marker.antt =====
-- crates/lunaroute-ingress/src/marker.rs: the marker in a request that names a provider. What the regular
-- expressions find and replace in a text is a parameter, as is the test for blank text.
pub mod Target
mod Examples
use Prim.Native.Char.{code}
use lunaroute.Prelude.{
  ℕ, ◌+◌, Bool, true, false, not, ◌&&◌, String, Option, none, some, List, [], ◌∷◌, ◌++◌, leb, ◌==◌,
  if◌then◌else◌, and_then, str_eq, first, is_empty,
}
use lunaroute.Normalized.{Json, JsonItems, JsonFields}

pub data MarkerResult : Type 0 where
  provider : String → MarkerResult
  clear no_marker : MarkerResult

unfoldable pub find_field : String → JsonFields → Option Json
find_field key JsonFields.end = none
find_field key (JsonFields.field k v fs) =
    let rest = find_field key fs in if str_eq k key then some v else rest

-- `value.get(key)`.
unfoldable pub get : String → Json → Option Json
unfolding find_field
get key (Json.object fs) = find_field key fs
get key _ = none

unfoldable pub items_of : JsonItems → List Json
items_of JsonItems.nil = []
items_of (JsonItems.cons v vs) = v ∷ items_of vs

unfoldable pub to_items : List Json → JsonItems
to_items [] = JsonItems.nil
to_items (v ∷ vs) = JsonItems.cons v (to_items vs)

unfoldable pub as_array : Json → Option (List Json)
unfolding items_of
as_array (Json.array vs) = some (items_of vs)
as_array _ = none

unfoldable pub as_str : Json → Option String
as_str (Json.text s) = some s
as_str _ = none

unfoldable pub replace_field : String → Json → JsonFields → JsonFields
replace_field key v JsonFields.end = JsonFields.field key v JsonFields.end
replace_field key v (JsonFields.field k w fs) =
    let rest = replace_field key v fs in
    if str_eq k key then JsonFields.field k v fs else JsonFields.field k w rest

-- `value[key] = …` of an object.
unfoldable pub assign : String → Json → Json → Json
unfolding replace_field
assign key v (Json.object fs) = Json.object (replace_field key v fs)
assign key v j = j

unfoldable pub text_of : String → Json → Option String
unfolding get as_str
text_of key msg = and_then (get key msg) as_str

unfoldable pub content_of : Json → Option (List Json)
unfolding get as_array
content_of msg = and_then (get "content" msg) as_array

is_text : String → Option String → Bool
is_text s none = false
is_text s (some t) = str_eq t s

all_results : List Json → Bool
unfolding is_text text_of
all_results [] = true
all_results (b ∷ bs) = is_text "tool_result" (text_of "type" b) && all_results bs

unfoldable pub is_tool_result_only : Json → Bool
unfolding content_of all_results
is_tool_result_only msg = elim (content_of msg) [
  | none ↦ false
  | some blocks ↦ not (is_empty blocks) && all_results blocks
]

-- The message that both searches stop at.
unfoldable pub is_target : Json → Bool
unfolding is_text text_of is_tool_result_only
is_target msg = is_text "user" (text_of "role" msg) && not (is_tool_result_only msg)

-- The last of the messages that is a target, with those before it and after it.
unfoldable pub split_target : List Json → Option (List Json × (Json × List Json))
unfolding is_target
split_target [] = none
split_target (m ∷ ms) = elim (split_target ms) [
  | some (before, (target, after)) ↦ some (m ∷ before, (target, after))
  | none ↦ if is_target m then some ([], (m, ms)) else none
]

lower : ℕ → ℕ
lower c = if leb 65 c && leb c 90 then c + 32 else c

-- `eq_ignore_ascii_case`.
unfoldable pub same_ignoring_case : String → String → Bool
unfolding lower
same_ignoring_case String.[] String.[] = true
same_ignoring_case String.[] (String.◌∷◌ d t) = false
same_ignoring_case (String.◌∷◌ c s) String.[] = false
same_ignoring_case (String.◌∷◌ c s) (String.◌∷◌ d t) =
    lower (code c) == lower (code d) && same_ignoring_case s t

add_some : Option String → List String → List String
add_some none rest = rest
add_some (some s) rest = s ∷ rest

-- The name in the first marker of a text is `captures`.
module _ (captures : String → Option String) where
  block_markers : List Json → List String
  unfolding add_some text_of
  block_markers [] = []
  block_markers (b ∷ bs) = add_some (and_then (text_of "text" b) captures) (block_markers bs)

  unfoldable pub extract_marker_from_msg : Json → List String
  unfolding block_markers content_of text_of add_some
  extract_marker_from_msg msg = elim (content_of msg) [
    | some blocks ↦ block_markers blocks
    | none ↦ add_some (and_then (text_of "content" msg) captures) []
  ]

  unfoldable pub marker_result : Option String → MarkerResult
  unfolding same_ignoring_case
  marker_result none = no_marker
  marker_result (some name) = if same_ignoring_case name "clear" then clear else provider name

  unfoldable pub found_in : Option (List Json) → List String
  unfolding extract_marker_from_msg split_target
  found_in none = []
  found_in (some messages) = elim (split_target messages) [
    | none ↦ []
    | some (before, (target, after)) ↦ extract_marker_from_msg target
  ]

  unfoldable pub extract_marker : Json → MarkerResult
  unfolding marker_result found_in get as_array
  extract_marker req = marker_result (first (found_in (and_then (get "messages" req) as_array)))

-- Whether a text is nothing but a marker in a reminder, the text without markers, and whether it is blank.
module _ (is_standalone : String → Bool) (replace_all : String → String)
    (is_blank : String → Bool) where
  kept : Option String → Bool
  kept none = true
  kept (some text) = not (is_standalone text)

  filled : Option String → Bool
  filled none = true
  filled (some text) = not (is_blank text)

  strip_text : String → Option String → Json → Json
  unfolding assign
  strip_text key none b = b
  strip_text key (some text) b =
      if str_eq (replace_all text) text then b else assign key (Json.text (replace_all text)) b

  strip_blocks : List Json → List Json
  unfolding kept filled strip_text text_of
  strip_blocks [] = []
  strip_blocks (b ∷ bs) =
      let rest = strip_blocks bs in
      let stripped = strip_text "text" (text_of "text" b) b in
      if kept (text_of "text" b) && filled (text_of "text" stripped) then stripped ∷ rest else rest

  -- The target without markers, or none where nothing is left of it.
  unfoldable pub strip_message : Json → Option Json
  unfolding strip_blocks strip_text content_of text_of assign to_items
  strip_message msg = elim (content_of msg) [
    | none ↦ some (strip_text "content" (text_of "content" msg) msg)
    | some blocks ↦
        let left = strip_blocks blocks in
        if is_empty left then none else some (assign "content" (Json.array (to_items left)) msg)
  ]

  unfoldable pub keep_message : Option Json → List Json → List Json
  keep_message none after = after
  keep_message (some msg) after = msg ∷ after

  unfoldable pub strip_messages : List Json → List Json
  unfolding split_target strip_message keep_message
  strip_messages messages = elim (split_target messages) [
    | none ↦ messages
    | some (before, (target, after)) ↦ before ++ keep_message (strip_message target) after
  ]

  unfoldable pub strip_marker : Json → Json
  unfolding strip_messages get as_array assign to_items
  strip_marker req = elim (and_then (get "messages" req) as_array) [
    | none ↦ req
    | some messages ↦ assign "messages" (Json.array (to_items (strip_messages messages))) req
  ]
