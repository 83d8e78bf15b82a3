-- ===== src/Ingress/Marker/Target.antt =====
-- The one message that a marker is taken from and removed from.
use lunaroute.Prelude.{
  ◌≡◌, refl, ap, ◌∙◌, inl, inr, Bool, true, false, String, Option, none, some, List, [], ◌∷◌, ◌++◌,
  Bool-cases, Option-cases, All, and_then, str_eq, str_eq_iff, first,
}
use text.Mathlib.TextPositions.{eq_refl}
use lunaroute.Normalized.{Json, JsonFields}
use lunaroute.Ingress.Marker.{
  find_field, get, items_of, to_items, as_array, replace_field, assign, is_target, split_target,
  extract_marker_from_msg, marker_result, found_in, extract_marker, strip_message, keep_message,
  strip_messages, strip_marker,
}

-- No message is a user's with more than tool results.
abbrev pub NoTargets : List Json → Type 0
NoTargets ms = All (λ m. is_target m ≡ false) ms

split-none : (ms : List Json) → NoTargets ms → split_target ms ≡ none
unfolding split_target
split-none [] t = refl
split-none (m ∷ ms) (h, t) = rw (split-none ms t, h) refl

split-some :
    (before after : List Json) (target : Json)
    → is_target target ≡ true
    → NoTargets after
    → split_target (before ++ target ∷ after) ≡ some (before, (target, after))
unfolding split_target
split-some [] after target h t = rw (split-none after t, h) refl
split-some (m ∷ before) after target h t = rw (split-some before after target h t) refl

items_of-to_items : (ms : List Json) → items_of (to_items ms) ≡ ms
unfolding items_of to_items
items_of-to_items [] = refl
items_of-to_items (m ∷ ms) = ap (λ r. m ∷ r) (items_of-to_items ms)

find-replace :
    (key : String) (v : Json) (fs : JsonFields) → find_field key (replace_field key v fs) ≡ some v
unfolding find_field replace_field
find-replace key v JsonFields.end = rw (eq_refl key) refl
find-replace key v (JsonFields.field k w fs) = elim (Bool-cases (str_eq k key)) [
  | inl same ↦ rw (same, same) refl
  | inr other ↦ let rest = find-replace key v fs in rw (other, other) rest
]

find-other :
    (key k : String) (v : Json) (fs : JsonFields)
    → str_eq key k ≡ false
    → find_field k (replace_field key v fs) ≡ find_field k fs
unfolding find_field replace_field
find-other key k v JsonFields.end h = rw h refl
find-other key k v (JsonFields.field j w fs) h = elim (Bool-cases (str_eq j key)) [
  | inl same ↦
      let other : str_eq j k ≡ false = rw ((str_eq_iff j key).0 same) h in rw (same, other) refl
  | inr differs ↦ let rest = find-other key k v fs h in rw (differs, rest) refl
]

get-assign :
    (key : String) (v w : Json) (j : Json) → get key j ≡ some w → get key (assign key v j) ≡ some v
unfolding get assign
get-assign key v w (Json.object fs) h = find-replace key v fs
get-assign key v w Json.null h = cc
get-assign key v w (Json.boolean b) h = cc
get-assign key v w (Json.number n) h = cc
get-assign key v w (Json.text t) h = cc
get-assign key v w (Json.array vs) h = cc

get-other :
    (key k : String) (v : Json) (j : Json) → str_eq key k ≡ false → get k (assign key v j) ≡ get k j
unfolding get assign
get-other key k v (Json.object fs) h = find-other key k v fs h
get-other key k v Json.null h = refl
get-other key k v (Json.boolean b) h = refl
get-other key k v (Json.number n) h = refl
get-other key k v (Json.text t) h = refl
get-other key k v (Json.array vs) h = refl

-- The messages of a request, if it has any.
abbrev pub messages_of : Json → Option (List Json)
messages_of req = and_then (get "messages" req) as_array

messages_of-assign :
    (req : Json) (ms ns : List Json)
    → messages_of req ≡ some ms
    → messages_of (assign "messages" (Json.array (to_items ns)) req) ≡ some ns
unfolding as_array
messages_of-assign req ms ns e = elim (Option-cases (get "messages" req)) [
  | inl missing ↦ cc (rw missing at e)
  | inr (w, there) ↦
      rw (get-assign "messages" (Json.array (to_items ns)) w req there)
        (ap some (items_of-to_items ns))
]

module _ (captures : String → Option String) (is_standalone : String → Bool)
    (replace_all : String → String) (is_blank : String → Bool) where
  extract-target :
      (req target : Json) (before after : List Json)
      → messages_of req ≡ some (before ++ target ∷ after)
      → is_target target ≡ true
      → NoTargets after
      → extract_marker captures req
        ≡ marker_result captures (first (extract_marker_from_msg captures target))
  unfolding extract_marker found_in
  extract-target req target before after e h t =
      rw (e, found_in, split-some before after target h t) refl

  strip-messages :
      (req : Json) (ms : List Json)
      → messages_of req ≡ some ms
      → strip_marker is_standalone replace_all is_blank req
        ≡ assign "messages"
            (Json.array (to_items (strip_messages is_standalone replace_all is_blank ms)))
            req
  unfolding strip_marker
  strip-messages req ms e = rw (strip_marker, e) refl

  split-messages :
      (target : Json) (before after : List Json)
      → is_target target ≡ true
      → NoTargets after
      → strip_messages is_standalone replace_all is_blank (before ++ target ∷ after)
        ≡ before
          ++ keep_message is_standalone replace_all is_blank
              (strip_message is_standalone replace_all is_blank target)
              after
  unfolding strip_messages
  split-messages target before after h t =
      rw (split-some before after target h t, strip_messages) refl

  -- In a request with messages of which one is the last user message with more than tool results, the
  -- marker that is extracted is that of this message, and stripping leaves all other messages and all
  -- other fields of the request as they are, and changes or removes this message.
  pub strip_marker-target :
      (req target : Json) (before after : List Json)
      → messages_of req ≡ some (before ++ target ∷ after)
      → is_target target ≡ true
      → NoTargets after
      → let stripped = strip_marker is_standalone replace_all is_blank req in
        (extract_marker captures req
          ≡ marker_result captures (first (extract_marker_from_msg captures target)))
        × (messages_of stripped
            ≡ some (
                before
                ++ keep_message is_standalone replace_all is_blank
                    (strip_message is_standalone replace_all is_blank target)
                    after))
        × ((k : String) → str_eq "messages" k ≡ false → get k stripped ≡ get k req)
  strip_marker-target req target before after e h t =
      let split = split-messages target before after h t in
      rw (strip-messages req (before ++ target ∷ after) e) (
        extract-target req target before after e h t,
        messages_of-assign req _ _ e ∙ ap some split,
        λ k other. get-other "messages" k _ req other,
      )
