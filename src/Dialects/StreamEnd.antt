-- ===== src/Dialects/StreamEnd.antt =====
-- The ends of a stream that comes from Anthropic.
use lunaroute.Prelude.{
  ℕ, ◌+◌, ◌≤◌, ◌≡◌, refl, Bool, String, Option, none, some, List, [], ◌∷◌, ◌++◌, map, arith, Result,
  ok, err, if◌then◌else◌, Bool-cases, inl, inr, ltb, not,
}
use lunaroute.Prelude.IndexMaps.{lookup_index}
use lunaroute.Normalized.{NormalizedStreamEvent, Error}
use lunaroute.Egress.Anthropic.{
  AnthropicStreamEvent, AnthropicStreamUsage, message_start, content_block_start,
  content_block_delta, content_block_stop, message_delta, message_stop, ping, unknown, text_block,
  tool_block, text_delta, input_json_delta,
}
use lunaroute.Egress.Anthropic.Events.{
  SseItem, StreamState, message, broken, is_end, initial, create_anthropic_stream, scan_events,
  item_events, api_event, emit_message_delta_events, tool_part, has_end, without_end, end_events,
}

-- How many items are the end of a stream.
abbrev pub ends : List (Result Error NormalizedStreamEvent) → ℕ
ends [] = 0
ends (ok e ∷ rs) = let n = ends rs in if is_end e then 1 + n else n
ends (err e ∷ rs) = ends rs

-- How many ends may still come.
ends_left : Bool → ℕ
ends_left sent = if sent then 0 else 1

ends-append :
    (rs rs' : List (Result Error NormalizedStreamEvent)) → ends (rs ++ rs') ≡ ends rs + ends rs'
ends-append [] rs' = omega arith
ends-append (ok e ∷ rs) rs' = let ih = ends-append rs rs' in ground arith
ends-append (err e ∷ rs) rs' = ends-append rs rs'

option_ends :
    (o : Option String)
    → (ends (map ok (end_events o)) ≡ ends_left (not (has_end (end_events o))))
      × (ends (map ok (without_end (end_events o))) ≡ 0)
unfolding ends_left is_end end_events has_end without_end
option_ends none = (refl, refl)
option_ends (some reason) = (refl, refl)

delta_ends :
    (usage : AnthropicStreamUsage) (o : Option String)
    → (ends (map ok (emit_message_delta_events usage o))
        ≡ ends_left (not (has_end (emit_message_delta_events usage o))))
      × (ends (map ok (without_end (emit_message_delta_events usage o))) ≡ 0)
unfolding emit_message_delta_events is_end has_end without_end
delta_ends usage o = elim (Bool-cases (ltb 0 usage.output_tokens)) [
  | inl counted ↦ rw counted (option_ends o)
  | inr none_counted ↦ rw none_counted (option_ends o)
]

part_ends :
    (o : Option (String × String)) (index : ℕ) (json : String)
    → ends (map ok (tool_part o index json)) ≡ 0
unfolding tool_part is_end
part_ends none index json = refl
part_ends (some call) index json = refl

-- An event's ends are taken from those that may still come.
api_event-ends_left :
    (e : AnthropicStreamEvent) (s : StreamState)
    → ends (map ok (api_event e s).1) + ends_left (api_event e s).0.end_sent ≤ ends_left s.end_sent
unfolding api_event is_end ends_left
api_event-ends_left (message_start m) s = omega arith
api_event-ends_left (content_block_start index (text_block t)) s = omega arith
api_event-ends_left (content_block_start index (tool_block id name)) s = omega arith
api_event-ends_left (content_block_delta index (text_delta t)) s = omega arith
api_event-ends_left (content_block_delta index (input_json_delta json)) s =
    let nothing = part_ends (lookup_index index s.tool_call_states) index json in omega arith
api_event-ends_left (content_block_stop index) s = omega arith
api_event-ends_left (message_delta d usage) s =
    let (counted, silent) = delta_ends usage d.stop_reason in
    elim (Bool-cases s.end_sent) [
      | inl sent ↦ rw sent (omega arith)
      | inr unsent ↦
          rw unsent (elim (Bool-cases (has_end (emit_message_delta_events usage d.stop_reason))) [
            | inl last ↦ ground arith
            | inr not_last ↦ ground arith
          ])
    ]
api_event-ends_left message_stop s = omega arith
api_event-ends_left ping s = omega arith
api_event-ends_left unknown s = omega arith

item_events-ends_left :
    (item : SseItem) (s : StreamState)
    → ends (item_events item s).1 + ends_left (item_events item s).0.end_sent ≤ ends_left s.end_sent
unfolding item_events
item_events-ends_left (message (ok e)) s = api_event-ends_left e s
item_events-ends_left (message (err e)) s = omega arith
item_events-ends_left (broken e) s = omega arith

scan_events-ends_left :
    (items : List SseItem) (s : StreamState) → ends (scan_events items s) ≤ ends_left s.end_sent
unfolding scan_events
scan_events-ends_left [] s = omega arith
scan_events-ends_left (item ∷ items) s =
    let (s', events) = item_events item s in
    let later = scan_events-ends_left items s' in
    let now = item_events-ends_left item s in
    rw (ends-append events (scan_events items s')) (omega arith)

-- Whatever Anthropic sends, errors and repeated ends included, the stream that comes out of it has at
-- most one end.
pub create_anthropic_stream-ends : (items : List SseItem) → ends (create_anthropic_stream items) ≤ 1
unfolding create_anthropic_stream ends_left
create_anthropic_stream-ends items = scan_events-ends_left items initial
