-- ===== src/Dialects/ParallelTools.antt =====
-- Two tool calls of one answer of Anthropic, streamed to an Anthropic client.
use lunaroute.Prelude.{ℕ, String, none, some, List, [], ◌∷◌, map, Result, ok}
use lunaroute.Normalized.{NormalizedStreamEvent, Error, tool_call_delta}
use lunaroute.Ingress.Anthropic
use lunaroute.Ingress.Anthropic.Messages.{Item}
use lunaroute.Egress.Anthropic.{
  AnthropicStreamMessage, message_start, content_block_start, content_block_delta,
  content_block_stop, message_delta, message_stop, tool_block, input_json_delta,
}
use lunaroute.Egress.Anthropic.Events.{SseItem, message}

-- Two tool calls, one after the other, as Anthropic streams them.
abbrev pub two_tools :
    AnthropicStreamMessage
    → ℕ
    → ℕ
    → String
    → String
    → String
    → String
    → String
    → String
    → List SseItem
two_tools m i j id name json id' name' json' =
    message (ok (message_start m))
    ∷ message (ok (content_block_start i (tool_block id name)))
    ∷ message (ok (content_block_delta i (input_json_delta json)))
    ∷ message (ok (content_block_stop i))
    ∷ message (ok (content_block_start j (tool_block id' name')))
    ∷ message (ok (content_block_delta j (input_json_delta json')))
    ∷ message (ok (content_block_stop j))
    ∷ message (
        ok (
          message_delta (record { stop_reason = some "tool_use"; stop_sequence = none })
            (record { output_tokens = 0 })))
    ∷ message (ok message_stop)
    ∷ []

-- Each item with the uuid at hand.
abbrev pub with_uuid : String → List (Result Error NormalizedStreamEvent) → List Item
with_uuid uuid items = map (λ r. (uuid, r)) items

abbrev part : ℕ → String → String → String → Result Error NormalizedStreamEvent
part i id name json =
    ok (tool_call_delta i 0 (some id) (some (record { name = some name; arguments = some json })))
