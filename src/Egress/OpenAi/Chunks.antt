-- ===== src/Egress/OpenAi/Chunks.antt =====
-- crates/lunaroute-egress/src/openai.rs: `create_openai_stream`. The byte stream and the reading of
-- JSON are libraries: an item is an event's data with what it parses to, or an error of the stream.
use Prim.Native.String.{◌++◌ as str_append}
use lunaroute.Prelude.{
  String, Option, none, some, List, if◌then◌else◌, str_eq, Result, ok, err, map_some, and_then,
  first, filter_map,
}
use lunaroute.Normalized.{
  NormalizedStreamEvent, delta, tool_call_delta, usage_event, end_event, Error, provider_error,
  Role, system, user, assistant, tool, FinishReason, stop, max_length, tool_calls, content_filter,
}
use lunaroute.Egress.OpenAi.{
  OpenAiStreamChunk, OpenAiStreamChoice, OpenAiToolCallDelta, OpenAiUsage,
}

pub data SseItem : Type 0 where
  message : String → Result String OpenAiStreamChunk → SseItem
  broken : String → SseItem

unfoldable pub delta_role : String → Option Role
delta_role role =
    if str_eq role "assistant"
    then some assistant
    else (if str_eq role "user"
        then some user
        else (if str_eq role "system"
            then some system
            else (if str_eq role "tool" then some tool else none)))

-- Any other reason is taken for a stop.
unfoldable pub end_reason : String → FinishReason
end_reason reason =
    if str_eq reason "stop"
    then stop
    else (if str_eq reason "length"
        then max_length
        else (if str_eq reason "tool_calls"
            then tool_calls
            else (if str_eq reason "content_filter" then content_filter else stop)))

-- Only the first tool call of a chunk becomes an event.
tool_event : OpenAiStreamChoice → Option OpenAiToolCallDelta → Option NormalizedStreamEvent
tool_event choice none = none
tool_event choice (some call) = some (
    tool_call_delta choice.index call.index call.id
      (map_some (λ f. record { name = f.name; arguments = f.arguments }) call.function))

delta_event : OpenAiStreamChoice → Option String → Option NormalizedStreamEvent
unfolding tool_event delta_role
delta_event choice (some content) = some (
    delta choice.index
      (record { role = and_then choice.delta.role delta_role; content = some content }))
delta_event choice none = tool_event choice (and_then choice.delta.tool_calls first)

unfoldable pub choice_event : OpenAiStreamChoice → Option String → Option NormalizedStreamEvent
unfolding delta_event end_reason
choice_event choice (some reason) = some (end_event (end_reason reason))
choice_event choice none = delta_event choice choice.delta.content

-- A chunk that reports usage becomes that report alone.
unfoldable pub chunk_event : OpenAiStreamChunk → Option OpenAiUsage → Option NormalizedStreamEvent
unfolding choice_event
chunk_event chunk (some usage) = some (
    usage_event (record {
      prompt_tokens = usage.prompt_tokens;
      completion_tokens = usage.completion_tokens;
      total_tokens = usage.total_tokens;
    }))
chunk_event chunk none =
    and_then (first chunk.choices) (λ choice. choice_event choice choice.finish_reason)

parsed_event : Result String OpenAiStreamChunk → Option (Result Error NormalizedStreamEvent)
unfolding chunk_event
parsed_event (ok chunk) = map_some ok (chunk_event chunk chunk.usage)
parsed_event (err e) =
    some (err (provider_error (str_append "Failed to parse OpenAI stream chunk: " e)))

unfoldable pub item_event : SseItem → Option (Result Error NormalizedStreamEvent)
unfolding parsed_event
item_event (message text parsed) = if str_eq text "[DONE]" then none else parsed_event parsed
item_event (broken e) = some (err (provider_error (str_append "Stream error: " e)))

-- `create_openai_stream`.
unfoldable pub create_openai_stream : List SseItem → List (Result Error NormalizedStreamEvent)
unfolding item_event
create_openai_stream items = filter_map item_event items
