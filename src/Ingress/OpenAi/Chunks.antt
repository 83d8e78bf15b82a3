-- ===== src/Ingress/OpenAi/Chunks.antt =====
-- crates/lunaroute-ingress/src/openai.rs: `stream_event_to_openai_chunk`, with the time as an
-- argument.
use lunaroute.Prelude.{String, Option, none, some, List, [], ◌∷◌, map_some}
use lunaroute.Prelude.Int.{ℤ}
use lunaroute.Normalized.{
  NormalizedStreamEvent, start, delta, tool_call_delta, usage_event, end_event, error_event, Role,
  system, user, assistant, tool,
}
use lunaroute.Ingress.OpenAi.{OpenAiStreamChunk, OpenAiStreamChoice, OpenAiUsage}
use lunaroute.Ingress.OpenAi.Responses.{finish_reason_name}

unfoldable pub role_name : Role → String
role_name system = "system"
role_name user = "user"
role_name assistant = "assistant"
role_name tool = "tool"

abbrev chunk :
    String → String → ℤ → List OpenAiStreamChoice → Option OpenAiUsage → OpenAiStreamChunk
chunk stream_id model now choices usage = record {
  id = stream_id;
  object_type = "chat.completion.chunk";
  created = now;
  model = model;
  choices = choices;
  usage = usage;
}

unfoldable pub stream_event_to_openai_chunk :
    NormalizedStreamEvent → String → String → ℤ → Option OpenAiStreamChunk
unfolding role_name finish_reason_name
stream_event_to_openai_chunk (start id m) stream_id model now = none
stream_event_to_openai_chunk (delta index d) stream_id model now = some (
    chunk stream_id model now
      (record {
        index = index;
        delta = record { role = map_some role_name d.role; content = d.content; tool_calls = none };
        finish_reason = none;
      }
        ∷ [])
      none)
stream_event_to_openai_chunk (tool_call_delta index tool_call_index id function) stream_id model
      now =
    some (
      chunk stream_id model now
        (record {
          index = index;
          delta = record {
            role = none;
            content = none;
            tool_calls = some (
                record {
                  index = tool_call_index;
                  id = id;
                  tool_type = some "function";
                  function =
                      map_some (λ f. record { name = f.name; arguments = f.arguments }) function;
                }
                ∷ []);
          };
          finish_reason = none;
        }
          ∷ [])
        none)
stream_event_to_openai_chunk (usage_event usage) stream_id model now = some (
    chunk stream_id model now [] (
      some (record {
        prompt_tokens = usage.prompt_tokens;
        completion_tokens = usage.completion_tokens;
        total_tokens = usage.total_tokens;
        prompt_tokens_details = none;
        completion_tokens_details = none;
      })))
stream_event_to_openai_chunk (end_event reason) stream_id model now = some (
    chunk stream_id model now
      (record {
        index = 0;
        delta = record { role = none; content = none; tool_calls = none };
        finish_reason = some (finish_reason_name reason);
      }
        ∷ [])
      none)
stream_event_to_openai_chunk (error_event message) stream_id model now = none
