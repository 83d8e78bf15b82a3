-- ===== src/Ingress/OpenAi/Responses.antt =====
-- crates/lunaroute-ingress/src/openai.rs: `from_normalized`.
use lunaroute.Prelude.{
  Bool, not, ◌&&◌, String, Option, none, some, map, if◌then◌else◌, map_some, filter_map, non_empty,
  is_empty,
}
use lunaroute.Prelude.Texts.{join, is_empty_text}
use lunaroute.Normalized.{
  NormalizedResponse, Choice, MessageContent, text_content, parts, ContentPart, text_part, image,
  FinishReason, stop, max_length, tool_calls, content_filter, error, ToolCall,
}
use lunaroute.Ingress.OpenAi.{OpenAiChatResponse, OpenAiChoice, OpenAiToolCall}

abbrev text_of_part : ContentPart → Option String
text_of_part (text_part text) = some text
text_of_part (image source) = none

-- Parts without text have none, and an empty text beside tool calls is none.
unfoldable pub response_text : MessageContent → Bool → Option String
response_text (text_content text) has_tool_calls =
    if is_empty_text text && has_tool_calls then none else some text
response_text (parts ps) has_tool_calls =
    map_some (join "\n") (non_empty (filter_map text_of_part ps))

unfoldable pub finish_reason_name : FinishReason → String
finish_reason_name stop = "stop"
finish_reason_name max_length = "length"
finish_reason_name tool_calls = "tool_calls"
finish_reason_name content_filter = "content_filter"
finish_reason_name error = "error"

abbrev pub from_tool_call : ToolCall → OpenAiToolCall
from_tool_call call = record {
  id = call.id;
  tool_type = call.tool_type;
  function = record { name = call.function.name; arguments = call.function.arguments };
}

unfoldable pub from_choice : Choice → OpenAiChoice
unfolding response_text finish_reason_name
from_choice choice = record {
  index = choice.index;
  message = record {
    role = "assistant";
    content = response_text choice.message.content (not (is_empty choice.message.tool_calls));
    name = choice.message.name;
    tool_calls = map_some (map from_tool_call) (non_empty choice.message.tool_calls);
    tool_call_id = choice.message.tool_call_id;
  };
  finish_reason = map_some finish_reason_name choice.finish_reason;
}

unfoldable pub from_normalized : NormalizedResponse → OpenAiChatResponse
unfolding from_choice
from_normalized resp = record {
  id = resp.id;
  object_type = "chat.completion";
  created = resp.created;
  model = resp.model;
  choices = map from_choice resp.choices;
  usage = record {
    prompt_tokens = resp.usage.prompt_tokens;
    completion_tokens = resp.usage.completion_tokens;
    total_tokens = resp.usage.total_tokens;
    prompt_tokens_details = none;
    completion_tokens_details = none;
  };
}
