-- ===== src/Egress/OpenAi/Requests.antt =====
-- crates/lunaroute-egress/src/openai.rs: `to_openai_request`.
use lunaroute.Prelude.{
  Bool, not, ◌&&◌, ◌||◌, String, Option, none, some, map, if◌then◌else◌, map_some, filter_map,
  non_empty, is_empty,
}
use lunaroute.Prelude.Texts.{begins_with, join, is_empty_text}
use lunaroute.Normalized.{
  NormalizedRequest, Message, MessageContent, text_content, parts, ContentPart, text_part, image,
  Role, system, user, assistant, tool, ToolCall, Tool, ToolChoice, auto, required, no_tool,
  specific,
}
use lunaroute.Egress.OpenAi.{
  OpenAiChatRequest, OpenAiMessage, OpenAiToolCall, OpenAiTool, OpenAiToolChoice, string, object,
}

unfoldable pub role_name : Role → String
role_name system = "system"
role_name user = "user"
role_name assistant = "assistant"
role_name tool = "tool"

abbrev pub text_of_part : ContentPart → Option String
text_of_part (text_part text) = some text
text_of_part (image source) = none

-- The text of a message: none for an empty text beside tool calls, or for parts without text.
unfoldable pub content_text : MessageContent → Bool → Option String
content_text (text_content text) has_tool_calls =
    if is_empty_text text && has_tool_calls then none else some text
content_text (parts ps) has_tool_calls =
    let text = join "\n" (filter_map text_of_part ps) in
    if is_empty_text text then none else some text

abbrev pub to_openai_tool_call : ToolCall → OpenAiToolCall
to_openai_tool_call tc = record {
  id = tc.id;
  tool_type = tc.tool_type;
  function = record { name = tc.function.name; arguments = tc.function.arguments };
}

unfoldable pub to_openai_message : Message → OpenAiMessage
unfolding role_name content_text
to_openai_message msg = record {
  role = role_name msg.role;
  content = content_text msg.content (not (is_empty msg.tool_calls));
  name = msg.name;
  tool_calls = map_some (map to_openai_tool_call) (non_empty msg.tool_calls);
  tool_call_id = msg.tool_call_id;
}

abbrev pub to_openai_tool : Tool → OpenAiTool
to_openai_tool t = record {
  tool_type = t.tool_type;
  function = record {
    name = t.function.name;
    description = t.function.description;
    parameters = t.function.parameters;
  };
}

unfoldable pub to_openai_tool_choice : ToolChoice → OpenAiToolChoice
to_openai_tool_choice auto = string "auto"
to_openai_tool_choice required = string "required"
to_openai_tool_choice no_tool = string "none"
to_openai_tool_choice (specific name) = object "function" (record { name = name })

-- The models that take `max_completion_tokens` instead of `max_tokens`.
unfoldable pub is_gpt5 : String → Bool
is_gpt5 model = begins_with "gpt-5" model || (begins_with "o1" model || begins_with "o3" model)

unfoldable pub to_openai_request : NormalizedRequest → OpenAiChatRequest
unfolding to_openai_message to_openai_tool_choice
to_openai_request req = record {
  model = req.model;
  messages = map to_openai_message req.messages;
  temperature = req.temperature;
  top_p = req.top_p;
  max_tokens = if is_gpt5 req.model then none else req.max_tokens;
  max_completion_tokens = if is_gpt5 req.model then req.max_tokens else none;
  stream = some req.stream;
  stop = non_empty req.stop_sequences;
  tools = map_some (map to_openai_tool) (non_empty req.tools);
  tool_choice = map_some to_openai_tool_choice req.tool_choice;
}
