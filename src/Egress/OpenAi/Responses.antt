-- ===== src/Egress/OpenAi/Responses.antt =====
-- crates/lunaroute-egress/src/openai.rs: `from_openai_response`.
use lunaroute.Prelude.{
  String, Option, none, some, [], map, if◌then◌else◌, str_eq, and_then, value_or,
}
use lunaroute.Normalized.{
  NormalizedResponse, Choice, Role, system, user, assistant, tool, FinishReason, stop, max_length,
  tool_calls, content_filter, text_content, ToolCall,
}
use lunaroute.Egress.OpenAi.{OpenAiChatResponse, OpenAiChoice, OpenAiToolCall}

-- Any other role is taken for the assistant.
unfoldable pub role_of : String → Role
role_of role =
    if str_eq role "assistant"
    then assistant
    else (if str_eq role "system"
        then system
        else (if str_eq role "user"
            then user
            else (if str_eq role "tool" then tool else assistant)))

unfoldable pub finish_reason_of : String → Option FinishReason
finish_reason_of reason =
    if str_eq reason "stop"
    then some stop
    else (if str_eq reason "length"
        then some max_length
        else (if str_eq reason "tool_calls"
            then some tool_calls
            else (if str_eq reason "content_filter" then some content_filter else none)))

abbrev pub from_openai_tool_call : OpenAiToolCall → ToolCall
from_openai_tool_call tc = record {
  id = tc.id;
  tool_type = tc.tool_type;
  function = record { name = tc.function.name; arguments = tc.function.arguments };
}

unfoldable pub from_openai_choice : OpenAiChoice → Choice
unfolding role_of finish_reason_of
from_openai_choice choice = record {
  index = choice.index;
  message = record {
    role = role_of choice.message.role;
    content = text_content (value_or choice.message.content "");
    name = choice.message.name;
    tool_calls = map from_openai_tool_call (value_or choice.message.tool_calls []);
    tool_call_id = choice.message.tool_call_id;
  };
  finish_reason = and_then choice.finish_reason finish_reason_of;
}

unfoldable pub from_openai_response : OpenAiChatResponse → NormalizedResponse
unfolding from_openai_choice
from_openai_response resp = record {
  id = resp.id;
  model = resp.model;
  choices = map from_openai_choice resp.choices;
  usage = record {
    prompt_tokens = resp.usage.prompt_tokens;
    completion_tokens = resp.usage.completion_tokens;
    total_tokens = resp.usage.total_tokens;
  };
  created = resp.created;
  metadata = [];
}
