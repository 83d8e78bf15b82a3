-- ===== src/Egress/Anthropic/Requests.antt =====
-- crates/lunaroute-egress/src/anthropic.rs: `to_anthropic_request`. `from_str` is serde_json's reading
-- of a value, if the text is one.
use lunaroute.Prelude.{
  Bool, true, false, String, Option, none, some, List, [], ◌∷◌, ◌++◌, map, map_some, value_or,
  filter_map, non_empty,
}
use lunaroute.Prelude.Texts.{join}
use lunaroute.Normalized.{
  Json, null, NormalizedRequest, Message, MessageContent, text_content, parts, ContentPart,
  text_part, image, Role, system, user, assistant, tool, ToolCall, Tool,
}
use lunaroute.Egress.Anthropic.{
  AnthropicRequest, AnthropicMessage, AnthropicContent, AnthropicContentBlock, AnthropicTool, text,
  tool_use, tool_result, blocks,
}
use lunaroute.Egress.Anthropic

unfoldable pub is_system : Role → Bool
is_system system = true
is_system _ = false

abbrev text_of_part : ContentPart → Option String
text_of_part (text_part s) = some s
text_of_part (image source) = none

-- `parts` without a text give none.
unfoldable pub system_text : MessageContent → Option String
system_text (text_content s) = some s
system_text (parts ps) = map_some (join "\n") (non_empty (filter_map text_of_part ps))

-- The text of the first system message.
unfoldable pub find_system : List Message → Option String
unfolding is_system system_text
find_system [] = none
find_system (m ∷ ms) = elim (is_system m.role) [
  | true ↦ system_text m.content
  | false ↦ find_system ms
]

unfoldable pub role_name : Role → String
role_name user = "user"
role_name assistant = "assistant"
role_name tool = "user"
role_name system = "user"

to_tool : Tool → AnthropicTool
to_tool t = record {
  name = t.function.name;
  description = t.function.description;
  input_schema = t.function.parameters;
}

part_block : ContentPart → Option AnthropicContentBlock
part_block (text_part s) = some (text s)
part_block (image source) = none

-- The result that a message with parts carries.
result_blocks : Option String → List ContentPart → List AnthropicContentBlock
result_blocks none ps = []
result_blocks (some id) ps = tool_result id (join "\n" (filter_map text_of_part ps)) none ∷ []

module _ (from_str : String → Option Json) where
  tool_use_block : ToolCall → AnthropicContentBlock
  tool_use_block call =
      tool_use call.id call.function.name (value_or (from_str call.function.arguments) null)

  -- A plain text goes alone; tool calls and a tool's result are added only to parts.
  unfoldable pub content_of : MessageContent → List ToolCall → Option String → AnthropicContent
  unfolding part_block tool_use_block result_blocks
  content_of (text_content s) calls id = Anthropic.text_content s
  content_of (parts ps) calls id =
      blocks (filter_map part_block ps ++ (map tool_use_block calls ++ result_blocks id ps))

  unfoldable pub to_anthropic_message : Message → AnthropicMessage
  unfolding role_name content_of
  to_anthropic_message m = record {
    role = role_name m.role;
    content = content_of m.content m.tool_calls m.tool_call_id;
  }

  -- The messages that are not the system's.
  unfoldable pub to_anthropic_messages : List Message → List AnthropicMessage
  unfolding is_system to_anthropic_message
  to_anthropic_messages [] = []
  to_anthropic_messages (m ∷ ms) = elim (is_system m.role) [
    | true ↦ to_anthropic_messages ms
    | false ↦ to_anthropic_message m ∷ to_anthropic_messages ms
  ]

  unfoldable pub to_anthropic_request : NormalizedRequest → AnthropicRequest
  unfolding find_system to_anthropic_messages to_tool
  to_anthropic_request req = record {
    model = req.model;
    messages = to_anthropic_messages req.messages;
    max_tokens = value_or req.max_tokens 4096;
    system = find_system req.messages;
    temperature = req.temperature;
    top_p = req.top_p;
    top_k = req.top_k;
    stop_sequences = non_empty req.stop_sequences;
    stream = none;
    tools = map_some (map to_tool) (non_empty req.tools);
  }
