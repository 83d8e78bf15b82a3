-- ===== src/Ingress/Anthropic/Responses.antt =====
-- crates/lunaroute-ingress/src/anthropic.rs: `from_normalized`. serde_json's reading of a value, and the
-- hash and the uuids of `to_anthropic_tool_id`, are arguments.
use lunaroute.Prelude.{
  ℕ, ◌+◌, String, Option, none, some, List, [], ◌∷◌, ◌++◌, if◌then◌else◌, map_some, and_then,
  value_or, filter_map, first,
}
use lunaroute.Prelude.Texts.{is_empty_text}
use lunaroute.Normalized.{
  Json, end, object, NormalizedResponse, Choice, MessageContent, text_content, parts, ContentPart,
  text_part, image, ToolCall,
}
use lunaroute.Ingress.Anthropic.{AnthropicResponse, AnthropicContent}
use lunaroute.Ingress.Anthropic.ToolIds.{to_anthropic_tool_id}
use lunaroute.Ingress.Anthropic.Blocks.{stop_reason_of}

-- An empty text makes no block.
unfoldable pub text_block : String → Option AnthropicContent
text_block s = if is_empty_text s then none else some (AnthropicContent.text s)

unfoldable pub part_block : ContentPart → Option AnthropicContent
unfolding text_block
part_block (text_part s) = text_block s
part_block (image source) = none

unfoldable pub text_blocks : MessageContent → List AnthropicContent
unfolding part_block
text_blocks (text_content s) = filter_map text_block (s ∷ [])
text_blocks (parts ps) = filter_map part_block ps

module _ (from_str : String → Option Json) (hash : String → String) (uuids : ℕ → String) where
  -- The tool calls from the given place on. Arguments that are no JSON become an empty object.
  unfoldable pub tool_blocks : ℕ → List ToolCall → List AnthropicContent
  tool_blocks i [] = []
  tool_blocks i (call ∷ calls) =
      AnthropicContent.tool_use (to_anthropic_tool_id hash (uuids i) call.id) call.function.name
        (value_or (from_str call.function.arguments) (object end))
      ∷ tool_blocks (i + 1) calls

  unfoldable pub choice_blocks : Choice → List AnthropicContent
  unfolding text_blocks tool_blocks
  choice_blocks c = text_blocks c.message.content ++ tool_blocks 0 c.message.tool_calls

  -- Only the first choice is kept.
  unfoldable pub from_normalized : NormalizedResponse → AnthropicResponse
  unfolding choice_blocks
  from_normalized resp = record {
    id = resp.id;
    response_type = "message";
    role = "assistant";
    content = value_or (map_some choice_blocks (first resp.choices)) [];
    model = resp.model;
    stop_reason = map_some stop_reason_of (and_then (first resp.choices) (λ c. c.finish_reason));
    stop_sequence = none;
    usage = record {
      input_tokens = resp.usage.prompt_tokens;
      output_tokens = resp.usage.completion_tokens;
      cache_creation_input_tokens = none;
      cache_read_input_tokens = none;
    };
  }
