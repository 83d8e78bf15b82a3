-- ===== src/Egress/Anthropic/Responses.antt =====
-- crates/lunaroute-egress/src/anthropic.rs: `from_anthropic_response`, with serde_json's printing of a
-- value and the time as arguments.
use Prim.Native.String.{◌++◌ as str_append}
use lunaroute.Prelude.{
  ◌+◌, ◌%◌, String, Option, none, some, List, [], ◌∷◌, if◌then◌else◌, str_eq, filter_map,
}
use lunaroute.Prelude.Int.{ℤ}
use lunaroute.Prelude.Texts.{is_empty_text}
use lunaroute.Prelude.Words.{u32_size}
use lunaroute.Normalized.{
  Json, NormalizedResponse, FinishReason, stop, max_length, tool_calls, ToolCall, assistant,
  text_content,
}
use lunaroute.Egress.Anthropic.{
  AnthropicResponse, AnthropicContentBlock, text, tool_use, tool_result,
}

-- The texts of the blocks, one to a line, after what has been gathered.
unfoldable pub gather_text : String → List AnthropicContentBlock → String
gather_text gathered [] = gathered
gather_text gathered (text s ∷ rest) =
    gather_text
      (str_append (if is_empty_text gathered then gathered else str_append gathered "\n") s) rest
gather_text gathered (tool_use id name input ∷ rest) = gather_text gathered rest
gather_text gathered (tool_result id content is_error ∷ rest) = gather_text gathered rest

-- Any other reason, and none, is taken for a stop.
unfoldable pub stop_reason : Option String → FinishReason
stop_reason none = stop
stop_reason (some reason) =
    if str_eq reason "end_turn"
    then stop
    else (if str_eq reason "max_tokens"
        then max_length
        else (if str_eq reason "tool_use" then tool_calls else stop))

module _ (to_string : Json → String) where
  unfoldable pub tool_call : AnthropicContentBlock → Option ToolCall
  tool_call (tool_use id name input) = some (record {
    id = id;
    tool_type = "function";
    function = record { name = name; arguments = to_string input };
  })
  tool_call (text s) = none
  tool_call (tool_result id content is_error) = none

  unfoldable pub from_anthropic_response : AnthropicResponse → ℤ → NormalizedResponse
  unfolding gather_text stop_reason tool_call
  from_anthropic_response resp now = record {
    id = resp.id;
    model = resp.model;
    choices =
        record {
          index = 0;
          message = record {
            role = assistant;
            content = text_content (gather_text "" resp.content);
            name = none;
            tool_calls = filter_map tool_call resp.content;
            tool_call_id = none;
          };
          finish_reason = some (stop_reason resp.stop_reason);
        }
        ∷ [];
    usage = record {
      prompt_tokens = resp.usage.input_tokens;
      completion_tokens = resp.usage.output_tokens;
      total_tokens = (resp.usage.input_tokens + resp.usage.output_tokens) % u32_size;
    };
    created = now;
    metadata = [];
  }
