-- ===== src/Ingress/Anthropic/Blocks.antt =====
-- crates/lunaroute-ingress/src/anthropic.rs: the state of the content blocks of a stream, and the
-- events that one normalized event becomes. A panic of `unwrap` is a result of its own.
use lunaroute.Prelude.{
  ℕ, ◌+◌, ◌%◌, Bool, true, false, ◌&&◌, String, Option, none, some, List, [], ◌∷◌, ◌++◌, ◌==◌,
  if◌then◌else◌, and_then,
}
use lunaroute.Prelude.IndexMaps.{insert_index}
use lunaroute.Prelude.Words.{u32_size}
use lunaroute.Normalized.{
  NormalizedStreamEvent, FunctionCallDelta, FinishReason, start, delta, tool_call_delta,
  usage_event, end_event, error_event, stop, max_length, tool_calls, content_filter, error,
}
use lunaroute.Ingress.Anthropic.{
  AnthropicStreamEvent, message_start, content_block_start, content_block_delta, content_block_stop,
  message_delta, message_stop, text_start, tool_start, text_delta, input_json_delta,
}
use lunaroute.Ingress.Anthropic.ToolIds.{to_anthropic_tool_id}

pub record StreamBlockState : Type 0 where
  pub active_index : Option ℕ
  pub active_is_tool : Bool
  pub active_tool_call_index : Option ℕ
  pub next_index : ℕ
  pub tool_index_map : List (ℕ × ℕ)

abbrev pub default_state : StreamBlockState
default_state = record {
  active_index = none;
  active_is_tool = false;
  active_tool_call_index = none;
  next_index = 0;
  tool_index_map = [];
}

close_at : Option ℕ → StreamBlockState → StreamBlockState × List AnthropicStreamEvent
close_at none s = (s, [])
close_at (some index) s = (
  record s { active_index = none; active_is_tool = false; active_tool_call_index = none },
  content_block_stop index ∷ [],
)

-- `close_active`, with the events that it pushes.
unfoldable pub close_active : StreamBlockState → StreamBlockState × List AnthropicStreamEvent
unfolding close_at
close_active s = close_at s.active_index s

-- `alloc_index`, on a u32 counter that wraps in a release build.
unfoldable pub alloc_index : StreamBlockState → StreamBlockState × ℕ
alloc_index s = (record s { next_index = (s.next_index + 1) % u32_size }, s.next_index)

-- `option == Some(n)`.
unfoldable pub is_index : Option ℕ → ℕ → Bool
is_index none n = false
is_index (some m) n = m == n

unfoldable pub is_active : Option ℕ → Bool
is_active none = false
is_active (some n) = true

-- The new state and the events, or a panic.
pub data Step : Type 0 where
  emits : StreamBlockState → List AnthropicStreamEvent → Step
  panics : Step

-- A delta of the active block; `active_index.unwrap()`.
unfoldable pub emit_delta :
    Option ℕ → (ℕ → AnthropicStreamEvent) → StreamBlockState → List AnthropicStreamEvent → Step
emit_delta none event s events = panics
emit_delta (some index) event s events = emits s (events ++ event index ∷ [])

-- A text block is opened unless a block is active.
unfoldable pub open_text :
    StreamBlockState → List AnthropicStreamEvent → StreamBlockState × List AnthropicStreamEvent
unfolding is_active alloc_index
open_text s events =
    if is_active s.active_index
    then (s, events)
    else (let (s', index) = alloc_index s in
        (
          record s' { active_index = some index; active_is_tool = false },
          events ++ content_block_start index (text_start "") ∷ [],
        ))

-- A tool block is closed before text.
unfoldable pub close_tool : StreamBlockState → StreamBlockState × List AnthropicStreamEvent
unfolding is_active close_active
close_tool s = if is_active s.active_index && s.active_is_tool then close_active s else (s, [])

send_text : Option String → StreamBlockState → List AnthropicStreamEvent → Step
unfolding emit_delta
send_text none s events = emits s events
send_text (some content) s events =
    emit_delta s.active_index (λ index. content_block_delta index (text_delta content)) s events

unfoldable pub text_events : Option String → StreamBlockState → Step
unfolding send_text open_text close_tool
text_events content s =
    let (s', closed) = close_tool s in
    let (s'', opened) = open_text s' closed in send_text content s'' opened

-- Whether the block of this tool call is the active one.
unfoldable pub is_active_tool : StreamBlockState → ℕ → Bool
unfolding is_index
is_active_tool s tool_call_index =
    s.active_is_tool && is_index s.active_tool_call_index tool_call_index

-- A new tool block, once the active one is closed.
unfoldable pub start_tool :
    ℕ → String → String → StreamBlockState → StreamBlockState × List AnthropicStreamEvent
unfolding close_active alloc_index insert_index
start_tool tool_call_index tool_id name s =
    let (s', closed) = close_active s in
    let (s'', index) = alloc_index s' in
    (
      record s'' {
        active_index = some index;
        active_is_tool = true;
        active_tool_call_index = some tool_call_index;
        tool_index_map = insert_index tool_call_index index s''.tool_index_map;
      },
      closed ++ content_block_start index (tool_start tool_id name) ∷ [],
    )

-- Arguments go to the active block, if it is that of the tool call, and are dropped otherwise.
unfoldable pub send_arguments :
    Option String → ℕ → StreamBlockState → List AnthropicStreamEvent → Step
unfolding is_active_tool emit_delta
send_arguments none tool_call_index s events = emits s events
send_arguments (some arguments) tool_call_index s events =
    if is_active_tool s tool_call_index
    then emit_delta s.active_index (λ index. content_block_delta index (input_json_delta arguments))
        s events
    else emits s events

-- `hash` and `uuid` are those of `to_anthropic_tool_id`.
module _ (hash : String → String) (uuid : String) where
  unfoldable pub open_tool :
      Option String
      → Option String
      → ℕ
      → StreamBlockState
      → StreamBlockState × List AnthropicStreamEvent
  unfolding is_active_tool start_tool
  open_tool (some id) (some name) tool_call_index s =
      if is_active_tool s tool_call_index
      then (s, [])
      else start_tool tool_call_index (to_anthropic_tool_id hash uuid id) name s
  open_tool _ _ tool_call_index s = (s, [])

  unfoldable pub tool_events :
      ℕ → Option String → Option FunctionCallDelta → StreamBlockState → Step
  unfolding open_tool send_arguments
  tool_events tool_call_index id function s =
      let (s', opened) = open_tool id (and_then function (λ f. f.name)) tool_call_index s in
      send_arguments (and_then function (λ f. f.arguments)) tool_call_index s' opened

unfoldable pub stop_reason_of : FinishReason → String
stop_reason_of stop = "end_turn"
stop_reason_of max_length = "max_tokens"
stop_reason_of tool_calls = "tool_use"
stop_reason_of content_filter = "end_turn"
stop_reason_of error = "end_turn"

-- The event that a stream starts with.
abbrev pub first_event : String → String → AnthropicStreamEvent
first_event stream_id model = message_start (record {
  id = stream_id;
  start_type = "message";
  role = "assistant";
  model = model;
  usage = record {
    input_tokens = 0;
    output_tokens = 0;
    cache_creation_input_tokens = none;
    cache_read_input_tokens = none;
  };
})

-- `stream_event_to_anthropic_events`.
unfoldable pub stream_event_to_anthropic_events :
    (String → String) → String → NormalizedStreamEvent → String → String → StreamBlockState → Step
unfolding text_events tool_events close_active stop_reason_of
stream_event_to_anthropic_events hash uuid (start id started) stream_id model s =
    emits default_state (first_event stream_id model ∷ [])
stream_event_to_anthropic_events hash uuid (delta index d) stream_id model s =
    text_events d.content s
stream_event_to_anthropic_events hash uuid (tool_call_delta index tool_call_index id function)
      stream_id model s =
    tool_events hash uuid tool_call_index id function s
stream_event_to_anthropic_events hash uuid (usage_event usage) stream_id model s = emits s []
stream_event_to_anthropic_events hash uuid (end_event reason) stream_id model s =
    let (s', closed) = close_active s in
    emits s' (
      closed
      ++ message_delta (record { stop_reason = some (stop_reason_of reason); stop_sequence = none })
          (record { output_tokens = 0; thinking_tokens = none })
        ∷ message_stop
        ∷ [])
stream_event_to_anthropic_events hash uuid (error_event message) stream_id model s = emits s []
