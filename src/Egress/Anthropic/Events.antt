-- ===== src/Egress/Anthropic/Events.antt =====
-- crates/lunaroute-egress/src/anthropic.rs: `create_anthropic_stream`. The byte stream and the reading
-- of JSON are libraries: an item is what an event's data parses to, or an error of the stream.
use Prim.Native.String.{◌++◌ as str_append}
use lunaroute.Prelude.{
  ℕ, Bool, true, false, ◌||◌, String, Option, none, some, List, [], ◌∷◌, ◌++◌, ltb, if◌then◌else◌,
  Result, ok, err, map,
}
use lunaroute.Prelude.IndexMaps.{lookup_index, insert_index, remove_index}
use lunaroute.Normalized.{
  NormalizedStreamEvent, start, delta, tool_call_delta, usage_event, end_event, Error,
  provider_error,
}
use lunaroute.Egress.Anthropic.{
  AnthropicStreamEvent, AnthropicStreamUsage, message_start, content_block_start,
  content_block_delta, content_block_stop, message_delta, message_stop, ping, unknown, text_block,
  tool_block, text_delta, input_json_delta,
}
use lunaroute.Egress.Anthropic.Responses.{stop_reason}

pub data SseItem : Type 0 where
  message : Result String AnthropicStreamEvent → SseItem
  broken : String → SseItem

pub record StreamState : Type 0 where
  pub stream_id : Option String
  pub tool_call_states : List (ℕ × (String × String))
  pub tool_args_buffers : List (ℕ × String)
  pub end_sent : Bool

abbrev pub initial : StreamState
initial = record {
  stream_id = none;
  tool_call_states = [];
  tool_args_buffers = [];
  end_sent = false;
}

unfoldable pub end_events : Option String → List NormalizedStreamEvent
unfolding stop_reason
end_events none = []
end_events (some reason) = end_event (stop_reason (some reason)) ∷ []

-- `emit_message_delta_events`: usage first, then the end.
unfoldable pub emit_message_delta_events :
    AnthropicStreamUsage → Option String → List NormalizedStreamEvent
unfolding end_events
emit_message_delta_events usage reason =
    (if ltb 0 usage.output_tokens
      then usage_event (record {
        prompt_tokens = 0;
        completion_tokens = usage.output_tokens;
        total_tokens = usage.output_tokens;
      })
        ∷ []
      else [])
    ++ end_events reason

unfoldable pub is_end : NormalizedStreamEvent → Bool
is_end (end_event reason) = true
is_end _ = false

unfoldable pub has_end : List NormalizedStreamEvent → Bool
has_end [] = false
has_end (e ∷ es) = is_end e || has_end es

unfoldable pub without_end : List NormalizedStreamEvent → List NormalizedStreamEvent
without_end [] = []
without_end (e ∷ es) = let rest = without_end es in if is_end e then rest else e ∷ rest

append_to : Option String → ℕ → String → List (ℕ × String) → List (ℕ × String)
append_to none index json buffers = buffers
append_to (some buffer) index json buffers = insert_index index (str_append buffer json) buffers

-- Every part of a tool's arguments comes with the id and the name, under the tool call index 0.
unfoldable pub tool_part : Option (String × String) → ℕ → String → List NormalizedStreamEvent
tool_part none index json = []
tool_part (some (id, name)) index json =
    tool_call_delta index 0 (some id) (some (record { name = some name; arguments = some json }))
    ∷ []

-- One event of the API.
unfoldable pub api_event :
    AnthropicStreamEvent → StreamState → StreamState × List NormalizedStreamEvent
unfolding emit_message_delta_events is_end has_end without_end append_to tool_part
api_event (message_start m) s = (record s { stream_id = some m.id }, start m.id m.model ∷ [])
api_event (content_block_start index (text_block t)) s = (s, [])
api_event (content_block_start index (tool_block id name)) s = (
  record s {
    tool_call_states = insert_index index (id, name) s.tool_call_states;
    tool_args_buffers = insert_index index "" s.tool_args_buffers;
  },
  [],
)
api_event (content_block_delta index (text_delta t)) s =
    (s, delta index (record { role = none; content = some t }) ∷ [])
api_event (content_block_delta index (input_json_delta json)) s = (
  record s {
    tool_args_buffers =
        append_to (lookup_index index s.tool_args_buffers) index json s.tool_args_buffers;
  },
  tool_part (lookup_index index s.tool_call_states) index json,
)
api_event (content_block_stop index) s = (
  record s {
    tool_call_states = remove_index index s.tool_call_states;
    tool_args_buffers = remove_index index s.tool_args_buffers;
  },
  [],
)
api_event (message_delta d usage) s =
    let events = emit_message_delta_events usage d.stop_reason in
    if s.end_sent then (s, without_end events) else (record s { end_sent = has_end events }, events)
api_event message_stop s = (s, [])
api_event ping s = (s, [])
api_event unknown s = (s, [])

unfoldable pub item_events :
    SseItem → StreamState → StreamState × List (Result Error NormalizedStreamEvent)
unfolding api_event
item_events (message (ok e)) s = let (s', events) = api_event e s in (s', map ok events)
item_events (message (err e)) s =
    (s, err (provider_error (str_append "Failed to parse stream event: " e)) ∷ [])
item_events (broken e) s = (s, err (provider_error (str_append "SSE stream error: " e)) ∷ [])

-- `create_anthropic_stream`, from a state of the scan.
unfoldable pub scan_events : List SseItem → StreamState → List (Result Error NormalizedStreamEvent)
unfolding item_events
scan_events [] s = []
scan_events (item ∷ items) s =
    let (s', events) = item_events item s in events ++ scan_events items s'

unfoldable pub create_anthropic_stream : List SseItem → List (Result Error NormalizedStreamEvent)
unfolding scan_events
create_anthropic_stream items = scan_events items initial
