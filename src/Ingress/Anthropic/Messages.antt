-- ===== src/Ingress/Anthropic/Messages.antt =====
-- crates/lunaroute-ingress/src/anthropic.rs: the stream of the handler `messages`, as the `scan` over
-- the provider's stream makes it. Each item of that stream comes with the uuid that a tool id may
-- need. The text of an error is an argument.
use lunaroute.Prelude.{
  ℕ, String, Option, none, some, List, [], ◌∷◌, ◌++◌, Result, ok, err, map, and_then, map_some,
}
use lunaroute.Normalized.{NormalizedStreamEvent, Error}
use lunaroute.Ingress.Anthropic.{AnthropicStreamEvent, content_block_stop, message_stop}
use lunaroute.Ingress.Anthropic.Blocks.{
  StreamBlockState, default_state, Step, emits, panics, stream_event_to_anthropic_events,
}

-- What the client gets: an event of the API, or the payload of an error.
pub data SseEvent : Type 0 where
  event : AnthropicStreamEvent → SseEvent
  error_payload : String → SseEvent

-- An item of the provider's stream, and the uuid at hand for it.
abbrev pub Item : Type 0
Item = String × Result Error NormalizedStreamEvent

-- `block_state.active_index.take()`, which leaves the other fields as they are.
close_on_error : Option ℕ → List SseEvent
close_on_error none = []
close_on_error (some index) = event (content_block_stop index) ∷ []

as_sse : Step → Option (StreamBlockState × List SseEvent)
as_sse (emits s events) = some (s, map event events)
as_sse panics = none

module _ (hash : String → String) (show : Error → String) (stream_id model : String) where
  -- The new state and what is sent, or none after a panic.
  unfoldable pub sse_step : Item → StreamBlockState → Option (StreamBlockState × List SseEvent)
  unfolding as_sse close_on_error
  sse_step (uuid, ok e) s = as_sse (stream_event_to_anthropic_events hash uuid e stream_id model s)
  sse_step (uuid, err e) s = some (
    record s { active_index = none },
    close_on_error s.active_index ++ error_payload (show e) ∷ event message_stop ∷ [],
  )

  -- What the client gets of a whole stream, or none if the task panics.
  unfoldable pub sse_stream : List Item → StreamBlockState → Option (List SseEvent)
  unfolding sse_step
  sse_stream [] s = some []
  sse_stream (item ∷ items) s =
      and_then (sse_step item s)
        (λ stepped. map_some (λ rest. stepped.1 ++ rest) (sse_stream items stepped.0))

  -- The stream of `messages`.
  unfoldable pub messages_stream : List Item → Option (List SseEvent)
  unfolding sse_stream
  messages_stream items = sse_stream items default_state
