-- ===== src/Dialects/ErrorPanic.antt =====
-- An error within a tool call, in the stream of an Anthropic client.
use lunaroute.Prelude.{
  ℕ, ◌≡◌, refl, true, String, Option, none, some, List, [], ◌∷◌, arith, ok, err,
}
use lunaroute.Normalized.{Error, start, tool_call_delta}
use lunaroute.Ingress.Anthropic.Blocks.{
  emits, panics, tool_events, default_state, stream_event_to_anthropic_events,
}
use lunaroute.Ingress.Anthropic.{
  AnthropicStreamEvent, content_block_start, content_block_delta, tool_start, input_json_delta,
}
use lunaroute.Ingress.Anthropic.ToolIds.{to_anthropic_tool_id}
use lunaroute.Dialects.Conformance.{state}
use lunaroute.Ingress.Anthropic.Messages.{Item, sse_stream, messages_stream}

-- A tool call opens its block.
opened :
    (hash : String → String) (u id name : String) (k : ℕ) (arguments : Option String)
    → (es : List AnthropicStreamEvent) × (tool_events hash u k
          (some id)
          (some (record { name = some name; arguments = arguments }))
          default_state
        ≡ emits (state (some 0) true (some k) 1 ((k, 0) ∷ [])) es)
unfolding tool_events
opened hash u id name k none = (_, refl)
opened hash u id name k (some a) = (
  content_block_start 0 (tool_start (to_anthropic_tool_id hash u id) name)
      ∷ content_block_delta 0 (input_json_delta a)
      ∷ [],
  ground arith,
)

-- Arguments for a block that was closed on an error, whose tool is still taken for active.
closed :
    (hash : String → String) (u : String) (k n : ℕ) (m : List (ℕ × ℕ)) (id name : Option String)
    (arguments : String)
    → tool_events hash u k id
        (some (record { name = name; arguments = some arguments }))
        (state none true (some k) n m)
      ≡ panics
unfolding tool_events
closed hash u k n m none name arguments = ground arith
closed hash u k n m (some id) none arguments = ground arith
closed hash u k n m (some id) (some name) arguments = ground arith

module _ (hash : String → String) (show : Error → String) (stream_id model : String) where
  -- A stream that opens with its start, one part of a tool call that has the id and the name of the
  -- tool, an error of the provider, and then, with nothing between, more arguments of the same tool
  -- call makes the task that serves the client panic, whatever follows these four items.
  pub error_in_tool_call_panics :
      (u u₁ u₂ u₃ id₀ m id name : String) (index index' k : ℕ)
      (first_arguments id' name' : Option String) (arguments : String) (e : Error)
      (rest : List Item)
      → messages_stream hash show stream_id model (
          (u, ok (start id₀ m))
          ∷ (
            u₁,
            ok (
                tool_call_delta index k
                  (some id)
                  (some (record { name = some name; arguments = first_arguments }))),
          )
          ∷ (u₂, err e)
          ∷ (
            u₃,
            ok (
                tool_call_delta index' k id'
                  (some (record { name = name'; arguments = some arguments }))),
          )
          ∷ rest)
        ≡ none
  unfolding messages_stream sse_stream stream_event_to_anthropic_events
  error_in_tool_call_panics u u₁ u₂ u₃ id₀ m id name index index' k first_arguments id' name'
        arguments e rest =
      let (es, began) = opened hash u₁ id name k first_arguments in rw (began, closed) refl
