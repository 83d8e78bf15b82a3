-- ===== src/Dialects/Conformance.antt =====
-- The stream that an Anthropic client gets keeps to the protocol.
use lunaroute.Prelude.{
  ℕ, ◌≡◌, refl, Bool, true, false, String, Option, none, some, List, [], arith, Bool-cases, inl,
  inr, and_then, ◌∙◌,
}
use lunaroute.Normalized.{
  NormalizedStreamEvent, FunctionCallDelta, Delta, Usage, delta, tool_call_delta, usage_event,
  error_event,
}
use lunaroute.Ingress.Anthropic.{AnthropicStreamEvent, content_block_delta, input_json_delta}
use lunaroute.Ingress.Anthropic.Blocks.{
  StreamBlockState, Step, emits, text_events, tool_events, stream_event_to_anthropic_events,
  open_tool, start_tool, is_active_tool, send_arguments, emit_delta,
}
use lunaroute.Dialects.Protocol.{Phase, content, accept, accept-append}

abbrev pub block_of : Option ℕ → Bool → Option (ℕ × Bool)
block_of none is_tool = none
block_of (some index) is_tool = some (index, is_tool)

-- The phase that a state of the blocks stands for.
abbrev pub phase_of : StreamBlockState → Phase
phase_of s = content (block_of s.active_index s.active_is_tool) s.next_index

-- Without an active block none is a tool's.
abbrev pub IsTidy : StreamBlockState → Type 0
IsTidy s = s.active_index ≡ none → s.active_is_tool ≡ false

-- The step emits, without a panic, events that the protocol allows, and leads to a tidy state.
abbrev pub Conforms : StreamBlockState → Step → Type 0
Conforms s step =
    (s' : StreamBlockState) × (es : List AnthropicStreamEvent) × (step ≡ emits s' es)
    × (accept (phase_of s) es ≡ some (phase_of s'))
    × IsTidy s'

abbrev pub state : Option ℕ → Bool → Option ℕ → ℕ → List (ℕ × ℕ) → StreamBlockState
state active is_tool call next indices = record {
  active_index = active;
  active_is_tool = is_tool;
  active_tool_call_index = call;
  next_index = next;
  tool_index_map = indices;
}

text_events-Conforms :
    (o : Option ℕ) (t : Bool) (c : Option ℕ) (n : ℕ) (m : List (ℕ × ℕ)) (text : Option String)
    → IsTidy (state o t c n m)
    → Conforms (state o t c n m) (text_events text (state o t c n m))
unfolding text_events accept
text_events-Conforms none true c n m text h = absurd (cc (h refl))
text_events-Conforms none false c n m none h = (_, _, refl, ground arith, ground arith)
text_events-Conforms none false c n m (some text) h = (_, _, refl, ground arith, ground arith)
text_events-Conforms (some i) true c n m none h = (_, _, refl, ground arith, ground arith)
text_events-Conforms (some i) true c n m (some text) h = (_, _, refl, ground arith, ground arith)
text_events-Conforms (some i) false c n m none h = (_, _, refl, ground arith, ground arith)
text_events-Conforms (some i) false c n m (some text) h = (_, _, refl, ground arith, ground arith)

-- Opening a tool block, if there is one to open.
abbrev Moves : StreamBlockState → StreamBlockState × List AnthropicStreamEvent → Type 0
Moves s out = (accept (phase_of s) out.1 ≡ some (phase_of out.0)) × IsTidy out.0

start_tool-Moves :
    (o : Option ℕ) (t : Bool) (c : Option ℕ) (n : ℕ) (m : List (ℕ × ℕ)) (k : ℕ) (id name : String)
    → Moves (state o t c n m) (start_tool k id name (state o t c n m))
unfolding start_tool accept
start_tool-Moves none t c n m k id name = ground arith
start_tool-Moves (some i) t c n m k id name = ground arith

module _ (hash : String → String) (uuid : String) where
  open_tool-Moves :
      (id name : Option String) (k : ℕ) (s : StreamBlockState)
      → IsTidy s
      → Moves s (open_tool hash uuid id name k s)
  unfolding open_tool accept
  open_tool-Moves none name k s h = (refl, h)
  open_tool-Moves (some id) none k s h = (refl, h)
  open_tool-Moves (some id) (some name) k s h = elim (Bool-cases (is_active_tool s k)) [
    | inl active ↦ rw active (refl, h)
    | inr other ↦ rw other (
        start_tool-Moves s.active_index s.active_is_tool s.active_tool_call_index s.next_index
          s.tool_index_map k _ name)
  ]

-- A delta of a tool's block after the opening events.
emit_delta-Conforms :
    (arguments : String) (s : StreamBlockState) (es : List AnthropicStreamEvent) (o : Option ℕ)
    (c : Option ℕ) (n : ℕ) (m : List (ℕ × ℕ))
    → accept (phase_of s) es ≡ some (phase_of (state o true c n m))
    → IsTidy (state o true c n m)
    → Conforms s (
        emit_delta o
          (λ index. content_block_delta index (input_json_delta arguments))
          (state o true c n m)
          es)
unfolding emit_delta
emit_delta-Conforms arguments s es none c n m h tidy = absurd (cc (tidy refl))
emit_delta-Conforms arguments s es (some i) c n m h tidy =
    (_, _, refl, accept-append (phase_of s) _ es _ h ∙ unfold accept in ground arith, tidy)

active-is_tool :
    (s : StreamBlockState) (k : ℕ) → is_active_tool s k ≡ true → s.active_is_tool ≡ true
unfolding is_active_tool
active-is_tool s k h = ground arith

send_arguments-Conforms :
    (arguments : Option String) (k : ℕ) (s s' : StreamBlockState) (es : List AnthropicStreamEvent)
    → accept (phase_of s) es ≡ some (phase_of s')
    → IsTidy s'
    → Conforms s (send_arguments arguments k s' es)
unfolding send_arguments
send_arguments-Conforms none k s s' es h tidy = (s', es, refl, h, tidy)
send_arguments-Conforms (some a) k s s' es h tidy = elim (Bool-cases (is_active_tool s' k)) [
  | inr other ↦ rw other (s', es, refl, h, tidy)
  | inl active ↦ rw active (go s'.active_is_tool (active-is_tool s' k active) h tidy)
]
  where
    go :
        (t : Bool)
        → t ≡ true
        → accept (phase_of s) es
          ≡ some (
              phase_of
                (state s'.active_index t s'.active_tool_call_index s'.next_index s'.tool_index_map))
        → IsTidy (state s'.active_index t s'.active_tool_call_index s'.next_index s'.tool_index_map)
        → Conforms s (
            emit_delta s'.active_index
              (λ index. content_block_delta index (input_json_delta a))
              (state s'.active_index t s'.active_tool_call_index s'.next_index s'.tool_index_map)
              es)
    go true e =
        emit_delta-Conforms a s es s'.active_index s'.active_tool_call_index s'.next_index
          s'.tool_index_map
    go false e = absurd (cc e)

-- The events within a message: no start, no end.
pub data IsContent : NormalizedStreamEvent → Type 0 where
  of_delta : (index : ℕ) (d : Delta) → IsContent (delta index d)
  of_tool :
      (index k : ℕ) (id : Option String) (f : Option FunctionCallDelta)
      → IsContent (tool_call_delta index k id f)
  of_usage : (usage : Usage) → IsContent (usage_event usage)
  of_error : (message : String) → IsContent (error_event message)

module _ (hash : String → String) (stream_id model : String) where
  pub stream_event_to_anthropic_events-Conforms :
      (uuid : String) (e : NormalizedStreamEvent) (s : StreamBlockState)
      → IsContent e
      → IsTidy s
      → Conforms s (stream_event_to_anthropic_events hash uuid e stream_id model s)
  unfolding stream_event_to_anthropic_events
  stream_event_to_anthropic_events-Conforms uuid _ s (of_delta index d) h =
      text_events-Conforms s.active_index s.active_is_tool s.active_tool_call_index s.next_index
        s.tool_index_map d.content h
  stream_event_to_anthropic_events-Conforms uuid _ s (of_tool index k id f) h =
      let moved = open_tool-Moves hash uuid id (and_then f (λ f'. f'.name)) k s h in
      unfold tool_events in
      send_arguments-Conforms (and_then f (λ f'. f'.arguments)) k s _ _ moved.0 moved.1
  stream_event_to_anthropic_events-Conforms uuid _ s (of_usage usage) h =
      (s, [], refl, unfold accept in refl, h)
  stream_event_to_anthropic_events-Conforms uuid _ s (of_error message) h =
      (s, [], refl, unfold accept in refl, h)
