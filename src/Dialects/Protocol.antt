-- ===== src/Dialects/Protocol.antt =====
-- The protocol of an Anthropic message stream, as an automaton on the events that a client gets: one
-- message_start, then content blocks one after another, each started under the next index, its
-- deltas of its own kind, and stopped before the next starts; then message_delta and message_stop.
use lunaroute.Prelude.{
  ℕ, ◌+◌, ◌%◌, Bool, true, false, ◌&&◌, not, ◌≡◌, refl, Option, none, some, List, [], ◌∷◌, ◌++◌,
  ◌==◌, if◌then◌else◌, and_then, arith, inl, inr, Option-cases,
}
use lunaroute.Prelude.Words.{u32_size}
use lunaroute.Ingress.Anthropic.{
  AnthropicStreamEvent, AnthropicContentBlockStart, AnthropicContentDelta, message_start,
  content_block_start, content_block_delta, content_block_stop, message_delta, message_stop,
  text_start, tool_start, text_delta, input_json_delta,
}

-- `content` has the open block, its index and whether it is a tool's, and the index of the next.
pub data Phase : Type 0 where
  waiting : Phase
  content : Option (ℕ × Bool) → ℕ → Phase
  stopping finished : Phase

abbrev starts_tool : AnthropicContentBlockStart → Bool
starts_tool (text_start text) = false
starts_tool (tool_start id name) = true

abbrev fits : AnthropicContentDelta → Bool → Bool
fits (text_delta text) is_tool = not is_tool
fits (input_json_delta json) is_tool = is_tool

-- One event, if the protocol allows it.
unfoldable pub advance : Phase → AnthropicStreamEvent → Option Phase
advance waiting (message_start message) = some (content none 0)
advance (content none next) (content_block_start index block) =
    if index == next
    then some (content (some (index, starts_tool block)) ((next + 1) % u32_size))
    else none
advance (content (some (open_index, is_tool)) next) (content_block_delta index d) =
    if index == open_index && fits d is_tool
    then some (content (some (open_index, is_tool)) next)
    else none
advance (content (some (open_index, is_tool)) next) (content_block_stop index) =
    if index == open_index then some (content none next) else none
advance (content none next) (message_delta d usage) = some stopping
advance stopping message_stop = some finished
advance _ _ = none

unfoldable pub accept : Phase → List AnthropicStreamEvent → Option Phase
unfolding advance
accept p [] = some p
accept p (e ∷ es) = and_then (advance p e) (λ p'. accept p' es)

and_then_assoc :
    {A B C : Type 0} (o : Option A) (f : A → Option B) (g : B → Option C)
    → and_then (and_then o f) g ≡ and_then o (λ a. and_then (f a) g)
and_then_assoc none f g = refl
and_then_assoc (some a) f g = refl

pub accept-append :
    (p p' : Phase) (es es' : List AnthropicStreamEvent)
    → accept p es ≡ some p'
    → accept p (es ++ es') ≡ accept p' es'
unfolding accept
accept-append p p' [] es' h = ground arith
accept-append p p' (e ∷ es) es' h = elim (Option-cases (advance p e)) [
  | inl stuck ↦ absurd (refused stuck)
  | inr (q, moved) ↦ rw moved (accept-append q p' es es' (unfold accept in rw moved at h))
]
  where
    refused : advance p e ≡ none → ⊥
    refused stuck = let h' = rw stuck at h in cc
