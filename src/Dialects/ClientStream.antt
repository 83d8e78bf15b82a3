-- ===== src/Dialects/ClientStream.antt =====
-- What an Anthropic client gets of a whole stream.
use lunaroute.Prelude.{
  ℕ, ◌≡◌, refl, ◌∙◌, Bool, String, Option, none, some, List, [], ◌∷◌, ◌++◌, map, arith, All, ok,
  err, map_some,
}
use mathlib.Core.List.{append_assoc, append-nil, map-append}
use lunaroute.Normalized.{Error, FinishReason, Usage, start, end_event, usage_event}
use lunaroute.Ingress.Anthropic.{AnthropicStreamEvent}
use lunaroute.Ingress.Anthropic.Blocks.{
  StreamBlockState, emits, first_event, default_state, stream_event_to_anthropic_events,
}
use lunaroute.Ingress.Anthropic.Messages.{
  SseEvent, event, Item, sse_step, sse_stream, messages_stream,
}
use lunaroute.Dialects.Protocol.{waiting, content, finished, accept, accept-append}
use lunaroute.Dialects.Conformance.{
  IsContent, IsTidy, phase_of, stream_event_to_anthropic_events-Conforms, state,
}

abbrev pub IsContentItem : Item → Type 0
IsContentItem (uuid, ok e) = IsContent e
IsContentItem (uuid, err e) = ⊥

-- An item that reports usage, which OpenAI sends after the end.
abbrev pub IsUsageItem : Item → Type 0
IsUsageItem (uuid, ok e) = (usage : Usage) × (e ≡ usage_event usage)
IsUsageItem (uuid, err e) = ⊥

module _ (hash : String → String) (show : Error → String) (stream_id model : String) where
  -- How the content of a message is sent, whatever follows it.
  Sends : List Item → List Item → StreamBlockState → Type 0
  Sends body rest s =
      (s' : StreamBlockState) × (es : List AnthropicStreamEvent) × (sse_stream hash show stream_id
          model (body ++ rest) s
        ≡ map_some (λ sent. map event es ++ sent) (sse_stream hash show stream_id model rest s'))
      × (accept (phase_of s) es ≡ some (phase_of s'))
      × IsTidy s'

  map_some_id : (o : Option (List SseEvent)) → o ≡ map_some (λ sent. [] ++ sent) o
  map_some_id none = refl
  map_some_id (some sent) = refl

  joined :
      (es es' : List AnthropicStreamEvent) (o : Option (List SseEvent))
      → map_some (λ sent. map event es ++ sent) (map_some (λ sent. map event es' ++ sent) o)
        ≡ map_some (λ sent. map event (es ++ es') ++ sent) o
  joined es es' none = refl
  joined es es' (some sent) = simp (map-append, append_assoc)

  sse_stream-Sends :
      (body rest : List Item) (s : StreamBlockState)
      → All IsContentItem body
      → IsTidy s
      → Sends body rest s
  unfolding Sends sse_stream
  sse_stream-Sends [] rest s a h = (s, [], map_some_id _, unfold accept in refl, h)
  sse_stream-Sends ((uuid, err e) ∷ body) rest s a h = absurd a.0
  sse_stream-Sends ((uuid, ok e) ∷ body) rest s a h =
      let (s', es, now, moved, tidy) =
        stream_event_to_anthropic_events-Conforms hash stream_id model uuid e s a.0 h in
      let (s'', es', later, moved', tidy') = sse_stream-Sends body rest s' a.1 tidy in
      (
        s'',
        es ++ es',
        rw (now, sse_step) (rw later (joined es es' _)),
        accept-append (phase_of s) _ es es' moved ∙ moved',
        tidy',
      )

  tail_silent :
      (tail : List Item) (s : StreamBlockState)
      → All IsUsageItem tail
      → sse_stream hash show stream_id model tail s ≡ some []
  unfolding sse_stream stream_event_to_anthropic_events
  tail_silent [] s a = refl
  tail_silent ((uuid, err e) ∷ tail) s a = absurd a.0
  tail_silent ((uuid, ok e) ∷ tail) s a =
      let (usage, reported) = a.0 in rw (reported, sse_step) (rw (tail_silent tail s a.1))

  end_finishes :
      (o : Option ℕ) (t : Bool) (c : Option ℕ) (n : ℕ) (m : List (ℕ × ℕ)) (uuid : String)
      (reason : FinishReason)
      → (s' : StreamBlockState) × (es : List AnthropicStreamEvent)
        × (stream_event_to_anthropic_events hash uuid
              (end_event reason)
              stream_id
              model
              (state o t c n m)
            ≡ emits s' es)
        × (accept (phase_of (state o t c n m)) es ≡ some finished)
  unfolding stream_event_to_anthropic_events accept
  end_finishes none t c n m uuid reason = (_, _, refl, refl)
  end_finishes (some i) t c n m uuid reason = (_, _, refl, ground arith)

  end_sent :
      (s s' : StreamBlockState) (es : List AnthropicStreamEvent) (uuid : String)
      (reason : FinishReason) (tail : List Item)
      → stream_event_to_anthropic_events hash uuid (end_event reason) stream_id model s
        ≡ emits s' es
      → All IsUsageItem tail
      → sse_stream hash show stream_id model ((uuid, ok (end_event reason)) ∷ tail) s
        ≡ some (map event es)
  unfolding sse_stream
  end_sent s s' es uuid reason tail e a =
      rw (e, sse_step) (rw (tail_silent tail s' a) (simp append-nil))

  -- A stream that starts, has content, and ends, with reports of usage at most after its end, reaches
  -- the client without a panic, as events of the API alone, and these keep to the protocol from the
  -- first to the last.
  pub messages_stream-accept :
      (uuid uuid' id started_model : String) (reason : FinishReason) (body tail : List Item)
      → All IsContentItem body
      → All IsUsageItem tail
      → (es : List AnthropicStreamEvent) × (messages_stream hash show stream_id model
            ((uuid, ok (start id started_model)) ∷ body ++ (uuid', ok (end_event reason)) ∷ tail)
          ≡ some (map event es))
        × (accept waiting es ≡ some finished)
  unfolding messages_stream Sends sse_stream
  messages_stream-accept uuid uuid' id started_model reason body tail a b =
      let (s, es, sent, moved, tidy) =
        sse_stream-Sends body ((uuid', ok (end_event reason)) ∷ tail) default_state a (λ e. refl) in
      let (s', es', ending, ended) =
        end_finishes s.active_index s.active_is_tool s.active_tool_call_index s.next_index
          s.tool_index_map uuid' reason in
      (
        first_event stream_id model ∷ (es ++ es'),
        unfold stream_event_to_anthropic_events in
            rw sent (rw (end_sent s s' es' uuid' reason tail ending b) (simp map-append)),
        unfold accept in accept-append (content none 0) _ es es' moved ∙ ended,
      )
