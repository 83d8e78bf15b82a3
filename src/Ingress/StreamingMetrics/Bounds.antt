-- ===== src/Ingress/StreamingMetrics/Bounds.antt =====
-- How much is kept of a stream.
use Prim.Native.Nat.{zero, suc}
use lunaroute.Prelude.{
  ℕ, ◌+◌, ◌-◌, ◌≤◌, ◌≡◌, inl, inr, String, List, [], ◌∷◌, ◌++◌, length, length-append, ltb, leb,
  Bool-cases, Option-cases, ltb→lt, arith,
}
use lunaroute.Pii.{is_char_boundary, byte_at, bytes_from}
use lunaroute.Ingress.StreamingMetrics.{
  StreamingMetricsTracker, max_chunk_latencies, max_accumulated_text_bytes, new, record_ttft,
  record_chunk_latency, increment_chunk_count, boundary_below, accumulate_text, set_model,
  set_finish_reason,
}

-- What the handlers tell the tracker of a stream.
pub data Event : Type 0 where
  first_token latency : ℕ → Event
  chunk : Event
  text : List ℕ → Event
  model finish_reason : String → Event

abbrev pub track : Event → StreamingMetricsTracker → StreamingMetricsTracker
track (first_token now) t = record_ttft now t
track (latency now) t = record_chunk_latency now t
track chunk t = increment_chunk_count t
track (text bytes) t = accumulate_text bytes t
track (model m) t = set_model m t
track (finish_reason r) t = set_finish_reason r t

abbrev pub track_all : List Event → StreamingMetricsTracker → StreamingMetricsTracker
track_all [] t = t
track_all (e ∷ es) t = track_all es (track e t)

abbrev IsBounded : StreamingMetricsTracker → Type 0
IsBounded t =
    (length t.chunk_latencies ≤ max_chunk_latencies)
    × (length t.accumulated_text ≤ max_accumulated_text_bytes)

boundary-le : (bytes : List ℕ) (i : ℕ) → boundary_below bytes i ≤ i
unfolding boundary_below
boundary-le bytes zero = omega arith
boundary-le bytes (suc i) = elim (Bool-cases (is_char_boundary bytes (suc i))) [
  | inl here ↦ rw here (omega arith)
  | inr within ↦ rw within (omega (arith, boundary-le bytes i))
]

length-bytes_from : (n : ℕ) (bytes : List ℕ) (i : ℕ) → length (bytes_from n bytes i) ≤ n
unfolding bytes_from
length-bytes_from zero bytes i = omega arith
length-bytes_from (suc n) bytes i =
    let rest = length-bytes_from n bytes (i + 1) in
    elim (Option-cases (byte_at bytes i)) [
      | inl out ↦ rw out (omega arith)
      | inr (b, there) ↦ rw there (omega arith)
    ]

accumulate_text-IsBounded :
    (bytes : List ℕ) (t : StreamingMetricsTracker)
    → IsBounded t
    → IsBounded (accumulate_text bytes t)
unfolding accumulate_text
accumulate_text-IsBounded bytes t (few, short) =
    let remaining = max_accumulated_text_bytes - length t.accumulated_text in
    elim (Bool-cases (ltb 0 remaining)) [
      | inl room ↦ elim (Bool-cases (leb (length bytes) remaining)) [
        | inl fits ↦
            rw (room, fits) (few, rw (length-append t.accumulated_text bytes) (ground arith))
        | inr cut ↦
            let part = length-bytes_from (boundary_below bytes remaining) bytes 0 in
            let bound = boundary-le bytes remaining in
            rw (room, cut)
              (
                few,
                rw
                    (length-append t.accumulated_text
                      (bytes_from (boundary_below bytes remaining) bytes 0))
                    (ground arith),
              )
      ]
      | inr full ↦ rw full (few, short)
    ]

one_more : (xs : List ℕ) (x : ℕ) → length (xs ++ x ∷ []) ≡ length xs + 1
one_more xs x = omega (arith, length-append xs (x ∷ []))

record_chunk_latency-IsBounded :
    (now : ℕ) (t : StreamingMetricsTracker) → IsBounded t → IsBounded (record_chunk_latency now t)
unfolding record_chunk_latency
record_chunk_latency-IsBounded now t (few, short) =
    elim (Bool-cases (ltb (length t.chunk_latencies) max_chunk_latencies)) [
      | inl room ↦ rw room (
        omega (
          arith,
          ltb→lt (length t.chunk_latencies) max_chunk_latencies room,
          one_more t.chunk_latencies _,
        ),
        short,
      )
      | inr full ↦ rw full (few, short)
    ]

track-IsBounded : (e : Event) (t : StreamingMetricsTracker) → IsBounded t → IsBounded (track e t)
unfolding record_ttft increment_chunk_count set_model set_finish_reason
track-IsBounded (first_token now) t h = h
track-IsBounded (latency now) t h = record_chunk_latency-IsBounded now t h
track-IsBounded chunk t h = h
track-IsBounded (text bytes) t h = accumulate_text-IsBounded bytes t h
track-IsBounded (model m) t h = h
track-IsBounded (finish_reason r) t h = h

track_all-IsBounded :
    (es : List Event) (t : StreamingMetricsTracker) → IsBounded t → IsBounded (track_all es t)
track_all-IsBounded [] t h = h
track_all-IsBounded (e ∷ es) t h = track_all-IsBounded es (track e t) (track-IsBounded e t h)

-- However long a stream is, its tracker keeps 10,000 latencies and a million bytes of text at most.
pub track_all-new :
    (es : List Event) (start_time : ℕ)
    → let t = track_all es (new start_time) in
      (length t.chunk_latencies ≤ 10_000) × (length t.accumulated_text ≤ 1_000_000)
unfolding new
track_all-new es start_time = track_all-IsBounded es (new start_time) (omega arith, omega arith)
