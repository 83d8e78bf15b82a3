-- ===== src/Ingress/StreamingMetrics.antt =====
-- crates/lunaroute-ingress/src/streaming_metrics.rs: what is counted of a stream. The text is its UTF-8
-- bytes, the locks make each call one step, and the average, an f64, is left out.
pub mod Bounds
pub mod Latencies
mod Examples
use Prim.Native.Nat.{zero, suc}
use lunaroute.Prelude.{
  ℕ, ◌+◌, ◌-◌, ◌*◌, ◌/◌, ◌%◌, Bool, true, false, String, Option, none, some, List, [], ◌∷◌, ◌++◌,
  length, get_elem?, ltb, leb, ◌==◌, if◌then◌else◌, and_then, map_some, value_or, is_empty,
}
use lunaroute.Prelude.Words.{u32_size, u64_size}
use lunaroute.Pii.{is_char_boundary, bytes_from}

abbrev pub max_chunk_latencies : ℕ
max_chunk_latencies = 10_000

abbrev pub max_accumulated_text_bytes : ℕ
max_accumulated_text_bytes = 1_000_000

pub record StreamingMetricsTracker : Type 0 where
  pub ttft_time : Option ℕ
  pub chunk_count : ℕ
  pub chunk_latencies : List ℕ
  pub last_chunk_time : ℕ
  pub accumulated_text : List ℕ
  pub stream_model : Option String
  pub stream_finish_reason : Option String

unfoldable pub new : ℕ → StreamingMetricsTracker
new start_time = record {
  ttft_time = none;
  chunk_count = 0;
  chunk_latencies = [];
  last_chunk_time = start_time;
  accumulated_text = [];
  stream_model = none;
  stream_finish_reason = none;
}

unfoldable pub record_ttft : ℕ → StreamingMetricsTracker → StreamingMetricsTracker
record_ttft now t = record t { ttft_time = some (value_or t.ttft_time now) }

-- `as_millis() as u64` of a duration in nanoseconds.
unfoldable pub millis_between : ℕ → ℕ → ℕ
millis_between earlier later = (later - earlier) / 1_000_000 % u64_size

unfoldable pub record_chunk_latency : ℕ → StreamingMetricsTracker → StreamingMetricsTracker
unfolding millis_between
record_chunk_latency now t =
    let latency = millis_between t.last_chunk_time now in
    if ltb (length t.chunk_latencies) max_chunk_latencies
    then record t { chunk_latencies = t.chunk_latencies ++ latency ∷ []; last_chunk_time = now }
    else record t { last_chunk_time = now }

-- On u32; the sum panics in a debug build and wraps in a release build.
unfoldable pub increment_chunk_count : StreamingMetricsTracker → StreamingMetricsTracker
increment_chunk_count t = record t { chunk_count = (t.chunk_count + 1) % u32_size }

-- The loop for the last boundary of a character up to an index.
unfoldable pub boundary_below : List ℕ → ℕ → ℕ
unfolding is_char_boundary
boundary_below text zero = 0
boundary_below text (suc i) =
    let below = boundary_below text i in if is_char_boundary text (suc i) then suc i else below

unfoldable pub accumulate_text : List ℕ → StreamingMetricsTracker → StreamingMetricsTracker
unfolding boundary_below bytes_from
accumulate_text text t =
    let remaining = max_accumulated_text_bytes - length t.accumulated_text in
    if ltb 0 remaining
    then (if leb (length text) remaining
        then record t { accumulated_text = t.accumulated_text ++ text }
        else record t {
          accumulated_text =
              t.accumulated_text ++ bytes_from (boundary_below text remaining) text 0;
        })
    else t

unfoldable pub set_model : String → StreamingMetricsTracker → StreamingMetricsTracker
set_model model t = record t { stream_model = some model }

unfoldable pub set_finish_reason : String → StreamingMetricsTracker → StreamingMetricsTracker
set_finish_reason reason t = record t { stream_finish_reason = some reason }

unfoldable pub insert_latency : ℕ → List ℕ → List ℕ
insert_latency x [] = x ∷ []
insert_latency x (y ∷ ys) =
    let rest = insert_latency x ys in if leb x y then x ∷ y ∷ ys else y ∷ rest

-- `sort_unstable`, of which equal numbers do not show the order.
unfoldable pub sort_latencies : List ℕ → List ℕ
unfolding insert_latency
sort_latencies [] = []
sort_latencies (x ∷ xs) = insert_latency x (sort_latencies xs)

unfoldable pub smaller : ℕ → ℕ → ℕ
smaller a b = if leb a b then a else b

-- The index of a percentile.
unfoldable pub percentile_index : ℕ → ℕ → ℕ
unfolding smaller
percentile_index percent len = smaller ((len - 1) * percent / 100) (len - 1)

pub record Percentiles : Type 0 where
  pub p50 : Option ℕ
  pub p95 : Option ℕ
  pub p99 : Option ℕ
  pub max : ℕ
  pub min : ℕ

-- An index out of bounds panics, which is none.
unfoldable pub percentiles : List ℕ → Option Percentiles
unfolding sort_latencies percentile_index
percentiles latencies =
    let sorted = sort_latencies latencies in
    let len = length sorted in
    if is_empty latencies
    then some (record { p50 = none; p95 = none; p99 = none; max = 0; min = 0 })
    else and_then (get_elem? sorted (percentile_index 50 len)) λ p50.
      and_then (get_elem? sorted (percentile_index 95 len)) λ p95.
        and_then (get_elem? sorted (percentile_index 99 len)) λ p99.
          and_then (get_elem? sorted (len - 1)) λ max.
            map_some
              (λ min. record {
                p50 = some p50;
                p95 = some p95;
                p99 = some p99;
                max = max;
                min = min;
              })
              (get_elem? sorted 0)

pub record FinalizedStreamingMetrics : Type 0 where
  pub ttft_ms : ℕ
  pub total_chunks : ℕ
  pub streaming_duration_ms : ℕ
  pub total_duration_ms : ℕ
  pub latencies : List ℕ
  pub latency_percentiles : Percentiles
  pub finish_reason : Option String

-- The time is that of `start_time.elapsed()`.
unfoldable pub finalize : ℕ → ℕ → ℕ → StreamingMetricsTracker → Option FinalizedStreamingMetrics
unfolding percentiles millis_between
finalize now start_time before_provider t =
    let ttft_ms = value_or (map_some (millis_between before_provider) t.ttft_time) 0 in
    let total_duration_ms = millis_between start_time now in
    map_some
      (λ found. record {
        ttft_ms = ttft_ms;
        total_chunks = t.chunk_count;
        streaming_duration_ms = total_duration_ms - ttft_ms;
        total_duration_ms = total_duration_ms;
        latencies = t.chunk_latencies;
        latency_percentiles = found;
        finish_reason = t.stream_finish_reason;
      })
      (percentiles t.chunk_latencies)
