-- ===== src/Session/Search.antt =====
-- crates/lunaroute-session/src/search.rs: the filter of a search for sessions and the pages of its
-- results. Times are numbers of nanoseconds from a start far in the past.
pub mod Validation
pub mod Paging
mod Examples
use Prim.Native.String.{◌++◌ as str_append}
use lunaroute.Prelude.{
  ℕ, ◌+◌, ◌-◌, ◌*◌, ◌/◌, ◌%◌, Bool, true, false, ◌||◌, String, Option, none, some, List, [], ◌∷◌,
  length, ltb, leb, ◌==◌, if◌then◌else◌, Result, ok, err, ◌>>=◌,
}
use lunaroute.Prelude.Texts.{byte_length, show_u64}
use lunaroute.Prelude.Words.{u32_size}

pub record TimeRange : Type 0 where
  pub start : ℕ
  pub end : ℕ

pub data SortOrder : Type 0 where
  newest_first oldest_first highest_tokens longest_duration shortest_duration : SortOrder

pub record SessionFilter : Type 0 where
  pub time_range : Option TimeRange
  pub providers : List String
  pub models : List String
  pub request_ids : List String
  pub session_ids : List String
  pub success : Option Bool
  pub is_streaming : Option Bool
  pub min_tokens : Option ℕ
  pub max_tokens : Option ℕ
  pub min_duration_ms : Option ℕ
  pub max_duration_ms : Option ℕ
  pub client_ips : List String
  pub finish_reasons : List String
  pub text_search : Option String
  pub page_size : ℕ
  pub page : ℕ
  pub sort : SortOrder

abbrev pub default_filter : SessionFilter
default_filter = record {
  time_range = none;
  providers = [];
  models = [];
  request_ids = [];
  session_ids = [];
  success = none;
  is_streaming = none;
  min_tokens = none;
  max_tokens = none;
  min_duration_ms = none;
  max_duration_ms = none;
  client_ips = [];
  finish_reasons = [];
  text_search = none;
  page_size = 50;
  page = 0;
  sort = newest_first;
}

abbrev pub max_text_search_len : ℕ
max_text_search_len = 1000

abbrev pub max_filter_array_len : ℕ
max_filter_array_len = 100

abbrev pub max_string_len : ℕ
max_string_len = 256

abbrev pub max_page_size_base : ℕ
max_page_size_base = 1000

abbrev pub max_page_size_moderate : ℕ
max_page_size_moderate = 500

abbrev pub max_page_size_complex : ℕ
max_page_size_complex = 100

-- The points of a condition that is there.
score_of : {A : Type 0} → Option A → ℕ → ℕ
score_of none points = 0
score_of (some a) points = points

-- One point for two bounds of a range.
range_score : Option ℕ → Option ℕ → ℕ
range_score none none = 0
range_score _ _ = 1

-- On u32; a sum that overflows panics in a debug build and wraps in a release build.
unfoldable pub query_complexity : SessionFilter → ℕ
unfolding score_of range_score
query_complexity filter =
    (score_of filter.text_search 3
      + score_of filter.time_range 1
      + length filter.providers / 10
      + length filter.models / 10
      + length filter.request_ids / 10
      + length filter.session_ids / 10
      + length filter.client_ips / 10
      + length filter.finish_reasons / 10
      + score_of filter.success 1
      + score_of filter.is_streaming 1
      + range_score filter.min_tokens filter.max_tokens
      + range_score filter.min_duration_ms filter.max_duration_ms)
    % u32_size

unfoldable pub max_page_size_for_query : SessionFilter → ℕ
unfolding query_complexity
max_page_size_for_query filter =
    if leb (query_complexity filter) 1
    then max_page_size_base
    else (if leb (query_complexity filter) 5 then max_page_size_moderate else max_page_size_complex)

-- The early return of an error.
unfoldable pub refuse_if : Bool → String → Result String (Unit {0})
refuse_if true message = err message
refuse_if false message = ok tt

-- 3650 days.
abbrev pub ten_years : ℕ
ten_years = 315_360_000_000_000_000

unfoldable pub check_time : ℕ → Option TimeRange → Result String (Unit {0})
unfolding refuse_if
check_time now none = ok tt
check_time now (some range) =
    refuse_if (ltb range.end range.start) "start time must be before end time" >>= λ _.
    refuse_if (ltb (range.start + ten_years) now) "start time is too far in the past (> 10 years)"
    >>= λ _.
        refuse_if (ltb (now + ten_years) range.end) "end time is too far in the future (> 10 years)"

unfoldable pub check_range : Option ℕ → Option ℕ → String → Result String (Unit {0})
unfolding refuse_if
check_range (some min) (some max) message = refuse_if (ltb max min) message
check_range (some min) none message = ok tt
check_range none max message = ok tt

unfoldable pub check_text : Option String → Result String (Unit {0})
unfolding refuse_if byte_length
check_text none = ok tt
check_text (some text) =
    refuse_if (ltb max_text_search_len (byte_length text))
      "text_search exceeds maximum length of 1000"

unfoldable pub check_array : List String → String → Result String (Unit {0})
unfolding refuse_if
check_array items message = refuse_if (ltb max_filter_array_len (length items)) message

unfoldable pub check_strings : List String → String → Result String (Unit {0})
unfolding refuse_if byte_length
check_strings [] message = ok tt
check_strings (s ∷ items) message =
    refuse_if (ltb max_string_len (byte_length s)) message >>= λ _. check_strings items message

page_message : ℕ → ℕ → String
page_message size max = str_append "page_size " (
    str_append (show_u64 size) (
      str_append " exceeds maximum "
        (str_append (show_u64 max) " for this query complexity (reduce filters or page size)")))

-- The time is what `Utc::now` gives.
unfoldable pub validate : ℕ → SessionFilter → Result String (Unit {0})
unfolding check_time check_range check_text check_array check_strings refuse_if
    max_page_size_for_query page_message
validate now filter = check_time now filter.time_range >>= λ _.
    check_range filter.min_tokens filter.max_tokens
      "min_tokens must be less than or equal to max_tokens"
    >>= λ _.
        check_range filter.min_duration_ms filter.max_duration_ms
          "min_duration_ms must be less than or equal to max_duration_ms"
        >>= λ _. refuse_if (filter.page_size == 0) "page_size must be greater than 0" >>= λ _.
            refuse_if (ltb (max_page_size_for_query filter) filter.page_size)
              (page_message filter.page_size (max_page_size_for_query filter))
            >>= λ _. check_text filter.text_search >>= λ _.
                check_array filter.providers "providers array exceeds maximum length of 100"
                >>= λ _.
                    check_array filter.models "models array exceeds maximum length of 100" >>= λ _.
                    check_array filter.request_ids "request_ids array exceeds maximum length of 100"
                    >>= λ _.
                        check_array filter.session_ids
                          "session_ids array exceeds maximum length of 100"
                        >>= λ _.
                            check_array filter.client_ips
                              "client_ips array exceeds maximum length of 100"
                            >>= λ _.
                                check_array filter.finish_reasons
                                  "finish_reasons array exceeds maximum length of 100"
                                >>= λ _.
                                    check_strings filter.providers
                                      "provider name exceeds maximum length of 256"
                                    >>= λ _.
                                        check_strings filter.models
                                          "model name exceeds maximum length of 256"
                                        >>= λ _.
                                            check_strings filter.request_ids
                                              "request_id exceeds maximum length of 256"
                                            >>= λ _.
                                                check_strings filter.session_ids
                                                  "session_id exceeds maximum length of 256"
                                                >>= λ _.
                                                    check_strings filter.client_ips
                                                      "client_ip exceeds maximum length of 256"
                                                    >>= λ _.
                                                        check_strings filter.finish_reasons
                                                          "finish_reason exceeds maximum length of 256"

pub record SearchResults {ℓ} (A : Type ℓ) : Type ℓ where
  pub items : List A
  pub total_count : ℕ
  pub page : ℕ
  pub page_size : ℕ
  pub total_pages : ℕ

-- `div_ceil`, for a divisor that is not zero.
unfoldable pub div_ceil : ℕ → ℕ → ℕ
div_ceil a b = if a % b == 0 then a / b else a / b + 1

unfoldable pub at_least_one : ℕ → ℕ
at_least_one n = if n == 0 then 1 else n

unfoldable pub results {ℓ} : {A : Type ℓ} → List A → ℕ → ℕ → ℕ → SearchResults A
unfolding div_ceil at_least_one
results items total_count page page_size = record {
  items = items;
  total_count = total_count;
  page = page;
  page_size = page_size;
  total_pages = if ltb 0 page_size then at_least_one (div_ceil total_count page_size) else 1;
}

unfoldable pub has_next_page {ℓ} : {A : Type ℓ} → SearchResults A → Bool
has_next_page r = ltb (r.page + 1) r.total_pages

unfoldable pub has_prev_page {ℓ} : {A : Type ℓ} → SearchResults A → Bool
has_prev_page r = ltb 0 r.page
