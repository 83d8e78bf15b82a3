-- ===== src/Session/SqliteWriter.antt =====
-- crates/lunaroute-session/src/sqlite_writer.rs: the text and the values of the search for sessions.
-- The database and chrono's `to_rfc3339` are parameters.
pub mod Clause
pub mod Text
pub mod Escaping
pub mod Searching
mod Examples
use Prim.Native.Nat.{ℕ}
use Prim.Native.String.{◌++◌ as str_append}
use lunaroute.Prelude.{
  ◌+◌, ◌*◌, ◌%◌, Bool, true, false, String, Option, none, some, List, [], ◌∷◌, ◌++◌, map, ltb, ◌==◌,
  ◌||◌, if◌then◌else◌, not, Result, ok, err, ◌>>=◌, map_err,
}
use lunaroute.Prelude.Texts.{byte_length, show_u64, replace, join, is_empty_text, all_chars}
use lunaroute.Prelude.Words.{u64_size}
use lunaroute.Session.Search.{
  TimeRange, SortOrder, newest_first, oldest_first, highest_tokens, longest_duration,
  shortest_duration, SessionFilter, SearchResults, validate, results,
}

-- `WriterError`, as far as the model raises it.
pub data WriterError : Type 0 where
  database invalid_data : String → WriterError

-- The test of a character is `char::is_alphanumeric`, on code points.
unfoldable pub validate_session_id : (ℕ → Bool) → String → Result WriterError (Unit {0})
unfolding byte_length
validate_session_id is_alphanumeric session_id =
    if is_empty_text session_id
    then err (invalid_data "Session ID cannot be empty")
    else (if ltb 255 (byte_length session_id)
        then err (
            invalid_data (
              str_append "Session ID too long: "
                (str_append (show_u64 (byte_length session_id)) " chars (max 255)")))
        else (if all_chars (λ c. is_alphanumeric c || (c == 45 || c == 95)) session_id
            then ok tt
            else err (
                invalid_data
                  (str_append "Invalid session ID: contains unsafe characters: " session_id))))

abbrev pub i64_limit : ℕ
i64_limit = 9_223_372_036_854_775_808

unfoldable pub safe_u64_to_i64 : ℕ → String → Result WriterError ℕ
safe_u64_to_i64 value context =
    if ltb value i64_limit
    then ok value
    else err (
        invalid_data (
          str_append context (
            str_append " value "
              (str_append (show_u64 value) " exceeds maximum SQLite integer (i64::MAX)"))))

-- Conditions and the values to bind to them.
abbrev pub Part : Type 0
Part = List String × List String

unfoldable pub also : Part → Part → Part
also p q = (p.0 ++ q.0, p.1 ++ q.1)

abbrev pub nothing : Part
nothing = ([], [])

unfoldable pub placeholders : List String → String
unfolding join
placeholders items = join "," (map (λ _. "?") items)

unfoldable pub in_list : String → List String → Part
unfolding placeholders
in_list column [] = nothing
in_list column (s ∷ items) = (
  str_append column (str_append " IN (" (str_append (placeholders (s ∷ items)) ")")) ∷ [],
  s ∷ items,
)

unfoldable pub in_models : List String → Part
unfolding placeholders
in_models [] = nothing
in_models (s ∷ items) = (
  str_append "(model_requested IN (" (
        str_append (placeholders (s ∷ items))
          (str_append ") OR model_used IN (" (str_append (placeholders (s ∷ items)) "))")))
      ∷ [],
  (s ∷ items) ++ (s ∷ items),
)

unfoldable pub in_time : (ℕ → String) → Option TimeRange → Part
in_time to_rfc3339 none = nothing
in_time to_rfc3339 (some range) =
    ("started_at >= ?" ∷ "started_at <= ?" ∷ [], to_rfc3339 range.start ∷ to_rfc3339 range.end ∷ [])

unfoldable pub is_flag : String → Option Bool → Part
is_flag condition none = nothing
is_flag condition (some b) = (condition ∷ [], (if b then "1" else "0") ∷ [])

unfoldable pub has_bound : String → Option ℕ → Part
unfolding show_u64
has_bound condition none = nothing
has_bound condition (some n) = (condition ∷ [], show_u64 n ∷ [])

-- The metacharacters of LIKE, escaped.
unfoldable pub escape_like : String → String
unfolding replace
escape_like text = replace (replace (replace text "\\" "\\\\") "%" "\\%") "_" "\\_"

unfoldable pub like_pattern : String → String
unfolding escape_like
like_pattern text = str_append "%" (str_append (escape_like text) "%")

unfoldable pub has_text : Option String → Part
unfolding like_pattern
has_text none = nothing
has_text (some text) = (
  "(request_text LIKE ? ESCAPE '\\' OR response_text LIKE ? ESCAPE '\\')" ∷ [],
  like_pattern text ∷ like_pattern text ∷ [],
)

unfoldable pub conditions : (ℕ → String) → SessionFilter → Part
unfolding also in_time in_list in_models is_flag has_bound has_text
conditions to_rfc3339 filter = also (in_time to_rfc3339 filter.time_range) (
    also (in_list "provider" filter.providers) (
      also (in_models filter.models) (
        also (in_list "request_id" filter.request_ids) (
          also (in_list "session_id" filter.session_ids) (
            also (is_flag "success = ?" filter.success) (
              also (is_flag "is_streaming = ?" filter.is_streaming) (
                also (has_bound "total_tokens >= ?" filter.min_tokens) (
                  also (has_bound "total_tokens <= ?" filter.max_tokens) (
                    also (has_bound "total_duration_ms >= ?" filter.min_duration_ms) (
                      also (has_bound "total_duration_ms <= ?" filter.max_duration_ms) (
                        also (in_list "client_ip" filter.client_ips) (
                          also (in_list "finish_reason" filter.finish_reasons)
                            (has_text filter.text_search)))))))))))))

unfoldable pub build_where_clause : (ℕ → String) → SessionFilter → String × List String
unfolding conditions join
build_where_clause to_rfc3339 filter =
    let part = conditions to_rfc3339 filter in (join " AND " part.0, part.1)

order_by : SortOrder → String
order_by newest_first = "started_at DESC"
order_by oldest_first = "started_at ASC"
order_by highest_tokens = "total_tokens DESC"
order_by longest_duration = "total_duration_ms DESC NULLS LAST"
order_by shortest_duration = "total_duration_ms ASC NULLS LAST"

with_where : String → String
with_where clause = if is_empty_text clause then "" else str_append "WHERE " clause

unfoldable pub count_query : String → String
unfolding with_where
count_query clause = str_append "SELECT COUNT(*) FROM sessions " (with_where clause)

unfoldable pub results_query : String → SortOrder → String
unfolding with_where order_by
results_query clause sort =
    str_append
      "SELECT session_id, request_id, started_at, completed_at, provider,\n                    model_requested, model_used, success, error_message, finish_reason,\n                    total_duration_ms, input_tokens, output_tokens, total_tokens,\n                    is_streaming, client_ip\n             FROM sessions "
      (str_append (with_where clause) (
        str_append "\n             ORDER BY "
          (str_append (order_by sort) "\n             LIMIT ? OFFSET ?")))

unfoldable pub to_i64 : ℕ → String → String → Result WriterError ℕ
to_i64 n before after =
    if ltb n i64_limit
    then ok n
    else err (invalid_data (str_append before (str_append (show_u64 n) after)))

-- The time, chrono's text of a time, the query for a count and that for rows are parameters. The
-- product of the page and its size wraps in a release build.
unfoldable pub search_sessions :
    {A : Type 0}
    → ℕ
    → (ℕ → String)
    → (String → List String → Result String ℕ)
    → (String → List String → ℕ → ℕ → Result String (List A))
    → SessionFilter
    → Result WriterError (SearchResults A)
unfolding build_where_clause count_query results_query to_i64 results validate
search_sessions now to_rfc3339 fetch_one fetch_all filter =
    map_err database (validate now filter) >>= λ _.
    let (clause, values) = build_where_clause to_rfc3339 filter in
    map_err database (fetch_one (count_query clause) values) >>= λ total_count.
    to_i64 filter.page_size "Page size " " exceeds i64::MAX" >>= λ limit.
    to_i64 (filter.page * filter.page_size % u64_size) "Offset " " exceeds i64::MAX" >>= λ offset.
    map_err (λ e. database (str_append "Failed to fetch sessions: " e))
      (fetch_all (results_query clause filter.sort) values limit offset)
    >>= λ records. ok (results records total_count filter.page filter.page_size)
