-- ===== src/Session/SqliteWriter/Clause.antt =====
-- The text of the condition and the values that are bound to it.
use Prim.Native.Char.{code}
use Prim.Native.String.{◌++◌ as str_append}
use Prim.Native.String.append
use lunaroute.Prelude.{
  ℕ, ◌+◌, ◌≡◌, refl, ◌∙◌, Bool, String, Option, none, some, List, [], ◌∷◌, ◌++◌, map, length,
  length-append, ◌==◌, if◌then◌else◌, arith,
}
use lunaroute.Prelude.Texts.{join}
use lunaroute.Session.Search.{TimeRange, SessionFilter}
use lunaroute.Session.SqliteWriter.{
  Part, also, placeholders, in_list, in_models, in_time, is_flag, has_bound, has_text, conditions,
  build_where_clause,
}

-- The question marks of a text, and of the texts of a list.
abbrev pub marks : String → ℕ
marks String.[] = 0
marks (String.◌∷◌ c s) = (if code c == 63 then 1 else 0) + marks s

abbrev all_marks : List String → ℕ
all_marks [] = 0
all_marks (s ∷ ts) = marks s + all_marks ts

marks-append : (s t : String) → marks (str_append s t) ≡ marks s + marks t
marks-append String.[] t = rw (append.nil t) (omega arith)
marks-append (String.◌∷◌ c s) t = rw (append.cons c s t, marks-append s t) (omega arith)

marks-join :
    (separator : String) (ts : List String)
    → marks separator ≡ 0
    → marks (join separator ts) ≡ all_marks ts
unfolding join
marks-join separator [] none_there = refl
marks-join separator (s ∷ []) none_there = omega arith
marks-join separator (s ∷ t ∷ ts) none_there =
    rw
      (
        marks-append s (str_append separator (join separator (t ∷ ts))),
        marks-append separator (join separator (t ∷ ts)),
        marks-join separator (t ∷ ts) none_there,
        none_there,
      )
      (omega arith)

all_marks-placeholders : (items : List String) → all_marks (map (λ _. "?") items) ≡ length items
all_marks-placeholders [] = refl
all_marks-placeholders (s ∷ items) = rw (all_marks-placeholders items) (omega arith)

marks-placeholders : (items : List String) → marks (placeholders items) ≡ length items
unfolding placeholders
marks-placeholders items = marks-join "," (map (λ _. "?") items) refl ∙ all_marks-placeholders items

all_marks-append : (ss ts : List String) → all_marks (ss ++ ts) ≡ all_marks ss + all_marks ts
all_marks-append [] ts = omega arith
all_marks-append (s ∷ ss) ts = omega (arith, all_marks-append ss ts)

-- A part has as many marks as values.
abbrev IsBalanced : Part → Type 0
IsBalanced p = all_marks p.0 ≡ length p.1

also-IsBalanced : (p q : Part) → IsBalanced p → IsBalanced q → IsBalanced (also p q)
unfolding also
also-IsBalanced p q a b = omega (arith, all_marks-append p.0 q.0, length-append p.1 q.1, a, b)

in_list-IsBalanced :
    (column : String) (items : List String) → marks column ≡ 0 → IsBalanced (in_list column items)
unfolding in_list
in_list-IsBalanced column [] plain = refl
in_list-IsBalanced column (s ∷ items) plain =
    rw
      (
        marks-append column (str_append " IN (" (str_append (placeholders (s ∷ items)) ")")),
        marks-append " IN (" (str_append (placeholders (s ∷ items)) ")"),
        marks-append (placeholders (s ∷ items)) ")",
        marks-placeholders (s ∷ items),
        plain,
      )
      (omega arith)

in_models-IsBalanced : (items : List String) → IsBalanced (in_models items)
unfolding in_models
in_models-IsBalanced [] = refl
in_models-IsBalanced (s ∷ items) =
    rw
      (
        marks-append "(model_requested IN (" (
            str_append (placeholders (s ∷ items))
              (str_append ") OR model_used IN (" (str_append (placeholders (s ∷ items)) "))"))),
        marks-append (placeholders (s ∷ items))
            (str_append ") OR model_used IN (" (str_append (placeholders (s ∷ items)) "))")),
        marks-append ") OR model_used IN (" (str_append (placeholders (s ∷ items)) "))"),
        marks-append (placeholders (s ∷ items)) "))",
        marks-placeholders (s ∷ items),
      )
      (omega (arith, length-append (s ∷ items) (s ∷ items)))

in_time-IsBalanced :
    (to_rfc3339 : ℕ → String) (range : Option TimeRange) → IsBalanced (in_time to_rfc3339 range)
unfolding in_time
in_time-IsBalanced to_rfc3339 none = refl
in_time-IsBalanced to_rfc3339 (some range) = refl

is_flag-IsBalanced :
    (condition : String) (b : Option Bool) → marks condition ≡ 1 → IsBalanced (is_flag condition b)
unfolding is_flag
is_flag-IsBalanced condition none one = refl
is_flag-IsBalanced condition (some b) one = rw one refl

has_bound-IsBalanced :
    (condition : String) (n : Option ℕ) → marks condition ≡ 1 → IsBalanced (has_bound condition n)
unfolding has_bound
has_bound-IsBalanced condition none one = refl
has_bound-IsBalanced condition (some n) one = rw one refl

has_text-IsBalanced : (text : Option String) → IsBalanced (has_text text)
unfolding has_text
has_text-IsBalanced none = refl
has_text-IsBalanced (some text) = refl

conditions-IsBalanced :
    (to_rfc3339 : ℕ → String) (filter : SessionFilter) → IsBalanced (conditions to_rfc3339 filter)
unfolding conditions
conditions-IsBalanced to_rfc3339 filter =
    also-IsBalanced _ _ (in_time-IsBalanced to_rfc3339 filter.time_range) (
      also-IsBalanced _ _ (in_list-IsBalanced "provider" filter.providers refl) (
        also-IsBalanced _ _ (in_models-IsBalanced filter.models) (
          also-IsBalanced _ _ (in_list-IsBalanced "request_id" filter.request_ids refl) (
            also-IsBalanced _ _ (in_list-IsBalanced "session_id" filter.session_ids refl) (
              also-IsBalanced _ _ (is_flag-IsBalanced "success = ?" filter.success refl) (
                also-IsBalanced _ _ (is_flag-IsBalanced "is_streaming = ?" filter.is_streaming refl)
                  (also-IsBalanced _ _
                    (has_bound-IsBalanced "total_tokens >= ?" filter.min_tokens refl)
                    (also-IsBalanced _ _
                      (has_bound-IsBalanced "total_tokens <= ?" filter.max_tokens refl)
                      (also-IsBalanced _ _
                        (has_bound-IsBalanced "total_duration_ms >= ?" filter.min_duration_ms refl)
                        (also-IsBalanced _ _
                          (has_bound-IsBalanced "total_duration_ms <= ?" filter.max_duration_ms
                            refl)
                          (also-IsBalanced _ _
                            (in_list-IsBalanced "client_ip" filter.client_ips refl)
                            (also-IsBalanced _ _
                              (in_list-IsBalanced "finish_reason" filter.finish_reasons refl)
                              (has_text-IsBalanced filter.text_search)))))))))))))

-- The condition has as many question marks as there are values to bind, whatever the filter.
pub build_where_clause-marks :
    (to_rfc3339 : ℕ → String) (filter : SessionFilter)
    → marks (build_where_clause to_rfc3339 filter).0
      ≡ length (build_where_clause to_rfc3339 filter).1
unfolding build_where_clause
build_where_clause-marks to_rfc3339 filter =
    marks-join " AND " (conditions to_rfc3339 filter).0 refl
    ∙ conditions-IsBalanced to_rfc3339 filter
