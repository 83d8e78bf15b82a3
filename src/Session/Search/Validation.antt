-- ===== src/Session/Search/Validation.antt =====
-- Which filters are accepted.
use lunaroute.Prelude.{
  ℕ, ◌+◌, ◌≤◌, ◌<◌, ◌≡◌, refl, ◌↔◌, Bool, true, false, String, Option, none, some, List, [], ◌∷◌,
  length, ltb, ◌==◌, arith, All, Result, ok, err, ◌>>=◌,
}
use lunaroute.Prelude.Texts.{byte_length}
use lunaroute.Session.Search.{
  TimeRange, SessionFilter, max_text_search_len, max_filter_array_len, max_string_len,
  max_page_size_for_query, refuse_if, ten_years, check_time, check_range, check_text, check_array,
  check_strings, validate,
}

abbrev IsAccepted : Result String (Unit {0}) → Type 0
IsAccepted r = r ≡ ok tt

-- A chain is accepted when its first check and the rest are.
chain :
    {A B : Type 0} {r s : Result String (Unit {0})}
    → IsAccepted r ↔ A
    → IsAccepted s ↔ B
    → IsAccepted (r >>= λ _. s) ↔ (A × B)
chain {r = ok tt} a b = (λ h. (a.0 refl, b.0 h), λ h. b.1 h.1)
chain {r = err e} a b = (λ h. cc, λ h. cc (a.1 h.0))

refuse_if-IsAccepted :
    (b : Bool) (message : String) → IsAccepted (refuse_if b message) ↔ (b ≡ false)
unfolding refuse_if
refuse_if-IsAccepted true message = (λ h. cc, λ h. cc)
refuse_if-IsAccepted false message = (λ h. refl, λ h. refl)

-- A refusal above a limit.
within :
    (limit n : ℕ) (message : String) → IsAccepted (refuse_if (ltb limit n) message) ↔ (n ≤ limit)
unfolding refuse_if
within limit n message =
    let test = refuse_if-IsAccepted (ltb limit n) message in
    (λ h. let e = test.0 h in ground arith, λ h. test.1 (ground arith))

-- The range is in order and within ten years of now.
abbrev pub IsTimely : ℕ → Option TimeRange → Type 0
IsTimely now none = Unit
IsTimely now (some range) =
    (range.start ≤ range.end) × ((now ≤ range.start + ten_years) × (range.end ≤ now + ten_years))

abbrev pub IsOrdered : Option ℕ → Option ℕ → Type 0
IsOrdered (some min) (some max) = min ≤ max
IsOrdered (some min) none = Unit
IsOrdered none max = Unit

abbrev pub IsShort : ℕ → String → Type 0
IsShort limit s = byte_length s ≤ limit

abbrev pub IsShortText : Option String → Type 0
IsShortText none = Unit
IsShortText (some text) = IsShort 1000 text

check_time-IsTimely :
    (now : ℕ) (range : Option TimeRange) → IsAccepted (check_time now range) ↔ IsTimely now range
unfolding check_time
check_time-IsTimely now none = (λ h. tt, λ h. refl)
check_time-IsTimely now (some range) =
    chain (within range.end range.start _)
      (chain (within (range.start + ten_years) now _) (within (now + ten_years) range.end _))

check_range-IsOrdered :
    (min max : Option ℕ) (message : String)
    → IsAccepted (check_range min max message) ↔ IsOrdered min max
unfolding check_range
check_range-IsOrdered (some a) (some b) message = within b a message
check_range-IsOrdered (some a) none message = (λ h. tt, λ h. refl)
check_range-IsOrdered none max message = (λ h. tt, λ h. refl)

check_text-IsShortText : (text : Option String) → IsAccepted (check_text text) ↔ IsShortText text
unfolding check_text
check_text-IsShortText none = (λ h. tt, λ h. refl)
check_text-IsShortText (some text) = within max_text_search_len (byte_length text) _

check_array-length :
    (items : List String) (message : String)
    → IsAccepted (check_array items message) ↔ (length items ≤ 100)
unfolding check_array
check_array-length items message = within max_filter_array_len (length items) message

check_strings-IsShort :
    (items : List String) (message : String)
    → IsAccepted (check_strings items message) ↔ All (IsShort 256) items
unfolding check_strings
check_strings-IsShort [] message = (λ h. tt, λ h. refl)
check_strings-IsShort (s ∷ items) message =
    chain (within max_string_len (byte_length s) message) (check_strings-IsShort items message)

positive : (n : ℕ) (message : String) → IsAccepted (refuse_if (n == 0) message) ↔ (0 < n)
positive n message =
    let test = refuse_if-IsAccepted (n == 0) message in
    (λ h. let e = test.0 h in ground arith, λ h. test.1 (ground arith))

-- What a search may ask for.
abbrev pub IsValid : ℕ → SessionFilter → Type 0
IsValid now filter =
    IsTimely now filter.time_range
    × (IsOrdered filter.min_tokens filter.max_tokens
        × (IsOrdered filter.min_duration_ms filter.max_duration_ms
            × ((0 < filter.page_size)
                × ((filter.page_size ≤ max_page_size_for_query filter)
                    × (IsShortText filter.text_search
                        × ((length filter.providers ≤ 100)
                            × ((length filter.models ≤ 100)
                                × ((length filter.request_ids ≤ 100)
                                    × ((length filter.session_ids ≤ 100)
                                        × ((length filter.client_ips ≤ 100)
                                            × ((length filter.finish_reasons ≤ 100)
                                                × (All (IsShort 256) filter.providers
                                                    × (All (IsShort 256) filter.models
                                                        × (All (IsShort 256) filter.request_ids
                                                            × (All (IsShort 256) filter.session_ids
                                                            × (All (IsShort 256) filter.client_ips
                                                            × All (IsShort 256)
                                                            filter.finish_reasons))))))))))))))))

-- A filter is accepted exactly when its time range, if there is one, is in order and within ten years
-- of now, its ranges of tokens and durations are in order, its page size is positive and at most what
-- its complexity allows, its text has 1000 bytes at most, and each of its six lists has 100 texts at
-- most, of 256 bytes at most.
pub validate-IsValid :
    (now : ℕ) (filter : SessionFilter) → (validate now filter ≡ ok tt) ↔ IsValid now filter
unfolding validate
validate-IsValid now filter = chain (check_time-IsTimely now filter.time_range) (
    chain (check_range-IsOrdered filter.min_tokens filter.max_tokens _) (
      chain (check_range-IsOrdered filter.min_duration_ms filter.max_duration_ms _) (
        chain (positive filter.page_size _) (
          chain (within (max_page_size_for_query filter) filter.page_size _) (
            chain (check_text-IsShortText filter.text_search) (
              chain (check_array-length filter.providers _) (
                chain (check_array-length filter.models _) (
                  chain (check_array-length filter.request_ids _) (
                    chain (check_array-length filter.session_ids _) (
                      chain (check_array-length filter.client_ips _) (
                        chain (check_array-length filter.finish_reasons _) (
                          chain (check_strings-IsShort filter.providers _) (
                            chain (check_strings-IsShort filter.models _) (
                              chain (check_strings-IsShort filter.request_ids _) (
                                chain (check_strings-IsShort filter.session_ids _) (
                                  chain (check_strings-IsShort filter.client_ips _)
                                    (check_strings-IsShort filter.finish_reasons _)))))))))))))))))
