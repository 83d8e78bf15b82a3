-- ===== src/Prelude/Texts.antt =====
-- Rust's `str::strip_prefix`, `str::starts_with` and `str::replace`, by characters.
use Prim.Native.Nat.{ℕ, zero, suc, ◌+◌, ◌-◌, ◌/◌, ◌%◌}
use Prim.Native.Char.{Char, code}
use Prim.Native.String.{String, ◌++◌ as str_append, count}
use mathlib.Core.Bool.{Bool, true, false, ◌||◌, ◌&&◌}
use mathlib.Core.List.{List, [], ◌∷◌}
use mathlib.Core.Option.{Option, none, some}
use lunaroute.Prelude.Tests.{◌==◌, ltb, str_eq, if◌then◌else◌}

-- `text.strip_prefix(prefix)`.
unfoldable pub strip_prefix : String → String → Option String
strip_prefix String.[] s = some s
strip_prefix (String.◌∷◌ c p) String.[] = none
strip_prefix (String.◌∷◌ c p) (String.◌∷◌ d s) =
    let rest = strip_prefix p s in if code c == code d then rest else none

unfoldable pub is_some : Option String → Bool
is_some none = false
is_some (some s) = true

-- `text.starts_with(prefix)`.
unfoldable pub begins_with : String → String → Bool
unfolding strip_prefix is_some
begins_with prefix s = is_some (strip_prefix prefix s)

-- The scan of `replace`, with the number of characters still to skip.
unfoldable pub replace_from : String → String → ℕ → String → String
unfolding begins_with
replace_from from to skip String.[] = String.[]
replace_from from to (suc skip) (String.◌∷◌ c s) = replace_from from to skip s
replace_from from to zero (String.◌∷◌ c s) = elim (begins_with from (String.◌∷◌ c s)) [
  | true ↦ str_append to (replace_from from to (count from - 1) s)
  | false ↦ String.◌∷◌ c (replace_from from to zero s)
]

-- `text.replace(from, to)` for a pattern that is not empty.
unfoldable pub replace : String → String → String → String
unfolding replace_from
replace s from to = replace_from from to 0 s

-- `text.contains(part)`.
unfoldable pub contains_text : String → String → Bool
unfolding begins_with
contains_text part String.[] = begins_with part String.[]
contains_text part (String.◌∷◌ c s) = begins_with part (String.◌∷◌ c s) || contains_text part s

-- `text.ends_with(suffix)`.
unfoldable pub ends_with : String → String → Bool
ends_with suffix String.[] = str_eq suffix ""
ends_with suffix (String.◌∷◌ c s) = str_eq suffix (String.◌∷◌ c s) || ends_with suffix s

-- `texts.join(separator)`.
unfoldable pub join : String → List String → String
join separator [] = ""
join separator (s ∷ []) = s
join separator (s ∷ t ∷ ts) = str_append s (str_append separator (join separator (t ∷ ts)))

-- `text.is_empty()`.
abbrev pub is_empty_text : String → Bool
is_empty_text String.[] = true
is_empty_text (String.◌∷◌ c s) = false

-- The bytes of a character in UTF-8.
unfoldable pub utf8_length : ℕ → ℕ
utf8_length c =
    if ltb c 0x80 then 1 else (if ltb c 0x800 then 2 else (if ltb c 0x10000 then 3 else 4))

-- `text.len()`.
unfoldable pub byte_length : String → ℕ
unfolding utf8_length
byte_length String.[] = 0
byte_length (String.◌∷◌ c s) = utf8_length (code c) + byte_length s

-- `text.chars().all(test)`, with the test on code points.
abbrev pub all_chars : (ℕ → Bool) → String → Bool
all_chars test String.[] = true
all_chars test (String.◌∷◌ c s) = test (code c) && all_chars test s

digit : ℕ → String
digit d =
    if d == 0
    then "0"
    else (if d == 1
        then "1"
        else (if d == 2
            then "2"
            else (if d == 3
                then "3"
                else (if d == 4
                    then "4"
                    else (if d == 5
                        then "5"
                        else (if d == 6
                            then "6"
                            else (if d == 7 then "7" else (if d == 8 then "8" else "9"))))))))

-- The decimal digits of a number, of which there are as many as the fuel at most, before a text.
unfoldable pub show_digits : ℕ → ℕ → String → String
unfolding digit
show_digits zero n rest = rest
show_digits (suc f) n rest =
    let rest' = str_append (digit (n % 10)) rest in
    let more = show_digits f (n / 10) rest' in if n / 10 == 0 then rest' else more

-- A u64 as `format!` prints it: 20 digits at most.
unfoldable pub show_u64 : ℕ → String
unfolding show_digits
show_u64 n = show_digits 20 n ""

-- A character in UTF-8, before more bytes.
unfoldable pub utf8 : ℕ → List ℕ → List ℕ
utf8 c rest =
    if ltb c 0x80
    then c ∷ rest
    else (if ltb c 0x800
        then (0xc0 + c / 64) ∷ (0x80 + c % 64) ∷ rest
        else (if ltb c 0x10000
            then (0xe0 + c / 4096) ∷ (0x80 + c / 64 % 64) ∷ (0x80 + c % 64) ∷ rest
            else (0xf0 + c / 262144)
              ∷ (0x80 + c / 4096 % 64)
              ∷ (0x80 + c / 64 % 64)
              ∷ (0x80 + c % 64)
              ∷ rest))

-- `text.as_bytes()`.
unfoldable pub bytes_of : String → List ℕ
unfolding utf8
bytes_of String.[] = []
bytes_of (String.◌∷◌ c s) = utf8 (code c) (bytes_of s)

cons_first : Char → Option (String × String) → Option (String × String)
cons_first c none = none
cons_first c (some (before, behind)) = some (String.◌∷◌ c before, behind)

-- `text.split_once(':')`, which is what `splitn(2, ':')` gives when it gives two parts.
unfoldable pub split_colon : String → Option (String × String)
unfolding cons_first
split_colon String.[] = none
split_colon (String.◌∷◌ c s) =
    let rest = split_colon s in if code c == 58 then some ("", s) else cons_first c rest
