-- ===== src/Session/SqliteWriter/Escaping.antt =====
-- The pattern that a text is searched with.
use Prim.Native.Char.{Char, code}
use Prim.Native.String.{◌++◌ as str_append, count}
use Prim.Native.String.append
use lunaroute.Prelude.{
  ℕ, ◌-◌, ◌≡◌, refl, ap, ◌∙◌, inl, inr, Bool, true, false, ◌||◌, String, Option, none, some, ◌==◌,
  if◌then◌else◌, Bool-cases, arith, map_some,
}
use text.Mathlib.TextEquality.{Char-path}
use lunaroute.Prelude.Texts.{replace, replace_from, begins_with, strip_prefix, is_some}
use lunaroute.Session.SqliteWriter.{escape_like, like_pattern}

-- A text in which two characters stand for each one of a code.
doubled : ℕ → Char → Char → String → String
doubled d a b String.[] = String.[]
doubled d a b (String.◌∷◌ c s) =
    let rest = doubled d a b s in
    if code c == d then String.◌∷◌ a (String.◌∷◌ b rest) else String.◌∷◌ c rest

pair : Char → Char → String
pair a b = String.◌∷◌ a (String.◌∷◌ b String.[])

one : Char → String
one p = String.◌∷◌ p String.[]

pair-append : (a b : Char) (t : String) → str_append (pair a b) t ≡ String.◌∷◌ a (String.◌∷◌ b t)
unfolding pair
pair-append a b t =
    rw (append.cons a (String.◌∷◌ b String.[]) t, append.cons b String.[] t, append.nil t) refl

replace_from-doubled :
    (p a b : Char) (s : String)
    → count (one p) - 1 ≡ 0
    → replace_from (one p) (pair a b) 0 s ≡ doubled (code p) a b s
unfolding replace_from doubled begins_with strip_prefix is_some one pair
replace_from-doubled p a b String.[] single = refl
replace_from-doubled p a b (String.◌∷◌ c s) single = elim (Bool-cases (code p == code c)) [
  | inl same ↦
      let rest = replace_from-doubled p a b s single in
      let same' : (code c == code p) ≡ true = ground arith in
      rw (same, replace_from, same', single, rest) (pair-append a b (doubled (code p) a b s))
  | inr other ↦
      let rest = replace_from-doubled p a b s single in
      let other' : (code c == code p) ≡ false = ground arith in
      rw (other, replace_from, other', rest) refl
]

-- A pattern of LIKE with the escape character `\` as the text that it stands for: none, where a `%` or
-- `_` is not escaped or an escape has nothing after it. The flag says that an escape came before.
abbrev pub literal_text : Bool → String → Option String
literal_text true String.[] = none
literal_text true (String.◌∷◌ c s) = map_some (λ t. String.◌∷◌ c t) (literal_text false s)
literal_text false String.[] = some String.[]
literal_text false (String.◌∷◌ c s) =
    let escaped = literal_text true s in
    let rest = literal_text false s in
    if code c == 92
    then escaped
    else (if code c == 37 || code c == 95 then none else map_some (λ t. String.◌∷◌ c t) rest)

escaped_text : String → String
escaped_text s = doubled 95 "\\" "_" (doubled 37 "\\" "%" (doubled 92 "\\" "\\" s))

plain_character :
    (c : Char) (s : String)
    → (code c == 92) ≡ false
    → (code c == 37) ≡ false
    → (code c == 95) ≡ false
    → literal_text false (String.◌∷◌ c s) ≡ map_some (λ t. String.◌∷◌ c t) (literal_text false s)
plain_character c s h h' h'' = rw (h, h', h'') refl

literal_text-escaped : (s : String) → literal_text false (escaped_text s) ≡ some s
unfolding escaped_text doubled
literal_text-escaped String.[] = refl
literal_text-escaped (String.◌∷◌ c s) =
    let rest = literal_text-escaped s in
    elim (Bool-cases (code c == 92)) [
      | inl backslash ↦
          rw (backslash, rest) (ap (λ d. some (String.◌∷◌ d s)) (Char-path "\\" c (ground arith)))
      | inr h ↦ elim (Bool-cases (code c == 37)) [
        | inl percent ↦
            rw (h, percent, rest) (ap (λ d. some (String.◌∷◌ d s)) (Char-path "%" c (ground arith)))
        | inr h' ↦ elim (Bool-cases (code c == 95)) [
          | inl underscore ↦
              rw (h, h', underscore, rest)
                (ap (λ d. some (String.◌∷◌ d s)) (Char-path "_" c (ground arith)))
          | inr h'' ↦
              rw (h, h', h'')
                (plain_character c (escaped_text s) h h' h''
                  ∙ ap (map_some (λ t. String.◌∷◌ c t)) rest)
        ]
      ]
    ]

escape_like-escaped : (text : String) → escape_like text ≡ escaped_text text
unfolding escape_like replace escaped_text pair one
escape_like-escaped text =
    rw
      (
        replace_from-doubled "\\" "\\" "\\" text refl,
        replace_from-doubled "%" "\\" "%" (doubled 92 "\\" "\\" text) refl,
        replace_from-doubled "_" "\\" "_" (doubled 37 "\\" "%" (doubled 92 "\\" "\\" text)) refl,
      )
      refl

-- The pattern of a search for a text is a `%`, the text itself, in which no character is a wildcard
-- any more, and a `%`.
pub like_pattern-literal :
    (text : String)
    → (inner : String) × (like_pattern text ≡ str_append "%" (str_append inner "%"))
      × (literal_text false inner ≡ some text)
unfolding like_pattern
like_pattern-literal text = (
  escape_like text,
  refl,
  ap (literal_text false) (escape_like-escaped text) ∙ literal_text-escaped text,
)
