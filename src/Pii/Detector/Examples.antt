-- ===== src/Pii/Detector/Examples.antt =====
-- The detector at concrete inputs.
use lunaroute.Prelude.{
  ℕ, ◌≡◌, refl, Bool, true, false, String, ◌≢◌, Option, none, some, List, [], ◌∷◌, length, leb, ltb,
  arith,
}
use lunaroute.Prelude.Maps.{lookup}
use lunaroute.Prelude.Texts.{bytes_of, split_colon}
use lunaroute.Pii.{PiiType, ssn, RedactionMode, RedactorConfig, is_char_boundary}
use lunaroute.Pii.Replacement.{StandardRedactor, new, standard_redact}
use lunaroute.Pii.Replacement.Modes.{AllModes}
use lunaroute.Pii.Detector.{Finder, RegexPiiDetector, digits_of, validate_credit_card, detect}
use lunaroute.Pii.Detector.Luhn.{one_digit_off}
use lunaroute.Pii.Detector.Spans.{FindsSpans, AllFindSpans, redact-detect}

one_digit_off_example : validate_credit_card "4532-0151-1283-0466" ≡ false
unfolding digits_of validate_credit_card
one_digit_off_example =
    one_digit_off "4532-0151-1283-0366" "4532-0151-1283-0466"
      (4 ∷ 5 ∷ 3 ∷ 2 ∷ 0 ∷ 1 ∷ 5 ∷ 1 ∷ 1 ∷ 2 ∷ 8 ∷ 3 ∷ 0 ∷ []) (6 ∷ 6 ∷ []) 3 4 refl refl
      (omega arith) (omega arith) (λ e. omega (arith, e)) refl

-- The whole of a text that is not empty.
abbrev whole : Finder
whole [] = []
whole (b ∷ bs) = record { start = 0; end = length (b ∷ bs); as_str = "123-45-6789" } ∷ []

abbrev nothing : Finder
nothing text = []

abbrev detector : RegexPiiDetector
detector = record {
  config = record {
    detect_email = true;
    detect_phone = true;
    detect_ssn = true;
    detect_credit_card = true;
    detect_ip_address = true;
    min_confidence = 0x3f4ccccd;
  };
  email_regex = nothing;
  phone_regex = whole;
  ssn_regex = whole;
  credit_card_regex = nothing;
  ip_regex = nothing;
  custom_regexes = record { name = "id"; regex = whole; confidence = 0x3f800000 } ∷ [];
}

abbrev ge : ℕ → ℕ → Bool
ge a b = leb b a

abbrev gt : ℕ → ℕ → Bool
gt a b = ltb b a

whole_is_cut : (n : ℕ) (text : List ℕ) → length text ≡ n → is_char_boundary text n ≡ true
unfolding is_char_boundary
whole_is_cut n text e = ground arith

whole-FindsSpans : FindsSpans whole
whole-FindsSpans [] = tt
whole-FindsSpans (b ∷ bs) = (
  (
    omega arith,
    (
      (omega arith, unfold is_char_boundary in refl),
      (omega arith, whole_is_cut (length (b ∷ bs)) (b ∷ bs) refl),
    ),
  ),
  tt,
)

all-FindSpans : AllFindSpans detector
all-FindSpans =
    (λ text. tt, whole-FindsSpans, whole-FindsSpans, λ text. tt, λ text. tt, (whole-FindsSpans, tt))

-- Mask, but for social security numbers, which become a hash.
abbrev config : RedactorConfig
config = record {
  mode = RedactionMode.mask;
  partial_show_chars = 4;
  hmac_secret = some "secret";
  type_overrides =
      record { pii_type = ssn; mode = RedactionMode.tokenize; replacement = none } ∷ [];
}

abbrev hmac : String → String → String
hmac key text = "b64"

abbrev read_custom : String → Option (String × String)
read_custom text = none

abbrev redactor : StandardRedactor
unfolding new
redactor = new (λ secret. secret) config

never_partial : AllModes (λ mode. mode ≢ RedactionMode.partial) redactor
unfolding redactor
never_partial = (λ e. cc, (λ e. cc, tt))

abbrev input : List ℕ
input = 49 ∷ 50 ∷ 51 ∷ []

redact-detect_example :
    (out : List ℕ) × (standard_redact hmac read_custom redactor gt input (detect ge detector input)
      ≡ some out)
redact-detect_example =
    redact-detect ge gt hmac read_custom redactor detector input all-FindSpans never_partial

redacted_once :
    standard_redact hmac read_custom redactor gt input (detect ge detector input)
    ≡ some (bytes_of "[CUS:id]")
unfolding standard_redact detect redactor bytes_of split_colon lookup
redacted_once = refl

found_twice :
    detect ge detector input
    ≡ record { pii_type = ssn; start = 0; end = 3; text = "123-45-6789"; confidence = 0x3f666666 }
      ∷ record {
        pii_type = PiiType.custom;
        start = 0;
        end = 3;
        text = "id:123-45-6789";
        confidence = 0x3f800000;
      }
      ∷ []
unfolding detect
found_twice = refl
