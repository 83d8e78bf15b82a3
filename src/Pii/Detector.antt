-- ===== src/Pii/Detector.antt =====
-- crates/lunaroute-pii/src/detector/regex_detector.rs: the detector. The matches of each regular
-- expression in a text are a parameter, and so is the order of f32 confidences, given by their bits.
pub mod Luhn
pub mod Spans
mod Examples
use Prim.Native.Char.{code}
use Prim.Native.String.{◌++◌ as str_append}
use lunaroute.Prelude.{
  ℕ, zero, suc, ◌+◌, ◌-◌, ◌*◌, ◌%◌, Bool, true, false, not, ◌&&◌, ◌||◌, String, List, [], ◌∷◌, ◌++◌,
  length, ltb, leb, ◌==◌, if◌then◌else◌, is_empty,
}
use lunaroute.Pii.{PiiType, email, phone, ssn, credit_card, ip_address, custom, Detection}

-- What `find_iter` yields.
pub record Match : Type 0 where
  pub start : ℕ
  pub end : ℕ
  pub as_str : String

abbrev pub Finder : Type 0
Finder = List ℕ → List Match

pub record DetectorConfig : Type 0 where
  pub detect_email : Bool
  pub detect_phone : Bool
  pub detect_ssn : Bool
  pub detect_credit_card : Bool
  pub detect_ip_address : Bool
  pub min_confidence : ℕ

-- A custom pattern after its regular expression is compiled.
pub record CustomRegex : Type 0 where
  pub name : String
  pub regex : Finder
  pub confidence : ℕ

pub record RegexPiiDetector : Type 0 where
  pub config : DetectorConfig
  pub email_regex : Finder
  pub phone_regex : Finder
  pub ssn_regex : Finder
  pub credit_card_regex : Finder
  pub ip_regex : Finder
  pub custom_regexes : List CustomRegex

-- The values of the ASCII digits of a text.
unfoldable pub digits_of : String → List ℕ
digits_of String.[] = []
digits_of (String.◌∷◌ c s) =
    let rest = digits_of s in
    if leb 48 (code c) && leb (code c) 57 then (code c - 48) ∷ rest else rest

unfoldable pub reverse_digits : List ℕ → List ℕ → List ℕ
reverse_digits done [] = done
reverse_digits done (d ∷ ds) = reverse_digits (d ∷ done) ds

-- What a digit adds to the checksum, at an odd position or at an even one.
unfoldable pub weight : Bool → ℕ → ℕ
weight true d = if ltb 9 (d * 2) then d * 2 - 9 else d * 2
weight false d = d

-- The sum from the last digit on, with whether the position is odd.
unfoldable pub checksum : Bool → List ℕ → ℕ
unfolding weight
checksum odd [] = 0
checksum odd (d ∷ ds) = weight odd d + checksum (not odd) ds

unfoldable pub validate_credit_card : String → Bool
unfolding checksum reverse_digits digits_of
validate_credit_card number =
    let digits = digits_of number in
    if ltb (length digits) 13 || ltb 19 (length digits)
    then false
    else checksum false (reverse_digits [] digits) % 10 == 0

-- The groups of an SSN.
check_ssn : List ℕ → Bool
check_ssn (a ∷ b ∷ c ∷ d ∷ e ∷ f ∷ g ∷ h ∷ i ∷ []) =
    not (
      (a == 0 && (b == 0 && c == 0))
      || ((d == 0 && e == 0) || (f == 0 && (g == 0 && (h == 0 && i == 0)))))
    && (not (a == 6 && (b == 6 && c == 6)) && not (a == 9))
check_ssn _ = false

unfoldable pub validate_ssn : String → Bool
unfolding check_ssn digits_of
validate_ssn text = check_ssn (digits_of text)

starts_with_one : List ℕ → Bool
starts_with_one [] = false
starts_with_one (d ∷ ds) = d == 1

unfoldable pub validate_phone : String → Bool
unfolding starts_with_one digits_of
validate_phone text =
    let digits = digits_of text in
    if ltb (length digits) 10 || ltb 15 (length digits)
    then false
    else (if length digits == 11 && not (starts_with_one digits) then false else true)

unfoldable pub to_detection : PiiType → ℕ → Match → Detection
to_detection pii_type confidence m = record {
  pii_type = pii_type;
  start = m.start;
  end = m.end;
  text = m.as_str;
  confidence = confidence;
}

unfoldable pub custom_detection : String → ℕ → Match → Detection
custom_detection name confidence m = record {
  pii_type = custom;
  start = m.start;
  end = m.end;
  text = str_append name (str_append ":" m.as_str);
  confidence = confidence;
}

-- The detections of the matches that a check accepts.
unfoldable pub accepted : (String → Bool) → (Match → Detection) → List Match → List Detection
accepted check detection [] = []
accepted check detection (m ∷ ms) =
    let rest = accepted check detection ms in if check m.as_str then detection m ∷ rest else rest

unfoldable pub insert_by_start : Detection → List Detection → List Detection
insert_by_start d [] = d ∷ []
insert_by_start d (e ∷ ds) =
    let rest = insert_by_start d ds in if leb d.start e.start then d ∷ e ∷ ds else e ∷ rest

-- `sort_by_key` on the starts, which is stable.
unfoldable pub sort_by_start : List Detection → List Detection
unfolding insert_by_start
sort_by_start [] = []
sort_by_start (d ∷ ds) = insert_by_start d (sort_by_start ds)

unfoldable pub any_text : String → Bool
any_text text = true

-- The test on confidences is `ge`.
module _ (ge : ℕ → ℕ → Bool) where
  unfoldable pub find_all :
      Bool → ℕ → ℕ → PiiType → (String → Bool) → Finder → List ℕ → List Detection
  unfolding accepted to_detection
  find_all enabled min_confidence confidence pii_type check regex text =
      if enabled && ge confidence min_confidence
      then accepted check (to_detection pii_type confidence) (regex text)
      else []

  unfoldable pub find_custom : ℕ → List CustomRegex → List ℕ → List Detection
  unfolding accepted custom_detection any_text
  find_custom min_confidence [] text = []
  find_custom min_confidence (r ∷ rs) text =
      let rest = find_custom min_confidence rs text in
      if ge r.confidence min_confidence
      then accepted any_text (custom_detection r.name r.confidence) (r.regex text) ++ rest
      else rest

  -- The confidences are the bits of 0.95, 0.85, 0.9, 0.95 and 0.99.
  unfoldable pub detect : RegexPiiDetector → List ℕ → List Detection
  unfolding find_all find_custom sort_by_start validate_phone validate_ssn validate_credit_card
      any_text
  detect self text =
      let min = self.config.min_confidence in
      sort_by_start (
        find_all self.config.detect_email min 0x3f733333 email any_text self.email_regex text
        ++ find_all self.config.detect_phone min 0x3f59999a phone validate_phone self.phone_regex
            text
        ++ find_all self.config.detect_ssn min 0x3f666666 ssn validate_ssn self.ssn_regex text
        ++ find_all self.config.detect_credit_card min 0x3f733333 credit_card validate_credit_card
            self.credit_card_regex text
        ++ find_all self.config.detect_ip_address min 0x3f7d70a4 ip_address any_text self.ip_regex
            text
        ++ find_custom min self.custom_regexes text)

types_if : Bool → PiiType → List PiiType
types_if enabled t = if enabled then t ∷ [] else []

unfoldable pub supported_types : RegexPiiDetector → List PiiType
unfolding types_if
supported_types self =
    types_if self.config.detect_email email
    ++ types_if self.config.detect_phone phone
    ++ types_if self.config.detect_ssn ssn
    ++ types_if self.config.detect_credit_card credit_card
    ++ types_if self.config.detect_ip_address ip_address
    ++ types_if (not (is_empty self.custom_regexes)) custom
