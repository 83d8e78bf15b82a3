-- ===== src/Pii/Replacement.antt =====
-- What a detection becomes. The base64 of an HMAC, the key that is derived from a secret, and the
-- reading of a custom detection as JSON are parameters.
pub mod Modes
use Prim.Native.Nat.{zero, suc}
use Prim.Native.String.{◌++◌ as str_append}
use lunaroute.Prelude.{
  ℕ, ◌-◌, Bool, String, Option, none, some, List, [], ◌∷◌, ◌++◌, length, leb, ◌==◌, if◌then◌else◌,
  and_then, map_some, value_or,
}
use lunaroute.Prelude.Maps.{lookup, insert}
use lunaroute.Prelude.Texts.{bytes_of, split_colon}
use lunaroute.Pii.{
  PiiType, email, phone, ssn, credit_card, ip_address, custom, Detection, RedactionMode,
  TypeRedactionOverride, RedactorConfig, CustomRedactionMode, CustomPattern, slice, redact,
}

pub record StandardRedactor : Type 0 where
  pub config : RedactorConfig
  pub type_overrides : List TypeRedactionOverride
  pub custom_patterns : List (String × CustomPattern)
  pub hmac_key : Option String

collect_patterns :
    List CustomPattern → List (String × CustomPattern) → List (String × CustomPattern)
collect_patterns [] m = m
collect_patterns (p ∷ ps) m = collect_patterns ps (insert p.name p m)

rank : PiiType → ℕ
rank email = 0
rank phone = 1
rank ssn = 2
rank credit_card = 3
rank ip_address = 4
rank custom = 5

-- The last override of a type, as in the map that is collected from the list.
find_override :
    PiiType
    → List TypeRedactionOverride
    → Option TypeRedactionOverride
    → Option TypeRedactionOverride
unfolding rank
find_override t [] found = found
find_override t (o ∷ os) found =
    find_override t os (if rank o.pii_type == rank t then some o else found)

default_mask : PiiType → String
default_mask email = "[EMAIL]"
default_mask phone = "[PHONE]"
default_mask ssn = "[SSN]"
default_mask credit_card = "[CREDIT_CARD]"
default_mask ip_address = "[IP_ADDRESS]"
default_mask custom = "[REDACTED]"

pii_type_abbrev : PiiType → String
pii_type_abbrev email = "EM"
pii_type_abbrev phone = "PH"
pii_type_abbrev ssn = "SSN"
pii_type_abbrev credit_card = "CC"
pii_type_abbrev ip_address = "IP"
pii_type_abbrev custom = "CUS"

-- `&hash[..16.min(hash.len())]` of a text in base64.
first_chars : ℕ → String → String
first_chars zero s = ""
first_chars (suc n) String.[] = ""
first_chars (suc n) (String.◌∷◌ c s) = String.◌∷◌ c (first_chars n s)

-- `"*".repeat(n)`.
asterisks : ℕ → List ℕ
asterisks zero = []
asterisks (suc n) = 42 ∷ asterisks n

-- `[a:b]`.
bracketed : String → String → String
bracketed a b = str_append "[" (str_append a (str_append ":" (str_append b "]")))

module _ (derive_hmac_key : String → String) where
  unfoldable pub with_custom_patterns : RedactorConfig → List CustomPattern → StandardRedactor
  unfolding collect_patterns
  with_custom_patterns config custom_patterns = record {
    config = config;
    type_overrides = config.type_overrides;
    custom_patterns = collect_patterns custom_patterns [];
    hmac_key = map_some derive_hmac_key config.hmac_secret;
  }

  -- `StandardRedactor::new`.
  unfoldable pub new : RedactorConfig → StandardRedactor
  unfolding with_custom_patterns
  new config = with_custom_patterns config []

module _ (hmac : String → String → String) (read_custom : String → Option (String × String))
    (r : StandardRedactor) where
  get_mode_for_type : PiiType → RedactionMode
  unfolding find_override
  get_mode_for_type t =
      value_or (map_some (λ o. o.mode) (find_override t r.type_overrides none)) r.config.mode

  get_replacement_for_type : PiiType → Option String
  unfolding find_override
  get_replacement_for_type t = and_then (find_override t r.type_overrides none) (λ o. o.replacement)

  pattern_mask : String → Option CustomPattern → String
  unfolding bracketed
  pattern_mask name pattern' =
      value_or (and_then pattern' (λ p. p.placeholder)) (bracketed "CUS" name)

  pattern_token : Option String → String → String → Option CustomPattern → String
  unfolding pattern_mask bracketed first_chars
  pattern_token (some key) name actual_text pattern' =
      bracketed "CUS" (str_append name (str_append ":" (first_chars 16 (hmac key actual_text))))
  pattern_token none name actual_text pattern' = pattern_mask name pattern'

  by_custom_mode : Option CustomRedactionMode → String → String → Option CustomPattern → String
  unfolding pattern_token
  by_custom_mode (some CustomRedactionMode.tokenize) name actual_text pattern' =
      pattern_token r.hmac_key name actual_text pattern'
  by_custom_mode _ name actual_text pattern' = pattern_mask name pattern'

  -- The name and the text of a custom detection, in JSON or in the old form.
  name_and_text : Option (String × String) → String → Option (String × String)
  name_and_text (some read) text = some read
  name_and_text none text = split_colon text

  custom_by : Option (String × String) → String
  unfolding by_custom_mode
  custom_by none = "[CUS:UNKNOWN]"
  custom_by (some (name, actual_text)) =
      let pattern' = lookup name r.custom_patterns in
      by_custom_mode (map_some (λ p. p.redaction_mode) pattern') name actual_text pattern'

  unfoldable pub redact_custom_pattern : Detection → String
  unfolding custom_by name_and_text
  redact_custom_pattern d = custom_by (name_and_text (read_custom d.text) d.text)

  masked : PiiType → String
  unfolding get_replacement_for_type default_mask
  masked t = value_or (get_replacement_for_type t) (default_mask t)

  token_of : Option String → Detection → String
  unfolding masked pii_type_abbrev bracketed first_chars
  token_of (some key) d = bracketed (pii_type_abbrev d.pii_type) (first_chars 16 (hmac key d.text))
  token_of none d = masked d.pii_type

  -- The last bytes stay; the cut may panic within a character.
  partly_shown : List ℕ → ℕ → Option (List ℕ)
  unfolding asterisks slice
  partly_shown bytes show_chars =
      if leb (length bytes) show_chars
      then some (asterisks (length bytes))
      else map_some (λ visible. asterisks (length bytes - show_chars) ++ visible)
          (slice bytes (length bytes - show_chars) (length bytes))

  by_mode : RedactionMode → Detection → Option (List ℕ)
  unfolding masked token_of partly_shown
  by_mode RedactionMode.remove d = some []
  by_mode RedactionMode.mask d = some (bytes_of (masked d.pii_type))
  by_mode RedactionMode.tokenize d = some (bytes_of (token_of r.hmac_key d))
  by_mode RedactionMode.partial d = partly_shown (bytes_of d.text) r.config.partial_show_chars

  unfoldable pub redact_detection : Detection → Option (List ℕ)
  unfolding by_mode rank redact_custom_pattern get_mode_for_type
  redact_detection d =
      if rank d.pii_type == rank custom
      then some (bytes_of (redact_custom_pattern d))
      else by_mode (get_mode_for_type d.pii_type) d

  -- `StandardRedactor::redact`.
  unfoldable pub standard_redact : (ℕ → ℕ → Bool) → List ℕ → List Detection → Option (List ℕ)
  unfolding redact_detection redact
  standard_redact gt text ds = redact gt redact_detection text ds
