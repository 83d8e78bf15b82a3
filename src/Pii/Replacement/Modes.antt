-- ===== src/Pii/Replacement/Modes.antt =====
-- What the modes of a redactor let a replacement show of a detection.
use lunaroute.Prelude.{
  ℕ, ◌≡◌, refl, ap, ◌∙◌, ◌≢◌, ◌⊎◌, inl, inr, true, String, Option, none, some, List, [], ◌∷◌, arith,
  All, Bool-cases, ◌==◌, map_some, value_or, str_eq, if◌then◌else◌,
}
use lunaroute.Prelude.Maps.{lookup}
use lunaroute.Prelude.Texts.{bytes_of}
use lunaroute.Pii.{
  PiiType, custom, Detection, RedactionMode, TypeRedactionOverride, CustomRedactionMode,
  CustomPattern,
}
use lunaroute.Pii.Replacement.{
  StandardRedactor, rank, find_override, get_mode_for_type, by_custom_mode, name_and_text,
  custom_by, redact_custom_pattern, by_mode, redact_detection,
}

-- What holds of an override that was found.
abbrev Found : (RedactionMode → Type 0) → Option TypeRedactionOverride → Type 0
Found P none = Unit
Found P (some o) = P o.mode

find_override-Found :
    (P : RedactionMode → Type 0) (t : PiiType) (os : List TypeRedactionOverride)
    (found : Option TypeRedactionOverride)
    → All (λ o. P o.mode) os
    → Found P found
    → Found P (find_override t os found)
unfolding find_override
find_override-Found P t [] found a h = h
find_override-Found P t (o ∷ os) found (p, a) h = elim (Bool-cases (rank o.pii_type == rank t)) [
  | inl same ↦ rw same (find_override-Found P t os (some o) a p)
  | inr other ↦ rw other (find_override-Found P t os found a h)
]

-- The mode of the configuration and the modes of the overrides.
abbrev pub AllModes : (RedactionMode → Type 0) → StandardRedactor → Type 0
AllModes P r = P r.config.mode × All (λ o. P o.mode) r.type_overrides

-- A replacement that shows nothing of the text and does not depend on it.
abbrev pub IsBlind : RedactionMode → Type 0
IsBlind mode = (mode ≡ RedactionMode.remove) ⊎ (mode ≡ RedactionMode.mask)

abbrev pub IsMasked : String × CustomPattern → Type 0
IsMasked entry = entry.1.redaction_mode ≡ CustomRedactionMode.mask

lookup-mask :
    (name : String) (ps : List (String × CustomPattern)) (p : CustomPattern)
    → All IsMasked ps
    → lookup name ps ≡ some p
    → p.redaction_mode ≡ CustomRedactionMode.mask
unfolding lookup
lookup-mask name [] p a h = cc
lookup-mask name ((k, q) ∷ ps) p (m, a) h = elim (Bool-cases (str_eq k name)) [
  | inl same ↦ cc (m, rw same at h)
  | inr other ↦ lookup-mask name ps p a (rw other at h)
]

module _ (hmac : String → String → String) (read_custom : String → Option (String × String))
    (r : StandardRedactor) where
  get_mode_for_type-AllModes :
      (P : RedactionMode → Type 0) (t : PiiType)
      → AllModes P r
      → P (get_mode_for_type hmac read_custom r t)
  unfolding get_mode_for_type
  get_mode_for_type-AllModes P t (base, overrides) =
      chosen (find_override t r.type_overrides none)
        (find_override-Found P t r.type_overrides none overrides tt)
    where
      chosen :
          (o : Option TypeRedactionOverride)
          → Found P o
          → P (value_or (map_some (λ x. x.mode) o) r.config.mode)
      chosen none h = base
      chosen (some o) h = h

  by_mode-succeeds :
      (mode : RedactionMode) (d : Detection)
      → mode ≢ RedactionMode.partial
      → (bytes : List ℕ) × (by_mode hmac read_custom r mode d ≡ some bytes)
  unfolding by_mode
  by_mode-succeeds RedactionMode.remove d h = (_, refl)
  by_mode-succeeds RedactionMode.mask d h = (_, refl)
  by_mode-succeeds RedactionMode.tokenize d h = (_, refl)
  by_mode-succeeds RedactionMode.partial d h = absurd (h refl)

  -- A redactor that shows no part of a detection replaces each without a panic.
  pub redact_detection-succeeds :
      (d : Detection)
      → AllModes (λ mode. mode ≢ RedactionMode.partial) r
      → (bytes : List ℕ) × (redact_detection hmac read_custom r d ≡ some bytes)
  unfolding redact_detection
  redact_detection-succeeds d modes = elim (Bool-cases (rank d.pii_type == rank custom)) [
    | inl same ↦ rw same (_, refl)
    | inr other ↦ rw other (
        by_mode-succeeds (get_mode_for_type hmac read_custom r d.pii_type) d
          (get_mode_for_type-AllModes (λ mode. mode ≢ RedactionMode.partial) d.pii_type modes))
  ]

  by_mode-same :
      (mode : RedactionMode) (d d' : Detection)
      → IsBlind mode
      → d.pii_type ≡ d'.pii_type
      → by_mode hmac read_custom r mode d ≡ by_mode hmac read_custom r mode d'
  unfolding by_mode
  by_mode-same mode d d' (inl e) t = rw (e, by_mode) refl
  by_mode-same mode d d' (inr e) t = rw (e, by_mode, t) refl

  -- The name of the pattern that a custom detection carries in its text.
  unfoldable pub pattern_name : Detection → Option String
  unfolding name_and_text
  pattern_name d =
      map_some (λ read. read.0) (name_and_text hmac read_custom r (read_custom d.text) d.text)

  masked_same :
      (name text text' : String) (o : Option CustomPattern)
      → ((p : CustomPattern) → o ≡ some p → p.redaction_mode ≡ CustomRedactionMode.mask)
      → by_custom_mode hmac read_custom r (map_some (λ p. p.redaction_mode) o) name text o
        ≡ by_custom_mode hmac read_custom r (map_some (λ p. p.redaction_mode) o) name text' o
  unfolding by_custom_mode
  masked_same name text text' none masks = refl
  masked_same name text text' (some p) masks = rw (masks p refl, by_custom_mode) refl

  custom_by-same :
      (o o' : Option (String × String))
      → All IsMasked r.custom_patterns
      → map_some (λ read. read.0) o ≡ map_some (λ read. read.0) o'
      → custom_by hmac read_custom r o ≡ custom_by hmac read_custom r o'
  unfolding custom_by
  custom_by-same none none masks e = refl
  custom_by-same none (some (n', t')) masks e = cc
  custom_by-same (some (n, t)) none masks e = cc
  custom_by-same (some (n, t)) (some (n', t')) masks e =
      let same : n' ≡ n = cc in
      rw same (
        masked_same n t t' (lookup n r.custom_patterns)
          (λ p h. lookup-mask n r.custom_patterns p masks h))

  -- Two detections that differ in their texts alone, but for the name of a custom pattern.
  abbrev pub Alike : Detection → Detection → Type 0
  Alike d d' =
      (d.pii_type ≡ d'.pii_type)
      × (d.start ≡ d'.start)
      × (d.end ≡ d'.end)
      × (d.confidence ≡ d'.confidence)
      × (d.pii_type ≡ custom → pattern_name d ≡ pattern_name d')

  rank_custom : (t : PiiType) → (rank t == rank custom) ≡ true → t ≡ custom
  unfolding rank
  rank_custom t h = ground arith

  -- The replacement of a detection, were it of the type.
  redact_as : PiiType → Detection → Option (List ℕ)
  redact_as t d =
      if rank t == rank custom
      then some (bytes_of (redact_custom_pattern hmac read_custom r d))
      else by_mode hmac read_custom r (get_mode_for_type hmac read_custom r t) d

  redact_as-same :
      (t : PiiType) (d d' : Detection)
      → AllModes IsBlind r
      → All IsMasked r.custom_patterns
      → d.pii_type ≡ d'.pii_type
      → (t ≡ custom → pattern_name d ≡ pattern_name d')
      → redact_as t d ≡ redact_as t d'
  unfolding redact_as redact_custom_pattern pattern_name
  redact_as-same t d d' modes masks type names = elim (Bool-cases (rank t == rank custom)) [
    | inl same ↦ rw same (
        ap (λ s. some (bytes_of s))
          (custom_by-same (name_and_text hmac read_custom r (read_custom d.text) d.text)
            (name_and_text hmac read_custom r (read_custom d'.text) d'.text) masks
            (names (rank_custom t same))))
    | inr other ↦ rw other (
        by_mode-same (get_mode_for_type hmac read_custom r t) d d'
          (get_mode_for_type-AllModes IsBlind t modes) type)
  ]

  -- A redactor that hides what it replaces treats them alike.
  pub redact_detection-same :
      (d d' : Detection)
      → AllModes IsBlind r
      → All IsMasked r.custom_patterns
      → Alike d d'
      → redact_detection hmac read_custom r d ≡ redact_detection hmac read_custom r d'
  unfolding redact_detection redact_as
  redact_detection-same d d' modes masks (type, _, _, _, names) =
      redact_as-same d.pii_type d d' modes masks type names ∙ ap (λ t. redact_as t d') type
