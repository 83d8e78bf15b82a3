-- ===== src/Pii.antt =====
-- crates/lunaroute-pii/src/redactor/standard_redactor.rs, redactor.rs and detector.rs: the merging of
-- detections and the redaction. A text that is cut is its UTF-8 bytes; a slice panics out of its
-- range and within a character. The code asks an f32 only whether it is greater than another.
pub mod Merging
pub mod Privacy
pub mod Replacement
pub mod Hiding
pub mod Detector
mod Examples
use Prim.Native.Nat.{zero, suc}
use Prim.Native.Char.{code}
use Prim.Native.String.{◌++◌ as str_append}
use lunaroute.Prelude.{
  ℕ, ◌+◌, ◌-◌, ◌/◌, ◌%◌, Bool, true, false, not, ◌&&◌, ◌||◌, String, Option, none, some, List, [],
  ◌∷◌, ◌++◌, length, ltb, leb, ◌==◌, if◌then◌else◌, and_then, map_some, value_or,
}
use lunaroute.Prelude.Maps.{lookup, insert}

pub data PiiType : Type 0 where
  email phone ssn credit_card ip_address custom : PiiType

pub record Detection : Type 0 where
  pub pii_type : PiiType
  pub start : ℕ
  pub end : ℕ
  pub text : String
  pub confidence : ℕ

pub data RedactionMode : Type 0 where
  remove mask tokenize partial : RedactionMode

pub record TypeRedactionOverride : Type 0 where
  pub pii_type : PiiType
  pub mode : RedactionMode
  pub replacement : Option String

pub record RedactorConfig : Type 0 where
  pub mode : RedactionMode
  pub partial_show_chars : ℕ
  pub hmac_secret : Option String
  pub type_overrides : List TypeRedactionOverride

pub data CustomRedactionMode : Type 0 where
  tokenize mask : CustomRedactionMode

pub record CustomPattern : Type 0 where
  pub name : String
  pub redaction_mode : CustomRedactionMode
  pub placeholder : Option String

-- `text.as_bytes()[i]`.
unfoldable pub byte_at : List ℕ → ℕ → Option ℕ
byte_at [] i = none
byte_at (b ∷ bs) zero = some b
byte_at (b ∷ bs) (suc i) = byte_at bs i

starts_char : Option ℕ → Bool
starts_char none = false
starts_char (some b) = ltb b 0x80 || leb 0xc0 b

-- `text.is_char_boundary(i)`.
unfoldable pub is_char_boundary : List ℕ → ℕ → Bool
unfolding starts_char byte_at
is_char_boundary text i = i == 0 || i == length text || starts_char (byte_at text i)

unfoldable pub push : Option ℕ → List ℕ → List ℕ
push none rest = []
push (some b) rest = b ∷ rest

-- So many bytes from an index on.
unfoldable pub bytes_from : ℕ → List ℕ → ℕ → List ℕ
unfolding byte_at push
bytes_from zero text i = []
bytes_from (suc n) text i = push (byte_at text i) (bytes_from n text (i + 1))

-- `&text[from..to]`, or none for a panic.
unfoldable pub slice : List ℕ → ℕ → ℕ → Option (List ℕ)
unfolding is_char_boundary bytes_from
slice text from to =
    if leb from to && leb to (length text) && is_char_boundary text from && is_char_boundary text to
    then some (bytes_from (to - from) text from)
    else none

module _ (gt : ℕ → ℕ → Bool) where
  -- The comparison of `sort_by`: whether the first of two may stay before the second.
  unfoldable pub goes_first : Detection → Detection → Bool
  goes_first a b = ltb a.start b.start || (a.start == b.start && not (gt b.confidence a.confidence))

  insert_detection : Detection → List Detection → List Detection
  insert_detection d [] = d ∷ []
  insert_detection d (e ∷ es) =
      let rest = insert_detection d es in if goes_first d e then d ∷ e ∷ es else e ∷ rest

  -- The stable sort.
  unfoldable pub sorted : List Detection → List Detection
  unfolding insert_detection goes_first
  sorted [] = []
  sorted (d ∷ ds) = insert_detection d (sorted ds)

  -- An overlapping detection goes into the current one.
  unfoldable pub absorb : Detection → Detection → Detection
  absorb current d =
      if gt d.confidence current.confidence
      then (if ltb current.end d.end
          then record current {
            end = d.end;
            text = d.text;
            confidence = d.confidence;
            pii_type = d.pii_type;
          }
          else current)
      else (if ltb current.end d.end then record current { end = d.end } else current)

  unfoldable pub merge_from : Detection → List Detection → List Detection
  unfolding absorb
  merge_from current [] = current ∷ []
  merge_from current (d ∷ ds) = elim (ltb d.start current.end) [
    | true ↦ merge_from (absorb current d) ds
    | false ↦ current ∷ merge_from d ds
  ]

  merge_sorted : List Detection → List Detection
  unfolding merge_from
  merge_sorted [] = []
  merge_sorted (d ∷ ds) = merge_from d ds

  unfoldable pub merge_overlapping_detections : List Detection → List Detection
  unfolding merge_sorted sorted
  merge_overlapping_detections ds = merge_sorted (sorted ds)

  -- What a detection becomes, or none for a panic, is the argument `redact_detection`.
  module _ (redact_detection : Detection → Option (List ℕ)) where
    -- The loop of `redact`.
    unfoldable pub redact_from : List ℕ → ℕ → List Detection → Option (List ℕ)
    unfolding slice
    redact_from text last_end [] = slice text last_end (length text)
    redact_from text last_end (d ∷ ds) = and_then (slice text last_end d.start) (λ before.
        and_then (redact_detection d)
          (λ redacted. map_some (λ rest. before ++ redacted ++ rest) (redact_from text d.end ds)))

    unfoldable pub redact : List ℕ → List Detection → Option (List ℕ)
    unfolding redact_from merge_overlapping_detections
    redact text [] = some text
    redact text (d ∷ ds) = redact_from text 0 (merge_overlapping_detections (d ∷ ds))
