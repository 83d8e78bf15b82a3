-- ===== src/Pii/Privacy.antt =====
-- What a redacted text tells of the text.
use Prim.Native.Nat.{zero, suc}
use lunaroute.Prelude.{
  ℕ, ◌+◌, ◌-◌, ◌≤◌, ◌<◌, ◌≡◌, refl, ap, ap₂, ◌∙◌, inl, inr, Bool, true, Option, some, List, [], ◌∷◌,
  ◌++◌, length, arith, All, le→leb,
}
use lunaroute.Pii.{
  Detection, byte_at, is_char_boundary, bytes_from, slice, redact_from, redact,
  merge_overlapping_detections,
}
use lunaroute.Pii.Merging.{
  IsClear, IsApart, IsSpan, merged-All, merge_overlapping_detections-IsApart,
}

-- A place where the text may be cut.
abbrev pub IsCut : List ℕ → ℕ → Type 0
IsCut text i = (i ≤ length text) × (is_char_boundary text i ≡ true)

-- Each detection is a stretch of the text.
abbrev pub Fits : List ℕ → List Detection → Type 0
Fits text ds = All (λ d. IsCut text d.start × IsCut text d.end) ds

-- Texts of one length that differ within the detections at most.
abbrev pub Agree : List Detection → List ℕ → List ℕ → Type 0
Agree ds text text' =
    (length text ≡ length text') × ((i : ℕ) → All (IsClear i) ds → byte_at text i ≡ byte_at text' i)

some_inj : {a b : ℕ} → ◌≡◌ {A = Option ℕ} (some a) (some b) → a ≡ b
some_inj h = cc

bytes_from-same :
    (n : ℕ) (text text' : List ℕ) (i : ℕ)
    → ((j : ℕ) → i ≤ j → j < i + n → byte_at text j ≡ byte_at text' j)
    → bytes_from n text i ≡ bytes_from n text' i
unfolding bytes_from
bytes_from-same zero text text' i same = refl
bytes_from-same (suc n) text text' i same =
    let rest =
      bytes_from-same n text text' (i + 1) (λ j h h'. same j (omega arith) (omega arith)) in
    rw (same i (omega arith) (omega arith), rest) refl

bytes_same :
    (text text' : List ℕ)
    → length text ≡ length text'
    → ((i : ℕ) → byte_at text i ≡ byte_at text' i)
    → text ≡ text'
unfolding byte_at
bytes_same [] [] lengths same = refl
bytes_same [] (b ∷ bs) lengths same = absurd (omega arith)
bytes_same (b ∷ bs) [] lengths same = absurd (omega arith)
bytes_same (b ∷ bs) (b' ∷ bs') lengths same =
    ap₂ (λ x xs. x ∷ xs) (some_inj (same 0)) (bytes_same bs bs' (omega arith) (λ i. same (suc i)))

-- A slice between two cuts does not panic.
slice-bytes_from :
    (text : List ℕ) (from to : ℕ)
    → from ≤ to
    → IsCut text from
    → IsCut text to
    → slice text from to ≡ some (bytes_from (to - from) text from)
unfolding slice
slice-bytes_from text from to h (inside, cut) (inside', cut') =
    rw (le→leb from to h, le→leb to (length text) inside', cut, cut') refl

slice-same :
    (text text' : List ℕ) (from to : ℕ)
    → from ≤ to
    → IsCut text from × IsCut text to
    → IsCut text' from × IsCut text' to
    → ((j : ℕ) → from ≤ j → j < to → byte_at text j ≡ byte_at text' j)
    → slice text from to ≡ slice text' from to
slice-same text text' from to h (a, b) (a', b') same =
    rw (slice-bytes_from text from to h a b, slice-bytes_from text' from to h a' b')
      (ap some (bytes_from-same (to - from) text text' from (λ j i i'. same j i (omega arith))))

end-is_char_boundary : (text : List ℕ) → is_char_boundary text (length text) ≡ true
unfolding is_char_boundary
end-is_char_boundary text = ground arith

-- Before the first detection of a list no position is held by any of them.
All-IsClear : (i last : ℕ) (ds : List Detection) → IsApart last ds → i < last → All (IsClear i) ds
All-IsClear i last [] a h = tt
All-IsClear i last (d ∷ ds) (after, span, a) h =
    (inl (omega arith), All-IsClear i d.end ds a (omega arith))

module _ (gt : ℕ → ℕ → Bool) (redact_detection : Detection → Option (List ℕ)) where
  redact_from-same :
      (ds : List Detection) (last : ℕ) (text text' : List ℕ)
      → IsApart last ds
      → IsCut text last × IsCut text' last
      → Fits text ds × Fits text' ds
      → length text ≡ length text'
      → ((i : ℕ) → last ≤ i → All (IsClear i) ds → byte_at text i ≡ byte_at text' i)
      → redact_from gt redact_detection text last ds ≡ redact_from gt redact_detection text' last ds
  unfolding redact_from
  redact_from-same [] last text text' apart (a, a') (f, f') lengths same =
      slice-same text text' last (length text) a.0 (a, (omega arith, end-is_char_boundary text))
        (a', (omega arith, rw lengths (end-is_char_boundary text'))) (λ j h h'. same j h tt)
      ∙ ap (slice text' last) lengths
  redact_from-same (d ∷ ds) last text text' (after, span, apart) (a, a')
        (((b, c), f), ((b', c'), f')) lengths same =
      let before =
        slice-same text text' last d.start after (a, b) (a', b')
          (λ j h h'. same j h (inl h', All-IsClear j d.end ds apart (omega arith))) in
      let later =
        redact_from-same ds d.end text text' apart (c, c') (f, f') lengths
          (λ i h clear. same i (omega arith) (inr h, clear)) in
      rw (before, later) refl

  redact_from-succeeds :
      (ds : List Detection) (last : ℕ) (text : List ℕ)
      → IsApart last ds
      → IsCut text last
      → Fits text ds
      → ((d : Detection) → (bytes : List ℕ) × (redact_detection d ≡ some bytes))
      → (out : List ℕ) × (redact_from gt redact_detection text last ds ≡ some out)
  unfolding redact_from
  redact_from-succeeds [] last text apart a f redacts =
      (_, slice-bytes_from text last (length text) a.0 a (omega arith, end-is_char_boundary text))
  redact_from-succeeds (d ∷ ds) last text (after, span, apart) a ((b, c), f) redacts =
      let (bytes, redacted) = redacts d in
      let (out, rest) = redact_from-succeeds ds d.end text apart c f redacts in
      (
        bytes_from (d.start - last) text last ++ bytes ++ out,
        rw (slice-bytes_from text last d.start after a b, redacted, rest) refl,
      )

  start-IsCut : (text : List ℕ) → IsCut text 0
  unfolding is_char_boundary
  start-IsCut text = (omega arith, refl)

  -- Two texts of one length that differ within the detections at most are redacted to the same text,
  -- when each detection is a stretch of both texts: the redacted text tells nothing of what stood at
  -- the positions of the detections, overlapping ones included, but by what replaces the detections.
  pub redact-same :
      (ds : List Detection) (text text' : List ℕ)
      → All IsSpan ds
      → Fits text ds
      → Fits text' ds
      → Agree ds text text'
      → redact gt redact_detection text ds ≡ redact gt redact_detection text' ds
  unfolding redact
  redact-same [] text text' spans f f' (lengths, same) =
      ap some (bytes_same text text' lengths (λ i. same i tt))
  redact-same (d ∷ ds) text text' spans f f' (lengths, same) =
      let (apart, clear) = merge_overlapping_detections-IsApart gt (d ∷ ds) spans in
      redact_from-same (merge_overlapping_detections gt (d ∷ ds)) 0 text text' apart
        (start-IsCut text, start-IsCut text')
        (merged-All gt (IsCut text) (d ∷ ds) f, merged-All gt (IsCut text') (d ∷ ds) f') lengths
        (λ i h free. same i (clear i free))

  -- The redaction of a text does not panic, whatever the detections overlap, when each detection is a
  -- stretch of the text and each one alone is redacted without a panic.
  pub redact-succeeds :
      (ds : List Detection) (text : List ℕ)
      → All IsSpan ds
      → Fits text ds
      → ((d : Detection) → (bytes : List ℕ) × (redact_detection d ≡ some bytes))
      → (out : List ℕ) × (redact gt redact_detection text ds ≡ some out)
  unfolding redact
  redact-succeeds [] text spans f redacts = (text, refl)
  redact-succeeds (d ∷ ds) text spans f redacts =
      let (apart, clear) = merge_overlapping_detections-IsApart gt (d ∷ ds) spans in
      redact_from-succeeds (merge_overlapping_detections gt (d ∷ ds)) 0 text apart
        (start-IsCut text) (merged-All gt (IsCut text) (d ∷ ds) f) redacts
