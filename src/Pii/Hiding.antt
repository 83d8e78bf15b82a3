-- ===== src/Pii/Hiding.antt =====
-- What a text that the standard redactor has redacted tells of the text.
use lunaroute.Prelude.{
  ℕ, ◌≡◌, refl, ap, ap₂, ◌∙◌, inl, inr, Bool, String, Option, and_then, map_some, List, ◌++◌, [],
  ◌∷◌, ltb, All, Bool-cases,
}
use lunaroute.Pii.{
  Detection, goes_first, insert_detection, sorted, absorb, merge_from, merge_sorted,
  merge_overlapping_detections, redact_from, redact, slice,
}
use lunaroute.Pii.Merging.{IsSpan}
use lunaroute.Pii.Privacy.{Fits, Agree, redact-same}
use lunaroute.Pii.Replacement.{StandardRedactor, redact_detection, standard_redact}
use lunaroute.Pii.Replacement.Modes.{
  AllModes, IsBlind, IsMasked, Alike, pattern_name, redact_detection-same,
}

module _ (gt : ℕ → ℕ → Bool) (hmac : String → String → String)
    (read_custom : String → Option (String × String)) (r : StandardRedactor) where
  -- The detections of two texts that differ in what was detected alone.
  unfoldable pub AreAlike : List Detection → List Detection → Type 0
  AreAlike [] [] = Unit
  AreAlike (d ∷ ds) (d' ∷ ds') = Alike hmac read_custom r d d' × AreAlike ds ds'
  AreAlike _ _ = ⊥

  goes_first-same :
      (d d' e e' : Detection)
      → Alike hmac read_custom r d d'
      → Alike hmac read_custom r e e'
      → goes_first gt d e ≡ goes_first gt d' e'
  unfolding goes_first
  goes_first-same d d' e e' (_, s, _, c, _) (_, s', _, c', _) = rw (s, s', c, c') refl

  insert-AreAlike :
      (d d' : Detection) (es es' : List Detection)
      → Alike hmac read_custom r d d'
      → AreAlike es es'
      → AreAlike (insert_detection gt d es) (insert_detection gt d' es')
  unfolding insert_detection AreAlike
  insert-AreAlike d d' [] [] h a = (h, tt)
  insert-AreAlike d d' [] (e' ∷ es') h a = absurd a
  insert-AreAlike d d' (e ∷ es) [] h a = absurd a
  insert-AreAlike d d' (e ∷ es) (e' ∷ es') h (g, a) =
      let same = goes_first-same d d' e e' h g in
      elim (Bool-cases (goes_first gt d' e')) [
        | inl first ↦ rw (same, first) (h, (g, a))
        | inr later ↦ let rest = insert-AreAlike d d' es es' h a in rw (same, later) (g, rest)
      ]

  sorted-AreAlike :
      (ds ds' : List Detection) → AreAlike ds ds' → AreAlike (sorted gt ds) (sorted gt ds')
  unfolding sorted AreAlike
  sorted-AreAlike [] [] a = tt
  sorted-AreAlike [] (d' ∷ ds') a = absurd a
  sorted-AreAlike (d ∷ ds) [] a = absurd a
  sorted-AreAlike (d ∷ ds) (d' ∷ ds') (h, a) =
      insert-AreAlike d d' (sorted gt ds) (sorted gt ds') h (sorted-AreAlike ds ds' a)

  absorb-Alike :
      (current current' d d' : Detection)
      → Alike hmac read_custom r current current'
      → Alike hmac read_custom r d d'
      → Alike hmac read_custom r (absorb gt current d) (absorb gt current' d')
  unfolding absorb pattern_name
  absorb-Alike current current' d d' (t, s, e, c, n) (t', s', e', c', n') =
      rw (c, c', e, e')
        (elim (Bool-cases (gt d'.confidence current'.confidence)) [
          | inl surer ↦ elim (Bool-cases (ltb current'.end d'.end)) [
            | inl further ↦ rw (surer, further) (t', s, refl, refl, n')
            | inr within ↦ rw (surer, within) (t, s, refl, refl, n)
          ]
          | inr unsure ↦ elim (Bool-cases (ltb current'.end d'.end)) [
            | inl further ↦ rw (unsure, further) (t, s, refl, refl, n)
            | inr within ↦ rw (unsure, within) (t, s, refl, refl, n)
          ]
        ])

  merge-AreAlike :
      (d d' : Detection) (es es' : List Detection)
      → Alike hmac read_custom r d d'
      → AreAlike es es'
      → AreAlike (merge_from gt d es) (merge_from gt d' es')
  unfolding merge_from AreAlike
  merge-AreAlike d d' [] [] h a = (h, tt)
  merge-AreAlike d d' [] (e' ∷ es') h a = absurd a
  merge-AreAlike d d' (e ∷ es) [] h a = absurd a
  merge-AreAlike d d' (e ∷ es) (e' ∷ es') h (g, a) =
      let start = g.1 in
      let end = h.2 in
      elim (Bool-cases (ltb e'.start d'.end)) [
        | inl over ↦
            let rest =
              merge-AreAlike (absorb gt d e) (absorb gt d' e') es es' (absorb-Alike d d' e e' h g)
                a in
            rw (start, end, merge_from, over) rest
        | inr apart ↦
            let rest = merge-AreAlike e e' es es' g a in
            rw (start, end, merge_from, apart) (h, rest)
      ]

  merge_sorted-AreAlike :
      (ds ds' : List Detection)
      → AreAlike ds ds'
      → AreAlike (merge_sorted gt ds) (merge_sorted gt ds')
  unfolding merge_sorted AreAlike
  merge_sorted-AreAlike [] [] a = tt
  merge_sorted-AreAlike [] (d' ∷ ds') a = absurd a
  merge_sorted-AreAlike (d ∷ ds) [] a = absurd a
  merge_sorted-AreAlike (d ∷ ds) (d' ∷ ds') (h, a) = merge-AreAlike d d' ds ds' h a

  merge_overlapping-AreAlike :
      (ds ds' : List Detection)
      → AreAlike ds ds'
      → AreAlike (merge_overlapping_detections gt ds) (merge_overlapping_detections gt ds')
  unfolding merge_overlapping_detections
  merge_overlapping-AreAlike ds ds' a =
      merge_sorted-AreAlike (sorted gt ds) (sorted gt ds') (sorted-AreAlike ds ds' a)

  redact_from-AreAlike :
      (text : List ℕ) (last : ℕ) (ds ds' : List Detection)
      → AllModes IsBlind r
      → All IsMasked r.custom_patterns
      → AreAlike ds ds'
      → redact_from gt (redact_detection hmac read_custom r) text last ds
        ≡ redact_from gt (redact_detection hmac read_custom r) text last ds'
  unfolding redact_from AreAlike
  redact_from-AreAlike text last [] [] modes masks a = refl
  redact_from-AreAlike text last [] (d' ∷ ds') modes masks a = absurd a
  redact_from-AreAlike text last (d ∷ ds) [] modes masks a = absurd a
  redact_from-AreAlike text last (d ∷ ds) (d' ∷ ds') modes masks (h, a) =
      ap
        (λ n. and_then (slice text last n) (λ before.
          and_then (redact_detection hmac read_custom r d) (λ redacted.
            map_some (λ rest. before ++ redacted ++ rest)
              (redact_from gt (redact_detection hmac read_custom r) text d.end ds))))
        h.1
      ∙ ap₂
          (λ x y.
            and_then (slice text last d'.start)
              (λ before. and_then x (λ redacted. map_some (λ rest. before ++ redacted ++ rest) y)))
          (redact_detection-same hmac read_custom r d d' modes masks h)
          (ap (λ n. redact_from gt (redact_detection hmac read_custom r) text n ds) h.2
            ∙ redact_from-AreAlike text d'.end ds ds' modes masks a)

  redact-AreAlike :
      (text : List ℕ) (ds ds' : List Detection)
      → AllModes IsBlind r
      → All IsMasked r.custom_patterns
      → AreAlike ds ds'
      → redact gt (redact_detection hmac read_custom r) text ds
        ≡ redact gt (redact_detection hmac read_custom r) text ds'
  unfolding redact AreAlike
  redact-AreAlike text [] [] modes masks a = refl
  redact-AreAlike text [] (d' ∷ ds') modes masks a = absurd a
  redact-AreAlike text (d ∷ ds) [] modes masks a = absurd a
  redact-AreAlike text (d ∷ ds) (d' ∷ ds') modes masks a =
      redact_from-AreAlike text 0 (merge_overlapping_detections gt (d ∷ ds))
        (merge_overlapping_detections gt (d' ∷ ds')) modes masks
        (merge_overlapping-AreAlike (d ∷ ds) (d' ∷ ds') a)

  -- Let two texts of one length agree outside the detections of the first, let each detection be a
  -- stretch of both texts, and let the detections of the second be of the same types, places and
  -- confidences, and, where custom, of the same pattern names, but of any other texts. When every
  -- mode of the redactor is Remove or Mask and every custom pattern has the mode Mask, the redactor
  -- makes the same text of both: the redacted text tells nothing of what was detected, overlapping
  -- detections included.
  pub standard_redact-same :
      (ds ds' : List Detection) (text text' : List ℕ)
      → AllModes IsBlind r
      → All IsMasked r.custom_patterns
      → All IsSpan ds
      → Fits text ds
      → Fits text' ds
      → Agree ds text text'
      → AreAlike ds ds'
      → standard_redact hmac read_custom r gt text ds
        ≡ standard_redact hmac read_custom r gt text' ds'
  unfolding standard_redact
  standard_redact-same ds ds' text text' modes masks spans fits fits' agree alike =
      redact-same gt (redact_detection hmac read_custom r) ds text text' spans fits fits' agree
      ∙ redact-AreAlike text' ds ds' modes masks alike
