-- ===== src/Pii/Merging.antt =====
-- The merging of detections.
use lunaroute.Prelude.{
  ℕ, ◌≤◌, ◌<◌, ◌≡◌, refl, ◌⊎◌, inl, inr, Bool, true, false, List, [], ◌∷◌, ltb, arith, All,
  Bool-cases,
}
use lunaroute.Pii.{
  Detection, goes_first, insert_detection, sorted, absorb, merge_from, merge_sorted,
  merge_overlapping_detections,
}

-- A position that no detection holds.
abbrev pub IsClear : ℕ → Detection → Type 0
IsClear i d = (i < d.start) ⊎ (d.end ≤ i)

-- Each detection begins where the one before ends, or later.
abbrev pub IsApart : ℕ → List Detection → Type 0
IsApart last [] = Unit
IsApart last (d ∷ ds) = (last ≤ d.start) × (d.start ≤ d.end) × IsApart d.end ds

abbrev IsSorted : ℕ → List Detection → Type 0
IsSorted s [] = Unit
IsSorted s (d ∷ ds) = (s ≤ d.start) × IsSorted d.start ds

abbrev pub IsSpan : Detection → Type 0
IsSpan d = d.start ≤ d.end

IsSorted-mono : (s s' : ℕ) (ds : List Detection) → s ≤ s' → IsSorted s' ds → IsSorted s ds
IsSorted-mono s s' [] h a = tt
IsSorted-mono s s' (d ∷ ds) h (h', a) = (omega arith, a)

module _ (gt : ℕ → ℕ → Bool) where
  insert_detection-All :
      (P : Detection → Type 0) (d : Detection) (es : List Detection)
      → P d
      → All P es
      → All P (insert_detection gt d es)
  unfolding insert_detection
  insert_detection-All P d [] p a = (p, tt)
  insert_detection-All P d (e ∷ es) p (q, a) = elim (Bool-cases (goes_first gt d e)) [
    | inl first ↦ rw first (p, (q, a))
    | inr later ↦ rw later (q, insert_detection-All P d es p a)
  ]

  All-insert_detection :
      (P : Detection → Type 0) (d : Detection) (es : List Detection)
      → All P (insert_detection gt d es)
      → P d × All P es
  unfolding insert_detection
  All-insert_detection P d [] (p, a) = (p, tt)
  All-insert_detection P d (e ∷ es) a = elim (Bool-cases (goes_first gt d e)) [
    | inl first ↦ rw first at a
    | inr later ↦
        let (q, rest) = rw later at a in
        let (p, a') = All-insert_detection P d es rest in (p, (q, a'))
  ]

  sorted-All : (P : Detection → Type 0) (ds : List Detection) → All P ds → All P (sorted gt ds)
  unfolding sorted
  sorted-All P [] a = tt
  sorted-All P (d ∷ ds) (p, a) = insert_detection-All P d (sorted gt ds) p (sorted-All P ds a)

  All-sorted : (P : Detection → Type 0) (ds : List Detection) → All P (sorted gt ds) → All P ds
  unfolding sorted
  All-sorted P [] a = tt
  All-sorted P (d ∷ ds) a =
      let (p, a') = All-insert_detection P d (sorted gt ds) a in (p, All-sorted P ds a')

  insert_detection-IsSorted :
      (s : ℕ) (d : Detection) (es : List Detection)
      → s ≤ d.start
      → IsSorted s es
      → IsSorted s (insert_detection gt d es)
  unfolding insert_detection goes_first
  insert_detection-IsSorted s d [] h a = (h, tt)
  insert_detection-IsSorted s d (e ∷ es) h (h', a) = elim (Bool-cases (goes_first gt d e)) [
    | inl first ↦ rw first (h, (ground (arith, first), a))
    | inr later ↦ rw later (h', insert_detection-IsSorted e.start d es (ground (arith, later)) a)
  ]

  sorted-IsSorted : (ds : List Detection) → IsSorted 0 (sorted gt ds)
  unfolding sorted
  sorted-IsSorted [] = tt
  sorted-IsSorted (d ∷ ds) =
      insert_detection-IsSorted 0 d (sorted gt ds) (omega arith) (sorted-IsSorted ds)

  -- The span of a detection that has absorbed another.
  absorb-span :
      (c d : Detection)
      → ((absorb gt c d).start ≡ c.start)
        × (c.end ≤ (absorb gt c d).end)
        × (d.end ≤ (absorb gt c d).end)
        × (((absorb gt c d).end ≡ c.end) ⊎ ((absorb gt c d).end ≡ d.end))
  unfolding absorb
  absorb-span c d = elim (Bool-cases (gt d.confidence c.confidence)) [
    | inl surer ↦ elim (Bool-cases (ltb c.end d.end)) [
      | inl longer ↦ rw (surer, longer) (refl, ground (arith, longer), omega arith, inr refl)
      | inr within ↦ rw (surer, within) (refl, omega arith, ground (arith, within), inl refl)
    ]
    | inr unsure ↦ elim (Bool-cases (ltb c.end d.end)) [
      | inl longer ↦ rw (unsure, longer) (refl, ground (arith, longer), omega arith, inr refl)
      | inr within ↦ rw (unsure, within) (refl, omega arith, ground (arith, within), inl refl)
    ]
  ]

  merge_from-overlap :
      (c d : Detection) (ds : List Detection)
      → ltb d.start c.end ≡ true
      → merge_from gt c (d ∷ ds) ≡ merge_from gt (absorb gt c d) ds
  unfolding merge_from
  merge_from-overlap c d ds h = rw (h, merge_from) refl

  merge_from-apart :
      (c d : Detection) (ds : List Detection)
      → ltb d.start c.end ≡ false
      → merge_from gt c (d ∷ ds) ≡ c ∷ merge_from gt d ds
  unfolding merge_from
  merge_from-apart c d ds h = rw (h, merge_from) refl

  -- What holds of the two ends of each detection holds of those of each merged one.
  merge_from-All :
      (P : ℕ → Type 0) (c : Detection) (ds : List Detection)
      → P c.start
      → P c.end
      → All (λ d. P d.start × P d.end) ds
      → All (λ d. P d.start × P d.end) (merge_from gt c ds)
  unfolding merge_from
  merge_from-All P c [] p q a = ((p, q), tt)
  merge_from-All P c (d ∷ ds) p q ((p', q'), a) = elim (Bool-cases (ltb d.start c.end)) [
    | inl overlap ↦
        let (same_start, longer, covers, which) = absorb-span c d in
        rw (merge_from-overlap c d ds overlap) (
          merge_from-All P (absorb gt c d) ds (rw same_start p)
            (elim which [ inl e ↦ rw e q | inr e ↦ rw e q' ]) a)
    | inr apart ↦ rw (merge_from-apart c d ds apart) ((p, q), merge_from-All P d ds p' q' a)
  ]

  merge_from-IsApart :
      (last : ℕ) (c : Detection) (ds : List Detection)
      → last ≤ c.start
      → IsSpan c
      → All IsSpan ds
      → IsApart last (merge_from gt c ds)
  unfolding merge_from
  merge_from-IsApart last c [] h span a = (h, span, tt)
  merge_from-IsApart last c (d ∷ ds) h span (span', a) = elim (Bool-cases (ltb d.start c.end)) [
    | inl overlap ↦
        let (same_start, longer, covers, which) = absorb-span c d in
        rw (merge_from-overlap c d ds overlap)
          (merge_from-IsApart last (absorb gt c d) ds (omega arith) (omega arith) a)
    | inr apart ↦
        rw (merge_from-apart c d ds apart)
          (h, span, merge_from-IsApart c.end d ds (ground (arith, apart)) span' a)
  ]

  -- A position that the merged detections leave clear was clear before.
  merge_from-IsClear :
      (i : ℕ) (c : Detection) (ds : List Detection)
      → IsSorted c.start ds
      → All (IsClear i) (merge_from gt c ds)
      → All (IsClear i) (c ∷ ds)
  unfolding merge_from
  merge_from-IsClear i c [] s a = a
  merge_from-IsClear i c (d ∷ ds) (later, s) a = elim (Bool-cases (ltb d.start c.end)) [
    | inl overlap ↦
        let (same_start, longer, covers, which) = absorb-span c d in
        let (clear, rest) =
          merge_from-IsClear i (absorb gt c d) ds
            (IsSorted-mono (absorb gt c d).start d.start ds (omega arith) s)
            (rw (merge_from-overlap c d ds overlap) at a) in
        elim clear [
          | inl before ↦ (inl (omega arith), (inl (omega arith), rest))
          | inr behind ↦ (inr (omega arith), (inr (omega arith), rest))
        ]
    | inr apart ↦
        let (clear, rest) = rw (merge_from-apart c d ds apart) at a in
        (clear, merge_from-IsClear i d ds s rest)
  ]

  merge_sorted-All :
      (P : ℕ → Type 0) (ds : List Detection)
      → All (λ d. P d.start × P d.end) ds
      → All (λ d. P d.start × P d.end) (merge_sorted gt ds)
  unfolding merge_sorted
  merge_sorted-All P [] a = tt
  merge_sorted-All P (d ∷ ds) ((p, q), a) = merge_from-All P d ds p q a

  merge_sorted-IsApart : (ds : List Detection) → All IsSpan ds → IsApart 0 (merge_sorted gt ds)
  unfolding merge_sorted
  merge_sorted-IsApart [] a = tt
  merge_sorted-IsApart (d ∷ ds) (span, a) = merge_from-IsApart 0 d ds (omega arith) span a

  merge_sorted-IsClear :
      (i : ℕ) (ds : List Detection)
      → IsSorted 0 ds
      → All (IsClear i) (merge_sorted gt ds)
      → All (IsClear i) ds
  unfolding merge_sorted
  merge_sorted-IsClear i [] s a = tt
  merge_sorted-IsClear i (d ∷ ds) (h, s) a = merge_from-IsClear i d ds s a

  pub merged-All :
      (P : ℕ → Type 0) (ds : List Detection)
      → All (λ d. P d.start × P d.end) ds
      → All (λ d. P d.start × P d.end) (merge_overlapping_detections gt ds)
  unfolding merge_overlapping_detections
  merged-All P ds a = merge_sorted-All P (sorted gt ds) (sorted-All (λ d. P d.start × P d.end) ds a)

  -- The merged detections come in order and do not overlap, and every position that one of the
  -- detections holds is held by a merged one, when each detection begins before it ends.
  pub merge_overlapping_detections-IsApart :
      (ds : List Detection)
      → All IsSpan ds
      → IsApart 0 (merge_overlapping_detections gt ds)
        × ((i : ℕ) → All (IsClear i) (merge_overlapping_detections gt ds) → All (IsClear i) ds)
  unfolding merge_overlapping_detections
  merge_overlapping_detections-IsApart ds a = (
    merge_sorted-IsApart (sorted gt ds) (sorted-All IsSpan ds a),
    λ i clear.
        All-sorted (IsClear i) ds
          (merge_sorted-IsClear i (sorted gt ds) (sorted-IsSorted ds) clear),
  )
