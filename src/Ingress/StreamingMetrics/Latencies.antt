-- ===== src/Ingress/StreamingMetrics/Latencies.antt =====
-- The percentiles of the latencies.
use Prim.Native.Nat.{zero, suc}
use lunaroute.Prelude.{
  ℕ, ◌+◌, ◌-◌, ◌≤◌, ◌≡◌, refl, ◌⊎◌, inl, inr, Option, some, List, [], ◌∷◌, length, get_elem?,
  get_elem?-some, leb, Bool-cases, arith, All,
}
use lunaroute.Ingress.StreamingMetrics.{
  insert_latency, sort_latencies, smaller, percentile_index, Percentiles, percentiles,
}

IsAscending : List ℕ → Type 0
IsAscending [] = Unit
IsAscending (x ∷ xs) = All (λ y. x ≤ y) xs × IsAscending xs

insert-All :
    (z x : ℕ) (ys : List ℕ) → z ≤ x → All (λ y. z ≤ y) ys → All (λ y. z ≤ y) (insert_latency x ys)
unfolding insert_latency
insert-All z x [] h t = (h, tt)
insert-All z x (y ∷ ys) h (g, t) = elim (Bool-cases (leb x y)) [
  | inl before ↦ rw before (h, (g, t))
  | inr after ↦ let rest = insert-All z x ys h t in rw after (g, rest)
]

weaken-All : (x y : ℕ) (ys : List ℕ) → x ≤ y → All (λ z. y ≤ z) ys → All (λ z. x ≤ z) ys
weaken-All x y [] h t = tt
weaken-All x y (z ∷ ys) h (g, t) = (omega arith, weaken-All x y ys h t)

insert-IsAscending : (x : ℕ) (ys : List ℕ) → IsAscending ys → IsAscending (insert_latency x ys)
unfolding insert_latency IsAscending
insert-IsAscending x [] a = (tt, tt)
insert-IsAscending x (y ∷ ys) (low, a) = elim (Bool-cases (leb x y)) [
  | inl before ↦
      let le : x ≤ y = ground arith in rw before ((le, weaken-All x y ys le low), (low, a))
  | inr after ↦
      let rest = insert-IsAscending x ys a in
      let le : y ≤ x = ground arith in rw after (insert-All y x ys le low, rest)
]

sort-IsAscending : (xs : List ℕ) → IsAscending (sort_latencies xs)
unfolding sort_latencies IsAscending
sort-IsAscending [] = tt
sort-IsAscending (x ∷ xs) = insert-IsAscending x (sort_latencies xs) (sort-IsAscending xs)

length-insert_latency : (x : ℕ) (ys : List ℕ) → length (insert_latency x ys) ≡ length ys + 1
unfolding insert_latency
length-insert_latency x [] = refl
length-insert_latency x (y ∷ ys) = let rest = length-insert_latency x ys in ground arith

some-eq : {a b : ℕ} → ◌≡◌ {A = Option ℕ} (some a) (some b) → a ≡ b
some-eq e = cc e

above-first :
    (x b : ℕ) (xs : List ℕ) (j : ℕ) → All (λ y. x ≤ y) xs → get_elem? xs j ≡ some b → x ≤ b
above-first x b [] j t e = cc
above-first x b (y ∷ xs) zero (h, t) e = omega (arith, h, some-eq e)
above-first x b (y ∷ xs) (suc j) (h, t) e = above-first x b xs j t e

-- Later elements of an ascending list are no smaller.
get_mono :
    (xs : List ℕ) (i j a b : ℕ)
    → IsAscending xs
    → i ≤ j
    → get_elem? xs i ≡ some a
    → get_elem? xs j ≡ some b
    → a ≤ b
unfolding IsAscending
get_mono [] i j a b asc le e e' = cc
get_mono (x ∷ xs) zero zero a b asc le e e' = omega (arith, some-eq e, some-eq e')
get_mono (x ∷ xs) zero (suc j) a b (low, asc) le e e' =
    let up = above-first x b xs j low e' in omega (arith, up, some-eq e)
get_mono (x ∷ xs) (suc i) zero a b asc le e e' = absurd (omega arith)
get_mono (x ∷ xs) (suc i) (suc j) a b (low, asc) le e e' =
    get_mono xs i j a b asc (omega arith) e e'

-- The least and the greatest latency and the percentiles in between, in order.
abbrev pub AreOrdered : Percentiles → Type 0
AreOrdered p =
    (a : ℕ) × (b : ℕ) × (c : ℕ) × (p.p50 ≡ some a)
    × (p.p95 ≡ some b)
    × (p.p99 ≡ some c)
    × (p.min ≤ a)
    × (a ≤ b)
    × (b ≤ c)
    × (c ≤ p.max)

indices :
    (n : ℕ)
    → (percentile_index 50 n ≤ percentile_index 95 n)
      × (percentile_index 95 n ≤ percentile_index 99 n)
      × (percentile_index 99 n ≤ n - 1)
unfolding percentile_index smaller
indices n = (ground arith, ground arith, ground arith)

length-sort_latencies : (xs : List ℕ) → length (sort_latencies xs) ≡ length xs
unfolding sort_latencies
length-sort_latencies [] = refl
length-sort_latencies (x ∷ xs) =
    omega (arith, length-insert_latency x (sort_latencies xs), length-sort_latencies xs)

-- The percentiles of latencies never index out of bounds; of at least one latency, the least, those at 50,
-- 95 and 99 percent and the greatest are there and in order.
pub percentiles-AreOrdered :
    (latencies : List ℕ)
    → (p : Percentiles) × (percentiles latencies ≡ some p) × ((latencies ≡ []) ⊎ AreOrdered p)
unfolding percentiles
percentiles-AreOrdered [] = (_, refl, inl refl)
percentiles-AreOrdered (x ∷ xs) =
    let sorted = sort_latencies (x ∷ xs) in
    let count = length-sort_latencies (x ∷ xs) in
    let (i50, i95, i99) = indices (length sorted) in
    let asc = sort-IsAscending (x ∷ xs) in
    let (a, at50) = get_elem?-some sorted (percentile_index 50 (length sorted)) (omega arith) in
    let (b, at95) = get_elem?-some sorted (percentile_index 95 (length sorted)) (omega arith) in
    let (c, at99) = get_elem?-some sorted (percentile_index 99 (length sorted)) (omega arith) in
    let (d, at_end) = get_elem?-some sorted (length sorted - 1) (omega arith) in
    let (e, at_start) = get_elem?-some sorted 0 (omega arith) in
    (
      record { p50 = some a; p95 = some b; p99 = some c; max = d; min = e },
      rw (at50, at95, at99, at_end, at_start) refl,
      inr (
        a,
        b,
        c,
        refl,
        refl,
        refl,
        get_mono sorted 0 _ e a asc (omega arith) at_start at50,
        get_mono sorted _ _ a b asc i50 at50 at95,
        get_mono sorted _ _ b c asc i95 at95 at99,
        get_mono sorted _ _ c d asc i99 at99 at_end,
      ),
    )
