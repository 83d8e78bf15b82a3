-- ===== src/Session/Search/Paging.antt =====
-- The pages of the results.
use native.Mathlib.Nat.{div-add-mod', mod-lt, mul-le-mul_right}
use lunaroute.Prelude.{
  ℕ, ◌+◌, ◌*◌, ◌/◌, ◌%◌, ◌<◌, ◌≡◌, ◌↔◌, inl, inr, true, List, ltb, leb, ◌==◌, Bool-cases, arith,
}
use lunaroute.Session.Search.{div_ceil, at_least_one, results, has_next_page}

next_multiple : (n b : ℕ) → (n + 1) * b ≡ n * b + b
next_multiple n b = omega arith

below_even : (q b n : ℕ) → 0 < b → (n < q) ↔ (n * b < q * b)
below_even q b n h = elim (Bool-cases (ltb n q)) [
  | inl below ↦
      let more = mul-le-mul_right {m = n + 1} {n = q} b (ground arith) in
      let step = next_multiple n b in (λ k. omega arith, λ k. ground arith)
  | inr above ↦
      let more = mul-le-mul_right {m = q} {n = n} b (ground arith) in
      (λ k. absurd (ground arith), λ k. absurd (omega arith))
]

below_odd : (q b r n : ℕ) → 0 < b → 0 < r → r < b → (n < q + 1) ↔ (n * b < q * b + r)
below_odd q b r n h some_left small = elim (Bool-cases (leb n q)) [
  | inl below ↦
      let more = mul-le-mul_right {m = n} {n = q} b (ground arith) in
      (λ k. omega arith, λ k. ground arith)
  | inr above ↦
      let more = mul-le-mul_right {m = q + 1} {n = n} b (ground arith) in
      let step = next_multiple q b in (λ k. absurd (ground arith), λ k. absurd (omega arith))
]

below_ceil : (a b n : ℕ) → 0 < b → (n < div_ceil a b) ↔ (n * b < a)
unfolding div_ceil
below_ceil a b n h =
    let parts = div-add-mod' a b in
    let small = mod-lt a h in
    elim (Bool-cases (a % b == 0)) [
      | inl even ↦
          let core = below_even (a / b) b n h in
          let whole : a / b * b ≡ a = ground arith in
          rw even (λ k. omega (arith, core.0 k, whole), λ k. core.1 (omega (arith, k, whole)))
      | inr odd ↦
          let core = below_odd (a / b) b (a % b) n h (ground arith) small in
          rw odd (λ k. omega (arith, core.0 k, parts), λ k. core.1 (omega (arith, k, parts)))
    ]

-- With a positive page size, there is a next page exactly when its offset, which is its number times
-- the page size, lies before the end of the matching sessions.
pub has_next_page-offset :
    {A : Type 0} (items : List A) (total_count page page_size : ℕ)
    → 0 < page_size
    → (has_next_page (results items total_count page page_size) ≡ true)
      ↔ ((page + 1) * page_size < total_count)
unfolding has_next_page results
has_next_page-offset items total_count page page_size positive =
    let core = below_ceil total_count page_size (page + 1) positive in
    (
      λ h. core.0 (unfold at_least_one in ground arith),
      λ h. let below = core.1 h in unfold at_least_one in ground arith,
    )
