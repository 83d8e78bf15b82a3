-- ===== src/Pii/Detector/Luhn.antt =====
-- The checksum of credit card numbers.
use mathlib.Core.List.{append_assoc}
use lunaroute.Prelude.{
  ℕ, ◌+◌, ◌%◌, ◌<◌, ◌≡◌, ◌≢◌, refl, sym, ap, ◌∙◌, inl, inr, Bool, true, false, not, String, List,
  [], ◌∷◌, ◌++◌, Bool-cases, arith,
}
use lunaroute.Pii.Detector.{digits_of, reverse_digits, weight, checksum, validate_credit_card}

reverse-onto : (done ds : List ℕ) → reverse_digits done ds ≡ reverse_digits [] ds ++ done
unfolding reverse_digits
reverse-onto done [] = refl
reverse-onto done (d ∷ ds) =
    rw (reverse-onto (d ∷ done) ds, reverse-onto (d ∷ []) ds)
      (sym (append_assoc (reverse_digits [] ds) (d ∷ []) done))

reverse-middle :
    (done pre post : List ℕ) (d : ℕ)
    → reverse_digits done (pre ++ d ∷ post) ≡ reverse_digits [] post ++ d ∷ reverse_digits done pre
unfolding reverse_digits
reverse-middle done [] post d = reverse-onto (d ∷ done) post
reverse-middle done (c ∷ pre) post d = reverse-middle (c ∷ done) pre post d

-- Whether the position behind the digits is odd.
odd_after : Bool → List ℕ → Bool
odd_after odd [] = odd
odd_after odd (d ∷ ds) = odd_after (not odd) ds

checksum-middle :
    (odd : Bool) (ms ns : List ℕ) (d : ℕ)
    → checksum odd (ms ++ d ∷ ns)
      ≡ checksum odd ms + (weight (odd_after odd ms) d + checksum (not (odd_after odd ms)) ns)
unfolding checksum odd_after
checksum-middle odd [] ns d = omega arith
checksum-middle odd (m ∷ ms) ns d = let rest = checksum-middle (not odd) ms ns d in omega arith

-- Different digits add different numbers, which are digits too.
weight-injective :
    (odd : Bool) (d d' a b : ℕ)
    → d < 10
    → d' < 10
    → (a + (weight odd d + b)) % 10 ≡ 0
    → (a + (weight odd d' + b)) % 10 ≡ 0
    → d ≡ d'
unfolding weight
weight-injective true d d' a b small small' e e' = ground arith
weight-injective false d d' a b small small' e e' = omega arith

luhn : List ℕ → ℕ
luhn ds = checksum false (reverse_digits [] ds) % 10

luhn-middle :
    (pre post : List ℕ) (d : ℕ)
    → luhn (pre ++ d ∷ post)
      ≡ (checksum false (reverse_digits [] post)
          + (weight (odd_after false (reverse_digits [] post)) d
              + checksum (not (odd_after false (reverse_digits [] post))) (reverse_digits [] pre)))
        % 10
unfolding luhn
luhn-middle pre post d =
    rw
      (
        reverse-middle [] pre post d,
        checksum-middle false (reverse_digits [] post) (reverse_digits [] pre) d,
      )
      refl

accepted-luhn : (number : String) → validate_credit_card number ≡ true → luhn (digits_of number) ≡ 0
unfolding validate_credit_card luhn
accepted-luhn number h = ground arith

-- When a number passes the check for credit cards and another has the same digits but for one, the other
-- does not pass it.
pub one_digit_off :
    (number number' : String) (pre post : List ℕ) (d d' : ℕ)
    → digits_of number ≡ pre ++ d ∷ post
    → digits_of number' ≡ pre ++ d' ∷ post
    → d < 10
    → d' < 10
    → d ≢ d'
    → validate_credit_card number ≡ true
    → validate_credit_card number' ≡ false
one_digit_off number number' pre post d d' digits digits' small small' differ accepted =
    elim (Bool-cases (validate_credit_card number')) [
      | inl accepted' ↦ absurd (
          differ (
            weight-injective _ d d' _ _ small small'
              (sym (luhn-middle pre post d) ∙ sym (ap luhn digits) ∙ accepted-luhn number accepted)
              (sym (luhn-middle pre post d')
                ∙ sym (ap luhn digits')
                ∙ accepted-luhn number' accepted')))
      | inr refused ↦ refused
    ]
