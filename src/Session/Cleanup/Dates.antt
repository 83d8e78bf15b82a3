-- ===== src/Session/Cleanup/Dates.antt =====
-- Which names are taken for dates.
use lunaroute.Prelude.{
  ℕ, ◌+◌, ◌-◌, ◌*◌, ◌/◌, ◌%◌, ◌≤◌, ◌<◌, ◌≡◌, refl, sym, ap₂, ◌↔◌, Bool, true, false, ◌&&◌, String,
  List, [], ◌∷◌, length, leb, ◌==◌, arith, subst,
}
use lunaroute.Prelude.Texts.{bytes_of}
use lunaroute.Session.Cleanup.{is_digit, byte_at, two_digits, is_date, is_valid_date_directory}

-- `YYYY-MM-DD` in ASCII.
abbrev pub date_bytes : ℕ → ℕ → ℕ → List ℕ
date_bytes y m d =
    (48 + y / 1000)
    ∷ (48 + y / 100 % 10)
    ∷ (48 + y / 10 % 10)
    ∷ (48 + y % 10)
    ∷ 45
    ∷ (48 + m / 10)
    ∷ (48 + m % 10)
    ∷ 45
    ∷ (48 + d / 10)
    ∷ (48 + d % 10)
    ∷ []

both : {a b : Bool} {A B : Type 0} → (a ≡ true) ↔ A → (b ≡ true) ↔ B → (a && b ≡ true) ↔ (A × B)
both {a = true} f g = (λ h. (f.0 refl, g.0 h), λ h. g.1 h.1)
both {a = false} f g = (λ h. cc, λ h. cc (f.1 h.0))

digit_bounds : (b : ℕ) → (is_digit b ≡ true) ↔ ((48 ≤ b) × (b ≤ 57))
unfolding is_digit
digit_bounds b = (λ h. (ground arith, ground arith), λ h. ground (arith, h.0, h.1))

equals : (a b : ℕ) → (a == b ≡ true) ↔ (a ≡ b)
equals a b = (λ h. ground arith, λ h. ground arith)

at_most : (a b : ℕ) → (leb a b ≡ true) ↔ (a ≤ b)
at_most a b = (λ h. ground arith, λ h. ground arith)

abbrev Checked : List ℕ → Type 0
Checked bs =
    (length bs ≡ 10)
    × (((48 ≤ byte_at bs 0) × (byte_at bs 0 ≤ 57))
        × (((48 ≤ byte_at bs 1) × (byte_at bs 1 ≤ 57))
            × (((48 ≤ byte_at bs 2) × (byte_at bs 2 ≤ 57))
                × (((48 ≤ byte_at bs 3) × (byte_at bs 3 ≤ 57))
                    × ((byte_at bs 4 ≡ 45)
                        × (((48 ≤ byte_at bs 5) × (byte_at bs 5 ≤ 57))
                            × (((48 ≤ byte_at bs 6) × (byte_at bs 6 ≤ 57))
                                × ((1 ≤ two_digits bs 5)
                                    × ((two_digits bs 5 ≤ 12)
                                        × ((byte_at bs 7 ≡ 45)
                                            × (((48 ≤ byte_at bs 8) × (byte_at bs 8 ≤ 57))
                                                × (((48 ≤ byte_at bs 9) × (byte_at bs 9 ≤ 57))
                                                    × ((1 ≤ two_digits bs 8)
                                                        × (two_digits bs 8 ≤ 31))))))))))))))

is_date-Checked : (bs : List ℕ) → (is_date bs ≡ true) ↔ Checked bs
unfolding is_date
is_date-Checked bs = both (equals (length bs) 10) (
    both (digit_bounds _) (
      both (digit_bounds _) (
        both (digit_bounds _) (
          both (digit_bounds _) (
            both (equals (byte_at bs 4) 45) (
              both (digit_bounds _) (
                both (digit_bounds _) (
                  both (at_most 1 _) (
                    both (at_most _ 12) (
                      both (equals (byte_at bs 7) 45) (
                        both (digit_bounds _)
                          (both (digit_bounds _) (both (at_most 1 _) (at_most _ 31))))))))))))))

-- A date as it is written; the day need not be one of its month.
abbrev pub IsDate : List ℕ → Type 0
IsDate bs =
    (y : ℕ) × (m : ℕ) × (d : ℕ) × (y < 10000)
    × (1 ≤ m)
    × (m ≤ 12)
    × (1 ≤ d)
    × (d ≤ 31)
    × (bs ≡ date_bytes y m d)

infixr 30 ◌≡∷◌
◌≡∷◌ : {a b : ℕ} {ms ns : List ℕ} → a ≡ b → ms ≡ ns → a ∷ ms ≡ b ∷ ns
e ≡∷ h = ap₂ (λ x y. x ∷ y) e h

Checked-IsDate : (bs : List ℕ) → Checked bs → IsDate bs
unfolding byte_at two_digits
Checked-IsDate (a ∷ b ∷ c ∷ e ∷ s ∷ f ∷ g ∷ t ∷ h ∷ i ∷ [])
      (
        _,
        (
          (a1, a2),
          (
            (b1, b2),
            (
              (c1, c2),
              (
                (e1, e2),
                (s1, ((f1, f2), ((g1, g2), (m1, (m2, (t1, ((h1, h2), ((i1, i2), (d1, d2))))))))),
              ),
            ),
          ),
        ),
      ) =
    (
      (a - 48) * 1000 + ((b - 48) * 100 + ((c - 48) * 10 + (e - 48))),
      (f - 48) * 10 + (g - 48),
      (h - 48) * 10 + (i - 48),
      omega arith,
      m1,
      m2,
      d1,
      d2,
      omega arith
          ≡∷ omega arith
          ≡∷ omega arith
          ≡∷ omega arith
          ≡∷ s1
          ≡∷ omega arith
          ≡∷ omega arith
          ≡∷ t1
          ≡∷ omega arith
          ≡∷ omega arith
          ≡∷ refl,
    )
Checked-IsDate _ (len, _) = absurd (omega (arith, len))

date-Checked :
    (y m d : ℕ) → y < 10000 → 1 ≤ m → m ≤ 12 → 1 ≤ d → d ≤ 31 → Checked (date_bytes y m d)
unfolding byte_at two_digits
date-Checked y m d y1 m1 m2 d1 d2 = (
  refl,
  (
    (omega arith, omega arith),
    (
      (omega arith, omega arith),
      (
        (omega arith, omega arith),
        (
          (omega arith, omega arith),
          (
            refl,
            (
              (omega arith, omega arith),
              (
                (omega arith, omega arith),
                (
                  omega arith,
                  (
                    omega arith,
                    (
                      refl,
                      (
                        (omega arith, omega arith),
                        ((omega arith, omega arith), (omega arith, omega arith)),
                      ),
                    ),
                  ),
                ),
              ),
            ),
          ),
        ),
      ),
    ),
  ),
)

-- A directory is cleaned up exactly when its name is a date, `YYYY-MM-DD` with a month from 1 to 12 and a
-- day from 1 to 31.
pub is_valid_date_directory-IsDate :
    (name : String) → (is_valid_date_directory name ≡ true) ↔ IsDate (bytes_of name)
unfolding is_valid_date_directory
is_valid_date_directory-IsDate name = (
  λ h. Checked-IsDate (bytes_of name) ((is_date-Checked (bytes_of name)).0 h),
  λ (y, m, d, y1, m1, m2, d1, d2, e).
      (is_date-Checked (bytes_of name)).1
        (subst Checked (sym e) (date-Checked y m d y1 m1 m2 d1 d2)),
)
