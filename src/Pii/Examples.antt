-- ===== src/Pii/Examples.antt =====
-- Redaction at concrete inputs.
use Prim.Native.Nat.{zero, suc}
use lunaroute.Pii.{byte_at}
use lunaroute.Pii.Merging.{IsClear}
use lunaroute.Prelude.{
  ℕ, All, ◌≡◌, refl, Bool, String, Option, none, some, List, [], ◌∷◌, ltb, inl, inr, arith,
}
use lunaroute.Prelude.Texts.{bytes_of}
use lunaroute.Pii.{
  Detection, email, ip_address, RedactionMode, RedactorConfig, is_char_boundary, redact,
}
use lunaroute.Pii.Privacy.{Fits, Agree}
use lunaroute.Pii.Hiding.{AreAlike, standard_redact-same}
use lunaroute.Pii.Replacement.{StandardRedactor, new, redact_detection, standard_redact}
use lunaroute.Pii.Replacement.Modes.{AllModes, IsBlind, IsMasked}

abbrev gt : ℕ → ℕ → Bool
gt a b = ltb b a

abbrev stars : Detection → Option (List ℕ)
stars d = some (42 ∷ [])

abbrev at : ℕ → ℕ → ℕ → Detection
at start end confidence = record {
  pii_type = email;
  start = start;
  end = end;
  text = "x";
  confidence = confidence;
}

-- Two overlapping detections, the later one given first.
abbrev detections : List Detection
detections = at 2 4 9 ∷ at 1 3 5 ∷ []

abbrev ann : List ℕ
ann = 97 ∷ 98 ∷ 99 ∷ 100 ∷ 101 ∷ []

abbrev bob : List ℕ
bob = 97 ∷ 120 ∷ 121 ∷ 122 ∷ 101 ∷ []

ann-Fits : Fits ann detections
unfolding is_char_boundary
ann-Fits =
    (((omega arith, refl), (omega arith, refl)), (((omega arith, refl), (omega arith, refl)), tt))

bob-Fits : Fits bob detections
unfolding is_char_boundary
bob-Fits =
    (((omega arith, refl), (omega arith, refl)), (((omega arith, refl), (omega arith, refl)), tt))

same_outside : (i : ℕ) → All (IsClear i) detections → byte_at ann i ≡ byte_at bob i
unfolding byte_at
same_outside zero clear = refl
same_outside (suc zero) (a, (b, u)) = absurd (elim b [ inl h ↦ omega arith | inr h ↦ omega arith ])
same_outside (suc (suc zero)) (a, (b, u)) =
    absurd (elim b [ inl h ↦ omega arith | inr h ↦ omega arith ])
same_outside (suc (suc (suc zero))) (a, (b, u)) =
    absurd (elim a [ inl h ↦ omega arith | inr h ↦ omega arith ])
same_outside (suc (suc (suc (suc zero)))) clear = refl
same_outside (suc (suc (suc (suc (suc i))))) clear = refl

agree : Agree detections ann bob
agree = (refl, same_outside)

-- The detections in the text of Bob, whose words differ.
abbrev detections_of_bob : List Detection
detections_of_bob = record (at 2 4 9) { text = "yz" } ∷ record (at 1 3 5) { text = "xy" } ∷ []

abbrev blind : StandardRedactor
unfolding new
blind =
    new (λ s. s)
      (record {
        mode = RedactionMode.mask;
        partial_show_chars = 4;
        hmac_secret = none;
        type_overrides =
            record { pii_type = ip_address; mode = RedactionMode.remove; replacement = none } ∷ [];
      })

blind-AllModes : AllModes IsBlind blind
unfolding blind
blind-AllModes = (inr refl, (inl refl, tt))

blind-IsMasked : All IsMasked blind.custom_patterns
unfolding blind
blind-IsMasked = tt

abbrev no_hmac : String → String → String
no_hmac key text = ""

abbrev no_custom : String → Option (String × String)
no_custom text = none

alike : AreAlike gt no_hmac no_custom blind detections detections_of_bob
unfolding AreAlike
alike = ((refl, refl, refl, refl, λ e. cc), ((refl, refl, refl, refl, λ e. cc), tt))

standard_redact-same_example :
    standard_redact no_hmac no_custom blind gt ann detections
    ≡ standard_redact no_hmac no_custom blind gt bob detections_of_bob
standard_redact-same_example =
    standard_redact-same gt no_hmac no_custom blind detections detections_of_bob ann bob
      blind-AllModes blind-IsMasked (omega arith, (omega arith, tt)) ann-Fits bob-Fits agree alike

merged_once : redact gt stars ann detections ≡ some (97 ∷ 42 ∷ 101 ∷ [])
unfolding redact
merged_once = refl

abbrev config : RedactorConfig
config = record {
  mode = RedactionMode.partial;
  partial_show_chars = 2;
  hmac_secret = none;
  type_overrides =
      record { pii_type = ip_address; mode = RedactionMode.mask; replacement = some "[IP]" } ∷ [];
}

abbrev last_two : Option (List ℕ)
unfolding new redact_detection
last_two =
    redact_detection (λ key text. "") (λ s. none) (new (λ s. s) config)
      (record { pii_type = email; start = 0; end = 4; text = "a@bc"; confidence = 9 })

shows_last_two : last_two ≡ some (42 ∷ 42 ∷ 98 ∷ 99 ∷ [])
unfolding last_two bytes_of
shows_last_two = refl
