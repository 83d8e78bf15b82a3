-- ===== src/Pii/Detector/Spans.antt =====
-- The detections of a text as an input of its redaction.
use lunaroute.Prelude.{
  ℕ, ◌≤◌, ◌≡◌, ◌≢◌, refl, inl, inr, Bool, ◌&&◌, String, Option, some, List, [], ◌∷◌, ◌++◌, leb,
  Bool-cases, All,
}
use lunaroute.Pii.{PiiType, email, phone, ssn, credit_card, ip_address, Detection, RedactionMode}
use lunaroute.Pii.Merging.{IsSpan}
use lunaroute.Pii.Privacy.{IsCut, Fits, redact-succeeds}
use lunaroute.Pii.Replacement.{StandardRedactor, redact_detection, standard_redact}
use lunaroute.Pii.Replacement.Modes.{AllModes, redact_detection-succeeds}
use lunaroute.Pii.Detector.{
  Match, Finder, RegexPiiDetector, CustomRegex, to_detection, custom_detection, accepted,
  insert_by_start, sort_by_start, find_all, find_custom, detect, any_text, validate_phone,
  validate_ssn, validate_credit_card,
}

-- What `find_iter` of the regex crate promises: matches are stretches of the text.
abbrev pub FindsSpans : Finder → Type 0
FindsSpans regex =
    (text : List ℕ)
    → All (λ m. (m.start ≤ m.end) × (IsCut text m.start × IsCut text m.end)) (regex text)

abbrev pub AllFindSpans : RegexPiiDetector → Type 0
AllFindSpans self =
    FindsSpans self.email_regex
    × FindsSpans self.phone_regex
    × FindsSpans self.ssn_regex
    × FindsSpans self.credit_card_regex
    × FindsSpans self.ip_regex
    × All (λ r. FindsSpans r.regex) self.custom_regexes

abbrev IsIn : List ℕ → Detection → Type 0
IsIn text d = IsSpan d × (IsCut text d.start × IsCut text d.end)

AreIn : List ℕ → List Detection → Type 0
AreIn text ds = All (IsIn text) ds

append-AreIn :
    (text : List ℕ) (cs bs : List Detection) → AreIn text cs → AreIn text bs → AreIn text (cs ++ bs)
unfolding AreIn
append-AreIn text [] bs t u = u
append-AreIn text (a ∷ cs) bs (h, t) u = (h, append-AreIn text cs bs t u)

insert-AreIn :
    (text : List ℕ) (d : Detection) (ds : List Detection)
    → IsIn text d
    → AreIn text ds
    → AreIn text (insert_by_start d ds)
unfolding insert_by_start AreIn
insert-AreIn text d [] h t = (h, tt)
insert-AreIn text d (e ∷ ds) h (g, t) = elim (Bool-cases (leb d.start e.start)) [
  | inl before ↦ rw before (h, (g, t))
  | inr after ↦ let rest = insert-AreIn text d ds h t in rw after (g, rest)
]

sort-AreIn : (text : List ℕ) (ds : List Detection) → AreIn text ds → AreIn text (sort_by_start ds)
unfolding sort_by_start AreIn
sort-AreIn text [] t = tt
sort-AreIn text (d ∷ ds) (h, t) = insert-AreIn text d (sort_by_start ds) h (sort-AreIn text ds t)

-- A detection at the place of its match.
abbrev KeepsPlace : (Match → Detection) → Type 0
KeepsPlace detection = (m : Match) → ((detection m).start ≡ m.start) × ((detection m).end ≡ m.end)

accepted-AreIn :
    (check : String → Bool) (detection : Match → Detection) (text : List ℕ) (ms : List Match)
    → KeepsPlace detection
    → All (λ m. (m.start ≤ m.end) × (IsCut text m.start × IsCut text m.end)) ms
    → AreIn text (accepted check detection ms)
unfolding accepted AreIn
accepted-AreIn check detection text [] keeps t = tt
accepted-AreIn check detection text (m ∷ ms) keeps (h, t) =
    let rest = accepted-AreIn check detection text ms keeps t in
    elim (Bool-cases (check m.as_str)) [
      | inl good ↦ rw good (rw ((keeps m).0, (keeps m).1) h, rest)
      | inr bad ↦ rw bad rest
    ]

module _ (ge : ℕ → ℕ → Bool) where
  find_all-AreIn :
      (enabled : Bool) (min confidence : ℕ) (t : PiiType) (check : String → Bool) (regex : Finder)
      (text : List ℕ)
      → FindsSpans regex
      → AreIn text (find_all ge enabled min confidence t check regex text)
  unfolding find_all to_detection AreIn
  find_all-AreIn enabled min confidence t check regex text spans =
      elim (Bool-cases (enabled && ge confidence min)) [
        | inl on ↦ rw on (
            accepted-AreIn check (to_detection t confidence) text (regex text) (λ m. (refl, refl))
              (spans text))
        | inr off ↦ rw off tt
      ]

  find_custom-AreIn :
      (min : ℕ) (rs : List CustomRegex) (text : List ℕ)
      → All (λ r. FindsSpans r.regex) rs
      → AreIn text (find_custom ge min rs text)
  unfolding find_custom custom_detection AreIn
  find_custom-AreIn min [] text spans = tt
  find_custom-AreIn min (r ∷ rs) text (span, spans) =
      let rest = find_custom-AreIn min rs text spans in
      elim (Bool-cases (ge r.confidence min)) [
        | inl on ↦ rw on (
            append-AreIn text _ (find_custom ge min rs text)
              (accepted-AreIn any_text (custom_detection r.name r.confidence) text (r.regex text)
                (λ m. (refl, refl)) (span text))
              rest)
        | inr off ↦ rw off rest
      ]

  detect-AreIn :
      (self : RegexPiiDetector) (text : List ℕ)
      → AllFindSpans self
      → AreIn text (detect ge self text)
  unfolding detect
  detect-AreIn self text (e, p, s, c, i, customs) = sort-AreIn text _ (
      append-AreIn text _ _
        (append-AreIn text _ _
          (append-AreIn text _ _
            (append-AreIn text _ _
              (append-AreIn text _ _
                (find_all-AreIn self.config.detect_email self.config.min_confidence 0x3f733333 email
                  any_text self.email_regex text e)
                (find_all-AreIn self.config.detect_phone self.config.min_confidence 0x3f59999a phone
                  validate_phone self.phone_regex text p))
              (find_all-AreIn self.config.detect_ssn self.config.min_confidence 0x3f666666 ssn
                validate_ssn self.ssn_regex text s))
            (find_all-AreIn self.config.detect_credit_card self.config.min_confidence 0x3f733333
              credit_card validate_credit_card self.credit_card_regex text c))
          (find_all-AreIn self.config.detect_ip_address self.config.min_confidence 0x3f7d70a4
            ip_address any_text self.ip_regex text i))
        (find_custom-AreIn self.config.min_confidence self.custom_regexes text customs))

  spans_of : (text : List ℕ) (ds : List Detection) → AreIn text ds → All IsSpan ds × Fits text ds
  unfolding AreIn
  spans_of text [] t = (tt, tt)
  spans_of text (d ∷ ds) ((span, fits), t) =
      let rest = spans_of text ds t in ((span, rest.0), (fits, rest.1))

  -- When the regular expressions find stretches of the text, and no mode of the standard redactor, of
  -- its configuration or of an override, is Partial, the redaction of what the detector finds in a
  -- text does not panic, whichever detections overlap.
  pub redact-detect :
      (gt : ℕ → ℕ → Bool) (hmac : String → String → String)
      (read_custom : String → Option (String × String)) (r : StandardRedactor)
      (self : RegexPiiDetector) (text : List ℕ)
      → AllFindSpans self
      → AllModes (λ mode. mode ≢ RedactionMode.partial) r
      → (out : List ℕ) × (standard_redact hmac read_custom r gt text (detect ge self text)
          ≡ some out)
  unfolding standard_redact
  redact-detect gt hmac read_custom r self text found modes =
      let (spans, fits) = spans_of text (detect ge self text) (detect-AreIn self text found) in
      redact-succeeds gt (redact_detection hmac read_custom r) (detect ge self text) text spans fits
        (λ d. redact_detection-succeeds hmac read_custom r d modes)
