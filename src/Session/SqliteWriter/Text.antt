-- ===== src/Session/SqliteWriter/Text.antt =====
-- The text of the condition, for filters that differ in their values.
use Prim.Native.String.{◌++◌ as str_append}
use lunaroute.Prelude.{
  ℕ, ◌≡◌, refl, sym, ap, ap₂, ◌∙◌, Bool, true, false, String, Option, none, some, List, [], ◌∷◌,
  ◌++◌, map, length, arith,
}
use lunaroute.Prelude.Texts.{join}
use lunaroute.Session.Search.{SessionFilter}
use lunaroute.Session.SqliteWriter.{
  Part, also, placeholders, in_list, in_models, in_time, is_flag, has_bound, has_text, conditions,
  build_where_clause,
}

abbrev pub is_there : {A : Type 0} → Option A → Bool
is_there none = false
is_there (some a) = true

-- Two filters that set the same conditions, with lists of the same lengths.
abbrev pub AreAlike : SessionFilter → SessionFilter → Type 0
AreAlike f g =
    (is_there f.time_range ≡ is_there g.time_range)
    × (length f.providers ≡ length g.providers)
    × (length f.models ≡ length g.models)
    × (length f.request_ids ≡ length g.request_ids)
    × (length f.session_ids ≡ length g.session_ids)
    × (is_there f.success ≡ is_there g.success)
    × (is_there f.is_streaming ≡ is_there g.is_streaming)
    × (is_there f.min_tokens ≡ is_there g.min_tokens)
    × (is_there f.max_tokens ≡ is_there g.max_tokens)
    × (is_there f.min_duration_ms ≡ is_there g.min_duration_ms)
    × (is_there f.max_duration_ms ≡ is_there g.max_duration_ms)
    × (length f.client_ips ≡ length g.client_ips)
    × (length f.finish_reasons ≡ length g.finish_reasons)
    × (is_there f.text_search ≡ is_there g.text_search)

marks_of : List String → List String
marks_of = map (λ _. "?")

placeholders-text : (ss ts : List String) → length ss ≡ length ts → marks_of ss ≡ marks_of ts
unfolding marks_of
placeholders-text [] [] e = refl
placeholders-text [] (t ∷ ts) e = absurd (omega arith)
placeholders-text (s ∷ ss) [] e = absurd (omega arith)
placeholders-text (s ∷ ss) (t ∷ ts) e = ap (λ r. "?" ∷ r) (placeholders-text ss ts (omega arith))

in_list-text :
    (column : String) (ss ts : List String)
    → length ss ≡ length ts
    → (in_list column ss).0 ≡ (in_list column ts).0
unfolding in_list placeholders marks_of
in_list-text column [] [] e = refl
in_list-text column [] (t ∷ ts) e = absurd (omega arith)
in_list-text column (s ∷ ss) [] e = absurd (omega arith)
in_list-text column (s ∷ ss) (t ∷ ts) e =
    ap (λ r. str_append column (str_append " IN (" (str_append (join "," r) ")")) ∷ [])
      (placeholders-text (s ∷ ss) (t ∷ ts) e)

in_models-text : (ss ts : List String) → length ss ≡ length ts → (in_models ss).0 ≡ (in_models ts).0
unfolding in_models placeholders marks_of
in_models-text [] [] e = refl
in_models-text [] (t ∷ ts) e = absurd (omega arith)
in_models-text (s ∷ ss) [] e = absurd (omega arith)
in_models-text (s ∷ ss) (t ∷ ts) e =
    ap
      (λ r.
        str_append "(model_requested IN (" (
          str_append (join "," r)
            (str_append ") OR model_used IN (" (str_append (join "," r) "))")))
        ∷ [])
      (placeholders-text (s ∷ ss) (t ∷ ts) e)

both : {a b c d : List String} → a ≡ c → b ≡ d → a ++ b ≡ c ++ d
both e h = ap₂ (λ x y. x ++ y) e h

-- A text that is the same whatever the value.
option-text :
    {A : Type 0} (f g : Option A → Part) (c : List String)
    → (f none).0 ≡ (g none).0
    → ((a : A) → (f (some a)).0 ≡ c)
    → ((a : A) → (g (some a)).0 ≡ c)
    → (a b : Option A) → is_there a ≡ is_there b
    → (f a).0 ≡ (g b).0
option-text f g c e fs gs none none h = e
option-text f g c e fs gs none (some b) h = cc
option-text f g c e fs gs (some a) none h = cc
option-text f g c e fs gs (some a) (some b) h = fs a ∙ sym (gs b)

is_flag-text :
    (c : String) (a b : Option Bool) → is_there a ≡ is_there b → (is_flag c a).0 ≡ (is_flag c b).0
unfolding is_flag
is_flag-text c = option-text (is_flag c) (is_flag c) (c ∷ []) refl (λ a. refl) (λ a. refl)

has_bound-text :
    (c : String) (a b : Option ℕ) → is_there a ≡ is_there b → (has_bound c a).0 ≡ (has_bound c b).0
unfolding has_bound
has_bound-text c = option-text (has_bound c) (has_bound c) (c ∷ []) refl (λ a. refl) (λ a. refl)

-- The condition of a search depends on which filters are set and on the lengths of the lists, and on no
-- value: two filters that agree in these give the same condition, also for two ways to write a time.
pub build_where_clause-text :
    (r r' : ℕ → String) (f g : SessionFilter)
    → AreAlike f g
    → (build_where_clause r f).0 ≡ (build_where_clause r' g).0
unfolding build_where_clause conditions also in_time has_text
build_where_clause-text r r' f g
      (time, ps, ms, rs, ss, ok_flag, streaming, t1, t2, d1, d2, ips, reasons, text) =
    ap (λ cs. join " AND " cs)
      (both
        (option-text (in_time r) (in_time r') _ refl (λ a. refl) (λ a. refl) f.time_range
          g.time_range time)
        (both (in_list-text "provider" f.providers g.providers ps) (
          both (in_models-text f.models g.models ms) (
            both (in_list-text "request_id" f.request_ids g.request_ids rs) (
              both (in_list-text "session_id" f.session_ids g.session_ids ss) (
                both (is_flag-text "success = ?" f.success g.success ok_flag) (
                  both (is_flag-text "is_streaming = ?" f.is_streaming g.is_streaming streaming) (
                    both (has_bound-text "total_tokens >= ?" f.min_tokens g.min_tokens t1) (
                      both (has_bound-text "total_tokens <= ?" f.max_tokens g.max_tokens t2) (
                        both
                          (has_bound-text "total_duration_ms >= ?" f.min_duration_ms
                            g.min_duration_ms d1)
                          (both
                            (has_bound-text "total_duration_ms <= ?" f.max_duration_ms
                              g.max_duration_ms d2)
                            (both (in_list-text "client_ip" f.client_ips g.client_ips ips) (
                              both
                                (in_list-text "finish_reason" f.finish_reasons g.finish_reasons
                                  reasons)
                                (option-text has_text has_text _ refl (λ a. refl) (λ a. refl)
                                  f.text_search g.text_search text))))))))))))))
