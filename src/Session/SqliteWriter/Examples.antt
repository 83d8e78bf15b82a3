-- ===== src/Session/SqliteWriter/Examples.antt =====
-- The search of the database at concrete inputs.
use Prim.Native.String.{◌++◌ as str_append}
use lunaroute.Prelude.{
  ℕ, ◌*◌, ◌≤◌, ◌≡◌, refl, inl, inr, true, false, String, some, List, [], ◌∷◌, length, arith, Result,
  ok, if◌then◌else◌, ltb, Bool-cases, ok_inj, subst,
}
use lunaroute.Session.Search.{SessionFilter, default_filter, results}
use lunaroute.Session.Search.Validation.{IsValid}
use lunaroute.Session.SqliteWriter.{
  build_where_clause, like_pattern, results_query, search_sessions,
}
use lunaroute.Session.SqliteWriter.Text.{build_where_clause-text}
use lunaroute.Session.SqliteWriter.Escaping.{literal_text, like_pattern-literal}
use lunaroute.Session.SqliteWriter.Searching.{search_sessions-bounded}

abbrev hostile : SessionFilter
hostile = record default_filter {
  providers = "x') OR ('1'='1" ∷ "y" ∷ [];
  success = some true;
  text_search = some "50%_\\?";
}

abbrev plain : SessionFilter
plain = record default_filter {
  providers = "openai" ∷ "anthropic" ∷ [];
  success = some false;
  text_search = some "a";
}

abbrev day : ℕ → String
day t = "2025-01-01T00:00:00+00:00"

clause : build_where_clause day hostile ≡ (
  "provider IN (?,?) AND success = ? AND (request_text LIKE ? ESCAPE '\\' OR response_text LIKE ? ESCAPE '\\')",
  "x') OR ('1'='1" ∷ "y" ∷ "1" ∷ "%50\\%\\_\\\\?%" ∷ "%50\\%\\_\\\\?%" ∷ [],
)
unfolding build_where_clause
clause = refl

build_where_clause-text_example :
    (build_where_clause day hostile).0 ≡ (build_where_clause day plain).0
build_where_clause-text_example =
    build_where_clause-text day day hostile plain
      (refl, refl, refl, refl, refl, refl, refl, refl, refl, refl, refl, refl, refl, refl)

like_pattern-literal_example :
    (inner : String) × (like_pattern "50%_\\?" ≡ str_append "%" (str_append inner "%"))
    × (literal_text false inner ≡ some "50%_\\?")
like_pattern-literal_example = like_pattern-literal "50%_\\?"

abbrev count_rows : String → List String → Result String ℕ
count_rows q values = ok 5

abbrev fetch_rows : String → List String → ℕ → ℕ → Result String (List String)
fetch_rows q values limit offset = if ltb limit 2 then ok [] else ok ("s3" ∷ "s4" ∷ [])

fetch_rows-limit :
    (q : String) (values : List String) (limit offset : ℕ) (rows : List String)
    → fetch_rows q values limit offset ≡ ok rows
    → length rows ≤ limit
fetch_rows-limit q values limit offset rows h = elim (Bool-cases (ltb limit 2)) [
  | inl small ↦ subst (λ rs. length rs ≤ limit) (ok_inj (rw small at h)) (omega arith)
  | inr large ↦ subst (λ rs. length rs ≤ limit) (ok_inj (rw large at h)) (ground arith)
]

searched :
    search_sessions 1000 day count_rows fetch_rows (record plain { page_size = 2; page = 1 })
    ≡ ok (results ("s3" ∷ "s4" ∷ []) 5 1 2)
unfolding search_sessions
searched = refl

search_sessions-bounded_example :
    IsValid 1000 (record plain { page_size = 2; page = 1 })
    × (fetch_rows
          (results_query (build_where_clause day plain).0 plain.sort)
          (build_where_clause day plain).1
          2
          (1 * 2)
        ≡ ok ("s3" ∷ "s4" ∷ []))
    × (2 ≤ 1000)
unfolding results
search_sessions-bounded_example =
    search_sessions-bounded 1000 day count_rows fetch_rows
      (record plain { page_size = 2; page = 1 }) (results ("s3" ∷ "s4" ∷ []) 5 1 2) (omega arith)
      fetch_rows-limit searched
