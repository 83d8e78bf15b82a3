-- ===== src/Session/Search/Examples.antt =====
-- The search filter at concrete inputs.
use lunaroute.Prelude.{◌≡◌, refl, String, some, List, [], ◌∷◌, ok, err}
use lunaroute.Prelude.Texts.{show_u64}
use lunaroute.Session.Search.{SessionFilter, default_filter, validate}

abbrev asked : SessionFilter
asked = record default_filter {
  time_range = some (record { start = 999_000_000_000_000_000; end = 1_000_000_000_000_000_001 });
  providers = "openai" ∷ [];
  min_tokens = some 5;
  max_tokens = some 7;
  text_search = some "50%";
  page_size = 500;
}

accepted : validate 1_000_000_000_000_000_000 asked ≡ ok tt
unfolding validate
accepted = refl

-- One more row for a page is refused: the text and the ranges make the query complex.
refused :
    validate 1_000_000_000_000_000_000 (record asked { page_size = 501 })
    ≡ err
        "page_size 501 exceeds maximum 500 for this query complexity (reduce filters or page size)"
unfolding validate show_u64
refused = refl

abbrev two : List String
two = "a" ∷ "b" ∷ []
