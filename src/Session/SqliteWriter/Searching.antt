-- ===== src/Session/SqliteWriter/Searching.antt =====
-- What a search that succeeds has asked the database for.
use lunaroute.Prelude.{
  ℕ, ◌*◌, ◌%◌, ◌≤◌, ◌<◌, ◌≡◌, sym, ap, ◌∙◌, inl, inr, String, List, length, ltb, Bool-cases, arith,
  Result, ok, err, map_err, >>=-eq-ok, ok_inj,
}
use lunaroute.Prelude.Words.{u64_size}
use lunaroute.Session.Search.{
  SessionFilter, SearchResults, validate, results, max_page_size_for_query,
}
use lunaroute.Session.Search.Validation.{IsValid, validate-IsValid}
use lunaroute.Session.SqliteWriter.{
  to_i64, i64_limit, build_where_clause, results_query, search_sessions,
}

map_err-eq-ok :
    {A E F : Type 0} (f : E → F) (r : Result E A) {a : A} → map_err f r ≡ ok a → r ≡ ok a
map_err-eq-ok f (ok b) h = cc (ok_inj h)
map_err-eq-ok f (err e) h = cc

to_i64-eq : (n : ℕ) (before after : String) {m : ℕ} → to_i64 n before after ≡ ok m → m ≡ n
unfolding to_i64
to_i64-eq n before after h = elim (Bool-cases (ltb n i64_limit)) [
  | inl fits ↦ sym (ok_inj (rw fits at h))
  | inr too_large ↦ cc (rw too_large at h)
]

page_size-le : (filter : SessionFilter) → max_page_size_for_query filter ≤ 1000
unfolding max_page_size_for_query
page_size-le filter = ground arith

page_size_fits :
    (now : ℕ) (filter : SessionFilter)
    → IsValid now filter
    → filter.page_size ≤ max_page_size_for_query filter
page_size_fits now filter (_, (_, (_, (_, (fits, _))))) = fits

asked_at :
    {A : Type 0} (fetch : ℕ → ℕ → Result String (List A)) {limit offset size place : ℕ}
    {rows items : List A}
    → limit ≡ size
    → offset ≡ place
    → rows ≡ items
    → fetch limit offset ≡ ok rows
    → fetch size place ≡ ok items
asked_at fetch s p i asked = rw (sym s, sym p, sym i) asked

few_items :
    {A : Type 0} {rows items : List A} {limit size max : ℕ}
    → rows ≡ items
    → length rows ≤ limit
    → limit ≡ size
    → size ≤ max
    → max ≤ 1000
    → length items ≤ 1000
few_items i few s fits max = rw (sym i) (omega arith)

unwrapped : (n : ℕ) → n < u64_size → n % u64_size ≡ n
unwrapped n small = omega arith

-- When the product of page and page size is below 2^64 and the database gives no more rows than the
-- limit that it is asked for, a search that succeeds was for a valid filter, asked for the page's size
-- at the offset page × page size, and gives 1000 sessions at most.
pub search_sessions-bounded :
    {A : Type 0} (now : ℕ) (to_rfc3339 : ℕ → String)
    (fetch_one : String → List String → Result String ℕ)
    (fetch_all : String → List String → ℕ → ℕ → Result String (List A)) (filter : SessionFilter)
    (r : SearchResults A)
    → filter.page * filter.page_size < u64_size
    → ((q : String) (values : List String) (limit offset : ℕ) (rows : List A)
        → fetch_all q values limit offset ≡ ok rows
        → length rows ≤ limit)
    → search_sessions now to_rfc3339 fetch_one fetch_all filter ≡ ok r
    → IsValid now filter
      × (fetch_all
            (results_query (build_where_clause to_rfc3339 filter).0 filter.sort)
            (build_where_clause to_rfc3339 filter).1
            filter.page_size
            (filter.page * filter.page_size)
          ≡ ok r.items)
      × (length r.items ≤ 1000)
unfolding search_sessions results
search_sessions-bounded now to_rfc3339 fetch_one fetch_all filter r small limited h =
    let (_, valid, h1) = >>=-eq-ok (map_err _ (validate now filter)) _ h in
    let (count, counted, h2) = >>=-eq-ok (map_err _ (fetch_one _ _)) _ h1 in
    let (limit, is_limit, h3) = >>=-eq-ok (to_i64 filter.page_size _ _) _ h2 in
    let (offset, is_offset, h4) =
      >>=-eq-ok (to_i64 (filter.page * filter.page_size % u64_size) _ _) _ h3 in
    let (rows, fetched, h5) = >>=-eq-ok (map_err _ (fetch_all _ _ limit offset)) _ h4 in
    let same = ok_inj h5 in
    let asked = map_err-eq-ok _ (fetch_all _ _ limit offset) fetched in
    let items : rows ≡ r.items = ap (λ s. s.items) same in
    let accepted = (validate-IsValid now filter).0 (map_err-eq-ok _ (validate now filter) valid) in
    let few = limited _ _ limit offset rows asked in
    let size = to_i64-eq filter.page_size _ _ is_limit in
    let place =
      to_i64-eq (filter.page * filter.page_size % u64_size) _ _ is_offset
      ∙ unwrapped (filter.page * filter.page_size) small in
    (
      accepted,
      asked_at (fetch_all _ _) size place items asked,
      few_items items few size (page_size_fits now filter accepted) (page_size-le filter),
    )
