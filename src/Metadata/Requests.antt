-- ===== src/Metadata/Requests.antt =====
-- How many requests a search for a poster sends, in src/filmoteka/infrastructure/metadata_providers.py.
use filmoteka.Prelude.{
  ℕ, suc, ◌+◌, ◌*◌, ◌≤◌, String, Option, none, some, List, [], ◌∷◌, str_eq, length, arith,
  Option-cases, Bool-cases, inl, inr,
}
use filmoteka.Metadata.{
  Service, Sent, Asked, Item, extract_poster, lookup_by_id, best_poster, pick_best_candidate,
  imdb_id_of, omdb_search, omdb_v2_exact, omdb_v2_search_fallback, or_then, try_types, types_to_try,
  omdb_search_poster_v2,
}

module _ (service : Service) (api_key : String) where
  length-lookup_by_id :
      (imdb_id : Option String) (sent : Sent)
      → length (lookup_by_id service api_key imdb_id sent).1 ≤ suc (length sent)
  unfolding lookup_by_id
  length-lookup_by_id none sent = omega arith
  length-lookup_by_id (some imdb_id) sent = omega arith

  length-best_poster :
      (best : Option Item) (sent : Sent)
      → length (best_poster service api_key best sent).1 ≤ suc (length sent)
  unfolding best_poster
  length-best_poster none sent = omega arith
  length-best_poster (some best) sent = elim (Option-cases (extract_poster best)) [
    | inl no_poster ↦ rw (no_poster, best_poster) (length-lookup_by_id (imdb_id_of best) sent)
    | inr (url, poster) ↦ rw (poster, best_poster) (omega arith)
  ]

  length-search_fallback :
      (title : String) (year : Option ℕ) (type : Option String) (sent : Sent)
      → length (omdb_v2_search_fallback service api_key title year type sent).1 ≤ length sent + 2
  unfolding omdb_v2_search_fallback
  length-search_fallback title year type sent =
      elim (Option-cases (omdb_search service api_key title year type sent).0) [
        | inl no_results ↦ rw (no_results, omdb_v2_search_fallback) (omega arith)
        | inr (candidates, results) ↦
            rw (results, omdb_v2_search_fallback)
              (omega (
                arith,
                length-best_poster (pick_best_candidate candidates title year)
                    (omdb_search service api_key title year type sent).1,
              ))
      ]

  length-or_then :
      (n m : ℕ) (r : Asked (Option (String × String)))
      (next : Sent → Asked (Option (String × String)))
      → length r.1 ≤ n
      → ((asked : Sent) → length (next asked).1 ≤ length asked + m)
      → length (or_then r next).1 ≤ n + m
  length-or_then n m (some url, asked) next h more = omega (arith, h)
  length-or_then n m (none, asked) next h more = omega (arith, h, more asked)

  length-try_types :
      (title : String) (year : Option ℕ) (types : List (Option String)) (sent : Sent)
      → length (try_types service api_key title year types sent).1
        ≤ length sent + (3 * length types + 1)
  unfolding try_types
  length-try_types title year [] sent = omega arith
  length-try_types title year (type ∷ types) sent =
      let bound =
        length-or_then (length sent + 1) (2 + (3 * length types + 1))
          (omdb_v2_exact service api_key title year type sent)
          (λ asked.
            or_then (omdb_v2_search_fallback service api_key title year type asked)
              (λ later. try_types service api_key title year types later))
          (omega arith)
          (λ asked. omega (
            arith,
            length-or_then (length asked + 2) (3 * length types + 1)
                (omdb_v2_search_fallback service api_key title year type asked)
                (λ later. try_types service api_key title year types later)
                (length-search_fallback title year type asked)
                (λ later. length-try_types title year types later),
          )) in
      omega (arith, bound)

  length-types_to_try : (type : Option String) → length (types_to_try type) ≤ 3
  length-types_to_try none = omega arith
  length-types_to_try (some type) = elim (Bool-cases (str_eq type "")) [
    | inl empty ↦ rw empty (omega arith)
    | inr given ↦ rw given (omega arith)
  ]

  -- A search for a poster sends at most ten requests.
  pub length-omdb_search_poster_v2 :
      (title : String) (year : Option ℕ) (type : Option String) (sent : Sent)
      → length (omdb_search_poster_v2 service api_key title year type sent).1 ≤ length sent + 10
  unfolding omdb_search_poster_v2
  length-omdb_search_poster_v2 title year type sent =
      omega (arith, length-try_types title year (types_to_try type) sent, length-types_to_try type)
