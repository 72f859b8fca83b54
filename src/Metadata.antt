-- ===== src/Metadata.antt =====
-- The search for posters: src/filmoteka/infrastructure/metadata_providers.py. The service of OMDB is a parameter that answers each
-- request by what was sent before it; the fields of its documented answers are texts or missing.
pub mod Sound
pub mod Requests
pub mod Best
mod Tests
use Prim.Native.Char.{Char, code}
use filmoteka.Prelude.{
  ℕ, zero, suc, ◌+◌, String, Bool, true, false, not, ◌&&◌, ◌||◌, Option, none, some, List, [], ◌∷◌,
  ◌++◌, leb, ltb, ◌==◌, str_eq, or_else, is_none, if◌then◌else◌, take, map, sort_by, by_key_desc,
}
use filmoteka.Text.{show, parse_int}
use filmoteka.Text.Case.{lower}
use filmoteka.Importing.{starts_with}

pub record Item : Type 0 where
  pub title : Option String
  pub year : Option String
  pub imdb_id : Option String
  pub poster : Option String

pub record Body : Type 0 where
  pub item : Item
  pub response : Option String
  pub search : Option (List Item)

-- What `urlopen` gives: an exception, also of a body that is not JSON, or a status and a body.
pub data Answer : Type 0 where
  failure : Answer
  reply : ℕ → Body → Answer

-- The query of a request.
abbrev pub Params : Type 0
Params = List (String × String)

-- The requests so far, the last one first.
abbrev pub Sent : Type 0
Sent = List Params

abbrev pub Service : Type 0
Service = Sent → Params → Answer

abbrev pub has_text : Option String → Bool
has_text none = false
has_text (some s) = not (str_eq s "")

-- `_extract_poster`
unfoldable pub extract_poster : Item → Option String
extract_poster item = elim item.poster [
  | none ↦ none
  | some s ↦ if not (str_eq s "") && not (str_eq s "N/A") then some s else none
]

-- The body of an answer with status 200 that is no error of the service.
unfoldable pub accepted : Answer → Option Body
accepted failure = none
accepted (reply status body) = if not (status == 200) then none else elim body.response [
  | none ↦ some body
  | some r ↦ if str_eq r "False" then none else some body
]

abbrev with_param : String → Option String → Params
with_param key none = []
with_param key (some value) = (key, value) ∷ []

abbrev year_text : Option ℕ → Option String
year_text none = none
year_text (some n) = some (show n)

-- The parameters of `_omdb_get`, after the key of the service.
abbrev pub title_params : String → String → Option ℕ → Bool → Option String → Params
title_params api_key title year exact type =
    ("apikey", api_key) ∷ (if exact then "t" else "s", title) ∷ with_param "y" (year_text year)
    ++ with_param "type" type

-- `needle in text`
unfoldable pub is_substring : String → String → Bool
unfolding starts_with
is_substring needle String.[] = str_eq needle ""
is_substring needle (String.◌∷◌ c s) =
    let later = is_substring needle s in starts_with needle (String.◌∷◌ c s) || later

-- `s[:n]`
unfoldable pub prefix : ℕ → String → String
prefix zero s = ""
prefix (suc n) String.[] = ""
prefix (suc n) (String.◌∷◌ c s) = String.◌∷◌ c (prefix n s)

unfoldable pub title_score : String → Item → ℕ
unfolding is_substring lower
title_score title item =
    let wanted = lower title in
    let shown = lower (or_else item.title "") in
    if str_eq shown wanted
    then 3
    else if is_substring wanted shown || is_substring shown wanted
    then 2
    else 0

-- "OMDB Year may be 1999 or 1999–2000"
unfoldable pub year_score : Option ℕ → Item → ℕ
unfolding prefix
year_score none item = 0
year_score (some year) item = elim (parse_int (prefix 4 (or_else item.year ""))) [
  | none ↦ 0
  | some n ↦ if n == year then 1 else 0
]

unfoldable pub candidate_score : String → Option ℕ → Item → ℕ
unfolding title_score year_score
candidate_score title year item = title_score title item + year_score year item

unfoldable pub first_if_scored : (Item → ℕ) → List Item → Option Item
first_if_scored score [] = none
first_if_scored score (best ∷ _) = if leb 1 (score best) then some best else none

-- `_pick_best_candidate`
unfoldable pub pick_best_candidate : List Item → String → Option ℕ → Option Item
unfolding first_if_scored candidate_score
pick_best_candidate candidates title year =
    let score = candidate_score title year in
    first_if_scored score (sort_by (by_key_desc score) candidates)

-- The first poster among results.
unfoldable pub first_poster : List Item → Option String
unfolding extract_poster
first_poster [] = none
first_poster (x ∷ xs) =
    let later = first_poster xs in elim (extract_poster x) [ none ↦ later | some url ↦ some url ]

abbrev pub results_or_none : Option (List Item) → Option (List Item)
results_or_none none = none
results_or_none (some []) = none
results_or_none (some (x ∷ xs)) = some (x ∷ xs)

-- `(poster_url, "omdb")`
abbrev pub from_omdb : Option String → Option (String × String)
from_omdb none = none
from_omdb (some url) = some (url, "omdb")

abbrev pub body_poster : Option Body → Option String
body_poster none = none
body_poster (some body) = extract_poster body.item

abbrev pub body_results : Option Body → Option (List Item)
body_results none = none
body_results (some body) = results_or_none body.search

abbrev pub results_poster : Option (List Item) → Option String
results_poster none = none
results_poster (some results) = first_poster results

-- The id to look a candidate up by.
abbrev pub imdb_id_of : Item → Option String
imdb_id_of item = elim item.imdb_id [
  | none ↦ none
  | some s ↦ if starts_with "tt" s then some s else none
]

-- A result with the requests that were sent for it, the last one first.
abbrev pub Asked : Type 0 → Type 0
Asked A = A × Sent

-- A second way where the first gives no poster.
abbrev pub or_then :
    Asked (Option (String × String))
    → (Sent → Asked (Option (String × String)))
    → Asked (Option (String × String))
or_then (some url, sent) next = (some url, sent)
or_then (none, sent) next = next sent

abbrev pub types_to_try : Option String → List (Option String)
types_to_try type = if has_text type then type ∷ [] else none ∷ some "series" ∷ some "movie" ∷ []

module _ (service : Service) (api_key : String) where
  unfoldable pub request : Params → Sent → Asked (Option Body)
  unfolding accepted
  request params sent = (accepted (service sent params), params ∷ sent)

  unfoldable pub omdb_get : String → Option ℕ → Bool → Option String → Sent → Asked (Option Body)
  unfolding request
  omdb_get title year exact type sent = request (title_params api_key title year exact type) sent

  unfoldable pub omdb_get_by_imdb_id : String → Sent → Asked (Option Body)
  unfolding request
  omdb_get_by_imdb_id imdb_id sent = request (("apikey", api_key) ∷ ("i", imdb_id) ∷ []) sent

  unfoldable pub omdb_search : String → Option ℕ → Option String → Sent → Asked (Option (List Item))
  unfolding omdb_get
  omdb_search title year type sent =
      let answer = omdb_get title year false type sent in (body_results answer.0, answer.1)

  unfoldable pub omdb_v2_exact :
      String → Option ℕ → Option String → Sent → Asked (Option (String × String))
  unfolding omdb_get extract_poster
  omdb_v2_exact title year type sent =
      let answer = omdb_get title year true type sent in
      (from_omdb (body_poster answer.0), answer.1)

  -- "Step 3: IMDb ID lookup from best candidate"
  unfoldable pub lookup_by_id : Option String → Sent → Asked (Option (String × String))
  unfolding omdb_get_by_imdb_id extract_poster
  lookup_by_id none sent = (none, sent)
  lookup_by_id (some imdb_id) sent =
      let answer = omdb_get_by_imdb_id imdb_id sent in (from_omdb (body_poster answer.0), answer.1)

  -- Steps 2 and 3, on the best candidate.
  unfoldable pub best_poster : Option Item → Sent → Asked (Option (String × String))
  unfolding lookup_by_id extract_poster
  best_poster none sent = (none, sent)
  best_poster (some best) sent = elim (extract_poster best) [
    | some url ↦ (some (url, "omdb"), sent)
    | none ↦ lookup_by_id (imdb_id_of best) sent
  ]

  unfoldable pub omdb_v2_search_fallback :
      String → Option ℕ → Option String → Sent → Asked (Option (String × String))
  unfolding omdb_search best_poster pick_best_candidate
  omdb_v2_search_fallback title year type sent =
      let results = omdb_search title year type sent in
      elim results.0 [
        | none ↦ (none, results.1)
        | some candidates ↦ best_poster (pick_best_candidate candidates title year) results.1
      ]

  -- The loop over the types, and the final fallback.
  unfoldable pub try_types :
      String → Option ℕ → List (Option String) → Sent → Asked (Option (String × String))
  unfolding omdb_search omdb_v2_exact omdb_v2_search_fallback first_poster
  try_types title year [] sent =
      let results = omdb_search title none none sent in
      (from_omdb (results_poster results.0), results.1)
  try_types title year (type ∷ types) sent = or_then (omdb_v2_exact title year type sent) (λ asked.
      or_then (omdb_v2_search_fallback title year type asked)
        (λ searched. try_types title year types searched))

  unfoldable pub omdb_search_poster_v2 :
      String → Option ℕ → Option String → Sent → Asked (Option (String × String))
  unfolding try_types
  omdb_search_poster_v2 title year type sent = try_types title year (types_to_try type) sent

  unfoldable pub omdb_search_poster : String → Option ℕ → Sent → Asked (Option (String × String))
  unfolding omdb_v2_exact omdb_search first_poster
  omdb_search_poster title year sent = or_then (omdb_v2_exact title year none sent) (λ asked.
      let results = omdb_search title year none asked in
      (from_omdb (results_poster results.0), results.1))
