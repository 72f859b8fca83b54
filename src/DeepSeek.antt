-- ===== src/DeepSeek.antt =====
-- The client of DeepSeek: src/filmoteka/infrastructure/deepseek_provider.py. The response of the service, `json.loads` and `str` of
-- a value that is no text are parameters.
pub mod Unfence
pub mod Errors
pub mod Info
mod Tests
use filmoteka.Prelude.{
  ℕ, suc, String, Bool, true, false, not, ◌&&◌, ◌||◌, Option, none, some, ℤ, pos, negsuc, List, [],
  ◌∷◌, ◌==◌, str_eq, if◌then◌else◌, map,
}
use filmoteka.Text.{parse_int}
use filmoteka.Text.Case.{lower}
use filmoteka.Text.Case.{strip as strip_text}
use filmoteka.Text.Regex.{Chars, chars, text}
use filmoteka.Titles.{clean_title_for_omdb}
use filmoteka.Pipeline.{Enrichment, SearchInfo}
use filmoteka.Json.{
  Json, null, bool, integer, real, str, array, object, truncated, infinite, not_a_number, end, done,
  values, Result, value, raises, ◌>>=◌, Error, key_error, index_error, type_error, json_error,
  attribute_error, overflow_error, unbound_local, Loads, loaded, truthy, get_or, item, first_item,
  as_text,
}
use filmoteka.DeepSeek.Unfence.{unfence, is_fence, is_fence_or_empty, alias_text}

-- What `urlopen` and `read` give: an exception, or a status and a body.
pub data Response : Type 0 where
  failure : Response
  response : ℕ → String → Response

-- The value, where any exception is caught.
abbrev pub value_or_none {ℓ} : {A : Type ℓ} → Result A → Option A
value_or_none (value a) = some a
value_or_none (raises e) = none

-- The body of an answer with status 200, read as JSON.
unfoldable pub fetched : Loads → Response → Option Json
fetched loads failure = none
fetched loads (response status body) =
    if not (status == 200) then none else value_or_none (loaded (loads body))

-- `(KeyError, IndexError, json.JSONDecodeError, TypeError)`
abbrev pub is_caught : Error → Bool
is_caught key_error = true
is_caught index_error = true
is_caught type_error = true
is_caught json_error = true
is_caught _ = false

-- The value in the place of an exception that is caught.
abbrev pub caught {ℓ} : {A : Type ℓ} → A → Result A → Result A
caught default (value a) = value a
caught default (raises e) = if is_caught e then value default else raises e

-- `str(x)`
abbrev text_of : (Json → String) → Json → String
text_of render (str s) = s
text_of render v = render v

abbrev items : Json → List Json
items (array vs) = values vs
items _ = []

abbrev pub shown : (Json → String) → Json → Option String
shown render v = if truthy v then some (text_of render v) else none

-- A country, which is not the text "null".
abbrev pub country_of : (Json → String) → Json → Option String
country_of render (str s) = if str_eq s "" || str_eq s "null" then none else some s
country_of render v = shown render v

-- The first choice's message of an answer, when there is content in it; read as JSON.
unfoldable pub answer_data : Loads → Json → Result (Option Json)
unfolding get_or first_item as_text unfence text
answer_data loads raw = get_or raw "choices" (array end) >>= λ choices.
    if not (truthy choices)
    then value none
    else first_item choices >>= λ first. get_or first "message" (object done) >>= λ message.
        get_or message "content" null >>= λ content.
        if not (truthy content)
        then value none
        else as_text content >>= λ s.
            loaded (loads (text (unfence is_fence (chars s)))) >>= λ data_of. value (some data_of)

-- The fields of the result.
unfoldable pub enrichment_of : (Json → String) → Json → Result Enrichment
unfolding get_or
enrichment_of render data_of = get_or data_of "genres" (array end) >>= λ genres.
    get_or data_of "actors" (array end) >>= λ actors.
    get_or data_of "description" null >>= λ description.
    get_or data_of "country" null >>= λ country. value (record {
      description = shown render description;
      country = country_of render country;
      genres = map (text_of render) (items genres);
      actors = map (text_of render) (items actors);
    })

abbrev pub in_answer : (Json → Result Enrichment) → Option Json → Result (Option Enrichment)
in_answer f none = value none
in_answer f (some data_of) = f data_of >>= λ result. value (some result)

unfoldable pub deepseek_enrich_metadata :
    Loads → (Json → String) → Response → Result (Option Enrichment)
unfolding fetched answer_data enrichment_of
deepseek_enrich_metadata loads render answer = elim (fetched loads answer) [
  | none ↦ value none
  | some raw ↦ caught none (answer_data loads raw) >>= in_answer (enrichment_of render)
]

-- `raw["choices"][0]["message"]["content"]`
unfoldable pub content_of : Json → Result Json
unfolding item first_item
content_of raw = item raw "choices" >>= λ choices.
    first_item choices >>= λ first. item first "message" >>= λ message. item message "content"

abbrev unless_empty : Chars → Option String
unless_empty [] = none
unless_empty (c ∷ s) = some (text (c ∷ s))

unfoldable pub deepseek_generate_alias : Loads → Response → Result (Option String)
unfolding fetched content_of as_text alias_text text
deepseek_generate_alias loads answer = elim (fetched loads answer) [
  | none ↦ value none
  | some raw ↦ caught none (
      content_of raw >>= λ content.
      as_text content >>= λ s. value (unless_empty (alias_text (chars s))))
]

abbrev signed : (ℕ → ℤ) → Option ℕ → Option ℤ
signed f none = none
signed f (some n) = some (f n)

abbrev minus : ℕ → ℤ
minus ℕ.zero = pos 0
minus (suc n) = negsuc n

-- `int(s)`; underscores between the digits are left out.
unfoldable pub int_of_text : String → Option ℤ
unfolding strip_text parse_int
int_of_text s = elim (strip_text s) [
  | String.[] ↦ none
  | String.◌∷◌ c rest ↦
      if str_eq (String.◌∷◌ c "") "-"
      then signed minus (parse_int rest)
      else if str_eq (String.◌∷◌ c "") "+"
      then signed pos (parse_int rest)
      else signed pos (parse_int (String.◌∷◌ c rest))
]

-- `int(year)`, where a ValueError or a TypeError gives `None`
unfoldable pub int_of : Json → Result (Option ℤ)
unfolding int_of_text
int_of null = value none
int_of (bool true) = value (some (pos 1))
int_of (bool false) = value (some (pos 0))
int_of (integer n) = value (some n)
int_of (real _ (truncated n)) = value (some n)
int_of (real _ infinite) = raises overflow_error
int_of (real _ not_a_number) = value none
int_of (str s) = value (int_of_text s)
int_of (array _) = value none
int_of (object _) = value none

abbrev pub is_content_type : String → Bool
is_content_type s = str_eq s "movie" || str_eq s "series" || str_eq s "episode"

unfoldable pub content_type_of : Json → Option String
unfolding lower
content_type_of (str s) = if is_content_type (lower s) then some (lower s) else none
content_type_of _ = none

abbrev year_of : Option ℕ → Option ℤ
year_of none = none
year_of (some n) = some (pos n)

-- `_fallback_search_info`
unfoldable pub fallback_search_info : String → SearchInfo
unfolding clean_title_for_omdb
fallback_search_info file_stem =
    let cleaned = clean_title_for_omdb file_stem in
    record { title = cleaned.title; year = year_of cleaned.year; type = none }

abbrev pub text_or_none : Json → Option String
text_or_none (str s) = if str_eq s "" then none else some s
text_or_none _ = none

-- The fields of an answer, after the content was read.
unfoldable pub search_info_of : String → Json → Result SearchInfo
unfolding get_or int_of content_type_of fallback_search_info
search_info_of file_stem data_of = get_or data_of "title" null >>= λ title.
    elim (text_or_none title) [
      | none ↦ value (fallback_search_info file_stem)
      | some s ↦ get_or data_of "year" null >>= λ year. int_of year >>= λ n.
          get_or data_of "type" null >>= λ type.
          value (record { title = s; year = n; type = content_type_of type })
    ]

-- An exception while the content is looked up leaves the variable of the handler unbound.
abbrev pub unbound : Error → Error
unbound e = if is_caught e then unbound_local else e

-- The text of the content, read as JSON.
unfoldable pub info_data : Loads → Json → Result Json
unfolding as_text unfence text
info_data loads content =
    as_text content >>= λ s. loaded (loads (text (unfence is_fence_or_empty (chars s))))

abbrev pub info_or_fallback : String → Result (Option Json) → Result SearchInfo
info_or_fallback file_stem (raises e) = raises e
info_or_fallback file_stem (value none) = value (fallback_search_info file_stem)
info_or_fallback file_stem (value (some data_of)) = search_info_of file_stem data_of

unfoldable pub deepseek_extract_search_info : Loads → Response → String → Result SearchInfo
unfolding fetched content_of info_data search_info_of fallback_search_info
deepseek_extract_search_info loads answer file_stem = elim (fetched loads answer) [
  | none ↦ value (fallback_search_info file_stem)
  | some raw ↦ elim (content_of raw) [
    | raises e ↦ raises (unbound e)
    | value content ↦
        if not (truthy content)
        then value (fallback_search_info file_stem)
        else info_or_fallback file_stem
            (caught none (info_data loads content >>= λ data_of. value (some data_of)))
  ]
]
