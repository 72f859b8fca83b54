-- ===== src/DeepSeek/Info.antt =====
-- What the client of DeepSeek gives: src/filmoteka/infrastructure/deepseek_provider.py.
use mathlib.Core.Path.{subst}
use filmoteka.Prelude.{
  ◌≡◌, ◌≢◌, ◌⊎◌, refl, String, Bool, true, false, not, ◌==◌, str_eq, eq_iff, Option, none, some, [],
  ◌∷◌, Bool-cases, Option-cases, inl, inr, arith,
}
use filmoteka.Text.Case.{lower}
use filmoteka.Text.Regex.{Chars, head_test}
use filmoteka.Text.Regex.Sound.{some_injective}
use filmoteka.Text.Strip.{strip, strip_by, head_test-strip_by}
use filmoteka.Pipeline.{SearchInfo}
use filmoteka.Json.{
  key_error, index_error, type_error, json_error, attribute_error, value_error, recursion_error,
  overflow_error, unbound_local, truncated, infinite, not_a_number, Json, null, bool, integer, real,
  str, array, object, Result, value, raises, ◌>>=◌, Error, Loads, truthy, get_or, as_text,
}
use filmoteka.DeepSeek.Errors.{
  Only, Only-bind, may, Only-may, Only-caught, as_text-Only, loaded-Only, escapes, get_or-Only,
  content_of-Only,
}
use filmoteka.DeepSeek.Unfence.{begins, fence, unquote, drop_fence, alias_text}
use filmoteka.DeepSeek.{
  int_of, text_or_none, caught, unbound, info_data, info_or_fallback, Response, fetched, is_caught,
  is_content_type, content_type_of, content_of, fallback_search_info, search_info_of,
  deepseek_extract_search_info,
}

begins-fence : (s : Chars) → head_test (◌== 96) s ≡ false → begins fence s ≡ false
unfolding begins
begins-fence [] h = refl
begins-fence (c ∷ s) h = ground arith

-- The fences of Markdown are gone before they are looked for: the alias is the content without blanks, quotes and backticks around it.
pub alias_text_lem :
    (content : Chars)
    → alias_text content ≡ unquote (strip (strip_by (◌== 96) (unquote (strip content))))
unfolding alias_text drop_fence
alias_text_lem content =
    let bare = strip_by (◌== 96) (unquote (strip content)) in
    rw (begins-fence bare (head_test-strip_by (◌== 96) (unquote (strip content)))) refl

-- A type that is known, or none.
abbrev pub IsKnown : Option String → Type 0
IsKnown none = Unit
IsKnown (some s) = is_content_type s ≡ true

-- The fallback, or a title that is not empty with a type that is known or missing.
abbrev pub IsUsable : String → SearchInfo → Type 0
IsUsable file_stem info =
    (info ≡ fallback_search_info file_stem) ⊎ ((info.title ≢ "") × IsKnown info.type)

content_type_of-IsKnown : (v : Json) → IsKnown (content_type_of v)
unfolding content_type_of
content_type_of-IsKnown (str s) = elim (Bool-cases (is_content_type (lower s))) [
  | inl e ↦ rw (e) e
  | inr e ↦ rw (e) tt
]
content_type_of-IsKnown null = tt
content_type_of-IsKnown (bool _) = tt
content_type_of-IsKnown (integer _) = tt
content_type_of-IsKnown (real _ _) = tt
content_type_of-IsKnown (array _) = tt
content_type_of-IsKnown (object _) = tt

uncaught : Error → Bool
uncaught e = not (is_caught e)

-- A usable answer, or an exception that the handler does not name.
abbrev pub IsOutcome : String → Result SearchInfo → Type 0
IsOutcome file_stem (value info) = IsUsable file_stem info
IsOutcome file_stem (raises e) = is_caught e ≡ false

IsOutcome-bind {ℓ} :
    {A : Type ℓ} (file_stem : String) (r : Result A) (f : A → Result SearchInfo)
    → Only uncaught r
    → ((a : A) → IsOutcome file_stem (f a))
    → IsOutcome file_stem (r >>= f)
unfolding uncaught
IsOutcome-bind file_stem (value a) f h k = k a
IsOutcome-bind file_stem (raises e) f h k = ground arith

Only-uncaught {ℓ} : {A : Type ℓ} (r : Result A) → Only escapes r → Only uncaught r
unfolding uncaught
Only-uncaught (value a) h = tt
Only-uncaught (raises attribute_error) h = refl
Only-uncaught (raises value_error) h = refl
Only-uncaught (raises recursion_error) h = refl
Only-uncaught (raises key_error) h = cc
Only-uncaught (raises index_error) h = cc
Only-uncaught (raises type_error) h = cc
Only-uncaught (raises json_error) h = cc
Only-uncaught (raises overflow_error) h = cc
Only-uncaught (raises unbound_local) h = cc

int_of-Only : (v : Json) → Only uncaught (int_of v)
unfolding int_of uncaught
int_of-Only null = tt
int_of-Only (bool true) = tt
int_of-Only (bool false) = tt
int_of-Only (integer _) = tt
int_of-Only (real _ (truncated _)) = tt
int_of-Only (real _ infinite) = refl
int_of-Only (real _ not_a_number) = tt
int_of-Only (str _) = tt
int_of-Only (array _) = tt
int_of-Only (object _) = tt

text_or_none-some : (v : Json) (s : String) → text_or_none v ≡ some s → s ≢ ""
text_or_none-some (str t) s h = elim (Bool-cases (str_eq t "")) [
  | inl e ↦ cc (rw (e) at h)
  | inr e ↦ λ f. ground (arith, eq_iff t "", some_injective (rw (e) at h))
]
text_or_none-some null s h = cc
text_or_none-some (bool _) s h = cc
text_or_none-some (integer _) s h = cc
text_or_none-some (real _ _) s h = cc
text_or_none-some (array _) s h = cc
text_or_none-some (object _) s h = cc

search_info_of-IsOutcome :
    (file_stem : String) (v : Json) → IsOutcome file_stem (search_info_of file_stem v)
unfolding search_info_of
search_info_of-IsOutcome file_stem v =
    IsOutcome-bind file_stem (get_or v "title" null) _
      (Only-uncaught _ (get_or-Only v "title" null))
      (λ title. elim (Option-cases (text_or_none title)) [
        | inl e ↦ rw (e) (inl refl)
        | inr (s, e) ↦ rw (e) (
            IsOutcome-bind file_stem (get_or v "year" null) _
              (Only-uncaught _ (get_or-Only v "year" null))
              (λ year. IsOutcome-bind file_stem (int_of year) _ (int_of-Only year) (λ n.
                IsOutcome-bind file_stem (get_or v "type" null) _
                  (Only-uncaught _ (get_or-Only v "type" null))
                  (λ type. inr (text_or_none-some title s e, content_type_of-IsKnown type)))))
      ])

info_data-Only : (loads : Loads) (content : Json) → Only may (info_data loads content)
unfolding info_data
info_data-Only loads content =
    Only-bind may (as_text content) _ (Only-may _ (as_text-Only content)) (λ s. loaded-Only _)

info_or_fallback-IsOutcome :
    (file_stem : String) (r : Result (Option Json))
    → Only escapes r
    → IsOutcome file_stem (info_or_fallback file_stem r)
info_or_fallback-IsOutcome file_stem (value none) h = inl refl
info_or_fallback-IsOutcome file_stem (value (some v)) h = search_info_of-IsOutcome file_stem v
info_or_fallback-IsOutcome file_stem (raises attribute_error) h = refl
info_or_fallback-IsOutcome file_stem (raises value_error) h = refl
info_or_fallback-IsOutcome file_stem (raises recursion_error) h = refl
info_or_fallback-IsOutcome file_stem (raises key_error) h = cc
info_or_fallback-IsOutcome file_stem (raises index_error) h = cc
info_or_fallback-IsOutcome file_stem (raises type_error) h = cc
info_or_fallback-IsOutcome file_stem (raises json_error) h = cc
info_or_fallback-IsOutcome file_stem (raises overflow_error) h = cc
info_or_fallback-IsOutcome file_stem (raises unbound_local) h = cc

run-cases {ℓ} :
    {A : Type ℓ} (r : Result A) → ((a : A) × (r ≡ value a)) ⊎ ((e : Error) × (r ≡ raises e))
run-cases (value a) = inl (a, refl)
run-cases (raises e) = inr (e, refl)

unbound-uncaught : (e : Error) → is_caught (unbound e) ≡ false
unbound-uncaught key_error = refl
unbound-uncaught index_error = refl
unbound-uncaught type_error = refl
unbound-uncaught json_error = refl
unbound-uncaught attribute_error = refl
unbound-uncaught value_error = refl
unbound-uncaught recursion_error = refl
unbound-uncaught overflow_error = refl
unbound-uncaught unbound_local = refl

-- Whatever the service answers, the search info is that of the title cleaner, or has a title that is not empty and a type that is
-- "movie", "series", "episode" or missing; or an exception is raised that is none of the four which the code catches.
pub search_info_lem :
    (loads : Loads) (answer : Response) (file_stem : String)
    → IsOutcome file_stem (deepseek_extract_search_info loads answer file_stem)
unfolding deepseek_extract_search_info
search_info_lem loads answer file_stem = elim (Option-cases (fetched loads answer)) [
  | inl e ↦ rw (deepseek_extract_search_info, e) (inl refl)
  | inr (raw, e) ↦ elim (run-cases (content_of raw)) [
    | inr (x, f) ↦ rw (deepseek_extract_search_info, e, f) (unbound-uncaught x)
    | inl (content, f) ↦ elim (Bool-cases (truthy content)) [
      | inr empty ↦ rw (deepseek_extract_search_info, e, f, empty) (inl refl)
      | inl full ↦
          rw (deepseek_extract_search_info, e, f, full)
            (info_or_fallback-IsOutcome file_stem
              (caught none (info_data loads content >>= λ v. value (some v)))
              (Only-caught none _ (
                Only-bind may (info_data loads content) _ (info_data-Only loads content)
                  (λ v. tt))))
    ]
  ]
]

-- An answer with status 200 that is JSON but has no content where the code looks for it does not lead to the fallback: the handler reads a variable that has no value, which is an UnboundLocalError.
pub search_info-unbound :
    (loads : Loads) (answer : Response) (file_stem : String) (raw : Json) (e : Error)
    → fetched loads answer ≡ some raw
    → content_of raw ≡ raises e
    → deepseek_extract_search_info loads answer file_stem ≡ raises unbound_local
unfolding deepseek_extract_search_info
search_info-unbound loads answer file_stem raw e json missing =
    let named : is_caught e ≡ true = subst (Only is_caught) missing (content_of-Only raw) in
    rw (deepseek_extract_search_info, json, missing, named) refl
