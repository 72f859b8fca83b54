-- ===== src/DeepSeek/Errors.antt =====
-- Which exceptions leave the client of DeepSeek, src/filmoteka/infrastructure/deepseek_provider.py.
use filmoteka.Prelude.{
  ◌≡◌, refl, String, Bool, true, false, not, ◌||◌, Option, none, some, Option-cases, ◌⊎◌, inl, inr,
  arith, if◌then◌else◌,
}
use filmoteka.Text.Regex.{chars, text}
use filmoteka.Pipeline.{Enrichment}
use filmoteka.Json.{
  Json, null, bool, integer, real, str, array, object, end, item_then, done, Result, value, raises,
  ◌>>=◌, Error, key_error, index_error, type_error, json_error, attribute_error, overflow_error,
  value_error, recursion_error, unbound_local, Loads, Loaded, document, no_json, too_many_digits,
  too_deep, loaded, truthy, lookup, get_or, item, first_item, as_text,
}
use filmoteka.DeepSeek.Unfence.{unfence, is_fence}
use filmoteka.DeepSeek.{
  in_answer, Response, fetched, is_caught, caught, answer_data, enrichment_of,
  deepseek_enrich_metadata, content_of,
}

-- An exception, if there is one, is among some.
abbrev pub Only {ℓ} : {A : Type ℓ} → (Error → Bool) → Result A → Type 0
Only t (value a) = Unit
Only t (raises e) = t e ≡ true

pub Only-bind {ℓ κ} :
    {A : Type ℓ} {B : Type κ} (t : Error → Bool) (r : Result A) (f : A → Result B)
    → Only t r
    → ((a : A) → Only t (f a))
    → Only t (r >>= f)
Only-bind t (value a) f h k = k a
Only-bind t (raises e) f h k = h

Only-if {ℓ} :
    {A : Type ℓ} (t : Error → Bool) (b : Bool) (r s : Result A)
    → Only t r
    → Only t s
    → Only t (if b then r else s)
Only-if t true r s h k = h
Only-if t false r s h k = k

-- The exceptions of the operations on JSON that the code does not catch.
abbrev pub escapes : Error → Bool
escapes attribute_error = true
escapes value_error = true
escapes recursion_error = true
escapes _ = false

-- The exceptions of the operations on JSON.
abbrev pub may : Error → Bool
may e = is_caught e || escapes e

pub Only-caught {ℓ} : {A : Type ℓ} (d : A) (r : Result A) → Only may r → Only escapes (caught d r)
Only-caught d (value a) h = tt
Only-caught d (raises key_error) h = tt
Only-caught d (raises index_error) h = tt
Only-caught d (raises type_error) h = tt
Only-caught d (raises json_error) h = tt
Only-caught d (raises attribute_error) h = refl
Only-caught d (raises value_error) h = refl
Only-caught d (raises recursion_error) h = refl
Only-caught d (raises overflow_error) h = cc
Only-caught d (raises unbound_local) h = cc

pub get_or-Only : (v : Json) (key : String) (d : Json) → Only escapes (get_or v key d)
unfolding get_or
get_or-Only (object fields) key d = tt
get_or-Only null key d = refl
get_or-Only (bool _) key d = refl
get_or-Only (integer _) key d = refl
get_or-Only (real _ _) key d = refl
get_or-Only (str _) key d = refl
get_or-Only (array _) key d = refl

pub Only-may {ℓ} : {A : Type ℓ} (r : Result A) → Only escapes r → Only may r
Only-may (value a) h = tt
Only-may (raises e) h = rw (h) (ground arith)

first_item-Only : (v : Json) → Only is_caught (first_item v)
unfolding first_item
first_item-Only (array end) = refl
first_item-Only (array (item_then v vs)) = tt
first_item-Only (str String.[]) = refl
first_item-Only (str (String.◌∷◌ c s)) = tt
first_item-Only (object _) = refl
first_item-Only null = refl
first_item-Only (bool _) = refl
first_item-Only (integer _) = refl
first_item-Only (real _ _) = refl

item-Only : (v : Json) (key : String) → Only is_caught (item v key)
unfolding item
item-Only (object fields) key = elim (Option-cases (lookup key fields)) [
  | inl e ↦ rw (item, e) refl
  | inr (v, e) ↦ rw (item, e) tt
]
item-Only null key = refl
item-Only (bool _) key = refl
item-Only (integer _) key = refl
item-Only (real _ _) key = refl
item-Only (str _) key = refl
item-Only (array _) key = refl

pub as_text-Only : (v : Json) → Only escapes (as_text v)
unfolding as_text
as_text-Only (str _) = tt
as_text-Only null = refl
as_text-Only (bool _) = refl
as_text-Only (integer _) = refl
as_text-Only (real _ _) = refl
as_text-Only (array _) = refl
as_text-Only (object _) = refl

Only-may_caught {ℓ} : {A : Type ℓ} (r : Result A) → Only is_caught r → Only may r
Only-may_caught (value a) h = tt
Only-may_caught (raises e) h = rw (h) (ground arith)

pub loaded-Only : (v : Loaded) → Only may (loaded v)
loaded-Only (document v) = tt
loaded-Only no_json = refl
loaded-Only too_many_digits = refl
loaded-Only too_deep = refl

answer_data-Only : (loads : Loads) (raw : Json) → Only may (answer_data loads raw)
unfolding answer_data
answer_data-Only loads raw =
    Only-bind may (get_or raw "choices" (array end)) _
      (Only-may (get_or raw "choices" (array end)) (get_or-Only raw "choices" (array end)))
      (λ choices. Only-if may (not (truthy choices)) _ _ tt (
        Only-bind may (first_item choices) _
          (Only-may_caught (first_item choices) (first_item-Only choices))
          (λ first.
            Only-bind may (get_or first "message" (object done)) _
              (Only-may _ (get_or-Only first "message" (object done)))
              (λ message.
                Only-bind may (get_or message "content" null) _
                  (Only-may _ (get_or-Only message "content" null))
                  (λ content. Only-if may (not (truthy content)) _ _ tt (
                    Only-bind may (as_text content) _ (Only-may _ (as_text-Only content)) (λ s.
                      Only-bind may (loaded (loads (text (unfence is_fence (chars s))))) _
                        (loaded-Only _) (λ data_of. tt))))))))

enrichment_of-Only : (render : Json → String) (v : Json) → Only escapes (enrichment_of render v)
unfolding enrichment_of
enrichment_of-Only render v =
    Only-bind escapes (get_or v "genres" (array end)) _ (get_or-Only v "genres" (array end))
      (λ genres.
        Only-bind escapes (get_or v "actors" (array end)) _ (get_or-Only v "actors" (array end))
          (λ actors.
            Only-bind escapes (get_or v "description" null) _ (get_or-Only v "description" null)
              (λ description.
                Only-bind escapes (get_or v "country" null) _ (get_or-Only v "country" null)
                  (λ country. tt))))

pub content_of-Only : (raw : Json) → Only is_caught (content_of raw)
unfolding content_of
content_of-Only raw =
    Only-bind is_caught (item raw "choices") _ (item-Only raw "choices") (λ choices.
      Only-bind is_caught (first_item choices) _ (first_item-Only choices) (λ first.
        Only-bind is_caught (item first "message") _ (item-Only first "message")
          (λ message. item-Only message "content")))

Only-value {ℓ} :
    {A : Type ℓ} (r : Result A)
    → Only escapes r
    → ((a : A) × (r ≡ value a))
      ⊎ ((r ≡ raises attribute_error) ⊎ ((r ≡ raises value_error) ⊎ (r ≡ raises recursion_error)))
Only-value (value a) h = inl (a, refl)
Only-value (raises attribute_error) h = inr (inl refl)
Only-value (raises value_error) h = inr (inr (inl refl))
Only-value (raises recursion_error) h = inr (inr (inr refl))
Only-value (raises key_error) h = cc
Only-value (raises index_error) h = cc
Only-value (raises type_error) h = cc
Only-value (raises json_error) h = cc
Only-value (raises overflow_error) h = cc
Only-value (raises unbound_local) h = cc

-- Whatever the service answers, and whatever `json.loads` makes of it, the enrichment gives a result or `None`, or raises an
-- AttributeError, a ValueError or a RecursionError: no other exception leaves it.
pub deepseek_enrich_metadata_lem :
    (loads : Loads) (render : Json → String) (answer : Response)
    → ((result : Option Enrichment) × (deepseek_enrich_metadata loads render answer ≡ value result))
      ⊎ ((deepseek_enrich_metadata loads render answer ≡ raises attribute_error)
          ⊎ ((deepseek_enrich_metadata loads render answer ≡ raises value_error)
              ⊎ (deepseek_enrich_metadata loads render answer ≡ raises recursion_error)))
unfolding deepseek_enrich_metadata
deepseek_enrich_metadata_lem loads render answer =
    Only-value (deepseek_enrich_metadata loads render answer)
      (elim (Option-cases (fetched loads answer)) [
        | inl e ↦ rw (deepseek_enrich_metadata, e) tt
        | inr (raw, e) ↦
            rw (deepseek_enrich_metadata, e)
              (Only-bind escapes (caught none (answer_data loads raw)) _
                (Only-caught none (answer_data loads raw) (answer_data-Only loads raw))
                (λ found. in_answer-Only found))
      ])
  where
    in_answer-Only : (found : Option Json) → Only escapes (in_answer (enrichment_of render) found)
    in_answer-Only none = tt
    in_answer-Only (some v) =
        Only-bind escapes (enrichment_of render v) _ (enrichment_of-Only render v) (λ result. tt)
