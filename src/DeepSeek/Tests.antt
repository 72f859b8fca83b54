-- ===== src/DeepSeek/Tests.antt =====
-- Answers of the service.
use filmoteka.Prelude.{
  ◌≡◌, ◌⊎◌, refl, String, Option, none, some, pos, [], str_eq, ◌==◌, if◌then◌else◌,
}
use filmoteka.Text.Regex.{chars}
use filmoteka.Text.Strip.{strip, strip_by}
use filmoteka.Pipeline.{Enrichment}
use filmoteka.Json.{
  Json, str, array, object, end, item_then, done, field_then, value, raises, key_error,
  attribute_error, value_error, recursion_error, unbound_local, Loads, document, no_json,
  too_many_digits,
}
use filmoteka.DeepSeek.Unfence.{alias_text, unquote}
use filmoteka.DeepSeek.{Response, response, deepseek_enrich_metadata, deepseek_extract_search_info}
use filmoteka.DeepSeek.Errors.{deepseek_enrich_metadata_lem}
use filmoteka.DeepSeek.Info.{IsOutcome, search_info_lem, search_info-unbound, alias_text_lem}

-- An answer with that content.
abbrev answer_with : Json → Json
answer_with content = object (
    field_then "choices"
      (array (
        item_then (object (field_then "message" (object (field_then "content" content done)) done))
          end))
      done)

abbrev fenced : String
fenced = "```json\n{…}\n```"

-- Three bodies that have a content or an error, and the blocks in two of them; the second block has an integer with too many digits.
abbrev loads : Loads
loads s =
    if str_eq s "info"
    then document (answer_with (str fenced))
    else if str_eq s "{…}"
    then document (
        object (
          field_then "title" (str "The Matrix")
            (field_then "year" (str "1999") (field_then "type" (str "Movie") done))))
    else if str_eq s "large"
    then document (answer_with (str "{… 9999 …}"))
    else if str_eq s "{… 9999 …}"
    then too_many_digits
    else if str_eq s "error"
    then document (object (field_then "error" (str "quota") done))
    else no_json

understood :
    deepseek_extract_search_info loads (response 200 "info") "The.Matrix.1999"
    ≡ value (record { title = "The Matrix"; year = some (pos 1999); type = some "movie" })
unfolding deepseek_extract_search_info filmoteka.DeepSeek.Unfence.is_fence_or_empty
understood = refl

not_json :
    deepseek_extract_search_info loads (response 200 "<html>") "The.Matrix.1999"
    ≡ value (record { title = "The Matrix"; year = some (pos 1999); type = none })
unfolding deepseek_extract_search_info filmoteka.Titles.Markers.scene_group
not_json = refl

enriched :
    deepseek_enrich_metadata loads (λ v. "") (response 200 "info")
    ≡ value (some (record { description = none; country = none; genres = []; actors = [] }))
unfolding deepseek_enrich_metadata filmoteka.DeepSeek.Unfence.is_fence
enriched = refl

-- A block with such an integer makes the call raise.
escaped : deepseek_enrich_metadata loads (λ v. "") (response 200 "large") ≡ raises value_error
unfolding deepseek_enrich_metadata
escaped = refl

deepseek_enrich_metadata_lem_example :
    ((result : Option Enrichment) × (deepseek_enrich_metadata loads (λ v. "") (response 200 "info")
        ≡ value result))
    ⊎ ((deepseek_enrich_metadata loads (λ v. "") (response 200 "info") ≡ raises attribute_error)
        ⊎ ((deepseek_enrich_metadata loads (λ v. "") (response 200 "info") ≡ raises value_error)
            ⊎ (deepseek_enrich_metadata loads (λ v. "") (response 200 "info")
                ≡ raises recursion_error)))
deepseek_enrich_metadata_lem_example =
    deepseek_enrich_metadata_lem loads (λ v. "") (response 200 "info")

search_info_lem_example :
    IsOutcome "The.Matrix.1999"
      (deepseek_extract_search_info loads (response 200 "info") "The.Matrix.1999")
search_info_lem_example = search_info_lem loads (response 200 "info") "The.Matrix.1999"

search_info-unbound_example :
    deepseek_extract_search_info loads (response 200 "error") "The.Matrix.1999"
    ≡ raises unbound_local
unfolding filmoteka.DeepSeek.fetched filmoteka.DeepSeek.content_of
search_info-unbound_example =
    search_info-unbound loads (response 200 "error") "The.Matrix.1999"
      (object (field_then "error" (str "quota") done)) key_error refl refl

alias_text_lem_example :
    alias_text (chars "```\n\"A (1999)\"\n```")
    ≡ unquote (strip (strip_by (λ c. c == 96) (unquote (strip (chars "```\n\"A (1999)\"\n```")))))
alias_text_lem_example = alias_text_lem (chars "```\n\"A (1999)\"\n```")
