-- ===== src/Enriching/Tests.antt =====
-- A film without a source and one that is named after its file.
use filmoteka.Prelude.{◌≡◌, refl, false, none, some, [], ◌∷◌, arith}
use filmoteka.Table.{get}
use filmoteka.Table.Laws.{IsTable}
use filmoteka.Models.{Db}
use filmoteka.Models.Sample.{sample_db, sample_film}
use filmoteka.Json.{value}
use filmoteka.Enriching.{Enrich, run_deepseek_enrich}
use filmoteka.Enriching.Untouched.{run_deepseek_enrich-Untouched}

abbrev enrich : Enrich
enrich title year =
    value (some (record { description = some "A film."; country = none; genres = []; actors = [] }))

abbrev db : Db
db = record sample_db {
  films = record {
    next_id = 3;
    rows =
        (1, record (sample_film "A") { metadata_source = none })
        ∷ (2, record (sample_film "B") { metadata_source = some "filename_parse" })
        ∷ [];
  };
}

films_IsTable : IsTable db.films
unfolding get
films_IsTable = ground arith

updated : (run_deepseek_enrich enrich (λ s. s) 9 [] false db).0.updated ≡ 1
unfolding run_deepseek_enrich filmoteka.Table.select
updated = refl

run_deepseek_enrich-Untouched_example :
    get (run_deepseek_enrich enrich (λ s. s) 9 [] false db).2.films 1
    ≡ some (record (sample_film "A") { metadata_source = none })
unfolding get
run_deepseek_enrich-Untouched_example =
    run_deepseek_enrich-Untouched enrich (λ s. s) 9 [] db 1
      (record (sample_film "A") { metadata_source = none }) films_IsTable refl refl
