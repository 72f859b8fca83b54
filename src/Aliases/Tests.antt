-- ===== src/Aliases/Tests.antt =====
-- Aliases for two files, of which one has none yet.
use filmoteka.Prelude.{
  ℕ, ◌+◌, ◌≡◌, refl, Bool, true, false, none, some, List, [], ◌∷◌, String, str_eq, if◌then◌else◌,
  length, arith,
}
use filmoteka.Paths.Suffixes.{stem}
use filmoteka.Table.{get}
use filmoteka.Table.Laws.{IsTable}
use filmoteka.Models.Sample.{sample_db, sample_media}
use filmoteka.Aliases.{Generated, alias, nothing, run_alias_generate}
use filmoteka.Aliases.Outcome.{run_alias_generate_outcome}

-- A model that names the first film only.
abbrev model : String → Generated
model s = if str_eq s "a" then alias "Film A" else nothing

media_IsTable : IsTable sample_db.media
unfolding get
media_IsTable = ground arith

run_alias_generate_outcome_example :
    get (run_alias_generate model [] false sample_db).2.media 1
    ≡ some (record (sample_media 1 "/lib/a.mkv") {
      media_alias = some "Film A";
      alias_processed = true;
    })
unfolding get stem filmoteka.Paths.split filmoteka.Paths.name filmoteka.Prelude.keep
    filmoteka.Paths.concat filmoteka.Paths.join
run_alias_generate_outcome_example =
    run_alias_generate_outcome model false sample_db 1 media_IsTable
