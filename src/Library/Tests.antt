-- ===== src/Library/Tests.antt =====
-- Runs of the upkeep on a small library: one file has moved, another is gone.
use filmoteka.Prelude.{
  Option, ℕ, String, ◌≡◌, ◌≢◌, sym, ap, ◌∙◌, zero, suc, refl, true, false, some, none, List, [],
  ◌∷◌, arith, str_eq, if◌then◌else◌, keep, inl, inr,
}
use filmoteka.Table.{get_row, get, put, delete}
use filmoteka.Table.Laws.{IsTable}
use filmoteka.Models.{Db}
use filmoteka.Models.Catalog.{MovieEdition}
use filmoteka.Models.Sample.{sample_db, sample_film, sample_media, sample_edition}
use filmoteka.Http.{ok}
use filmoteka.Library.{Disk, ReindexReport, ReconcileReport, run_reindex, run_reconcile}
use filmoteka.Library.Reconciled.{reconciled, reconcile_media}
use filmoteka.Library.Editions.{KeepReport, keep_edition, resolve_conflict, list_conflicts}
use filmoteka.Library.Conflicts.{is_other, list_conflicts-resolve, keep_edition-foreign}

abbrev disk : Disk
disk = record {
  is_file = λ p. str_eq p "/lib/new/a.mkv";
  is_dir = λ p. true;
  rglob = λ root p. if str_eq p "a.mkv" then "/lib/new/a.mkv" ∷ [] else [];
}

abbrev moved_media : Db
moved_media = record sample_db {
  media = record {
    next_id = 3;
    rows = (1, sample_media 1 "/lib/new/a.mkv") ∷ (2, sample_media 2 "/lib/b.mkv") ∷ [];
  };
}

abbrev reindexed : ReindexReport
reindexed = record { total = 2; fixed = 1; not_found = 1; skipped = 0 }

run_reindex_run : run_reindex disk "/lib" sample_db ≡ some (reindexed, moved_media)
unfolding run_reindex filmoteka.Library.judge filmoteka.Library.resolve_path filmoteka.Paths.name
    keep filmoteka.Library.move_to filmoteka.Library.count_moved filmoteka.Library.lost_ids
    filmoteka.Library.count_present put
run_reindex_run = refl

abbrev reconciled_db : Db
reconciled_db = record sample_db {
  films = record {
    next_id = 3;
    rows = (1, sample_film "A") ∷ (2, record (sample_film "B") { needs_review = true }) ∷ [];
  };
  editions = record { next_id = 3; rows = (1, sample_edition 1) ∷ [] };
  media = record { next_id = 3; rows = (1, sample_media 1 "/lib/new/a.mkv") ∷ [] };
}

abbrev tidied : ReconcileReport
tidied = record {
  total = 2;
  reindexed = 1;
  deleted_media = 1;
  deleted_editions = 1;
  flagged_films = 1;
}

run_reconcile_run : run_reconcile disk "/lib" sample_db ≡ some (tidied, reconciled_db)
unfolding run_reconcile filmoteka.Library.judge filmoteka.Library.resolve_path filmoteka.Paths.name
    keep filmoteka.Library.move_to filmoteka.Library.count_moved filmoteka.Library.lost_ids
    filmoteka.Table.select filmoteka.Library.flag_empty_films filmoteka.Library.delete_media_rows
    filmoteka.Library.drop_empty_editions filmoteka.Library.has_media filmoteka.Library.has_edition
    delete put filmoteka.Prelude.mem_nat
run_reconcile_run = refl

sample_IsTable : IsTable sample_db.media
unfolding get_row
sample_IsTable = ground arith

sample_editions : IsTable sample_db.editions
unfolding get_row
sample_editions = ground arith

reconcile_media_example : get reconciled_db.media 2 ≡ reconciled disk "/lib" (get sample_db.media 2)
reconcile_media_example =
    reconcile_media disk "/lib" 2 sample_db reconciled_db tidied sample_IsTable run_reconcile_run

-- A film with two editions, marked for review.
abbrev doubled : Db
doubled = record sample_db {
  films = record {
    next_id = 2;
    rows = (1, record (sample_film "A") { needs_review = true }) ∷ (2, sample_film "B") ∷ [];
  };
  editions = record {
    next_id = 4;
    rows = (1, sample_edition 1) ∷ (2, sample_edition 2) ∷ (3, sample_edition 1) ∷ [];
  };
}

doubled_editions : IsTable doubled.editions
unfolding get_row
doubled_editions = ground arith

doubled_media : IsTable doubled.media
unfolding get_row
doubled_media = ground arith

list_conflicts-resolve_example :
    ((resolve_conflict 1 doubled).0 ≡ ok tt)
    × (list_conflicts (resolve_conflict 1 doubled).1 ≡ keep (is_other 1) (list_conflicts doubled))
unfolding get
list_conflicts-resolve_example =
    list_conflicts-resolve 1 (record (sample_film "A") { needs_review = true }) doubled refl

keep_edition-foreign_example :
    ((report : KeepReport) × ((keep_edition 1 2 doubled).0 ≡ ok report))
    × ¬ (
        (j : ℕ) × (e : MovieEdition) × (get (keep_edition 1 2 doubled).1.editions j ≡ some e)
        × (e.film_id ≡ 1))
unfolding get
keep_edition-foreign_example =
    keep_edition-foreign 1 2 (record (sample_film "A") { needs_review = true }) (sample_edition 2)
      doubled refl doubled_editions refl (λ e. ground arith)
