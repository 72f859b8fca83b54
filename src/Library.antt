-- ===== src/Library.antt =====
-- Upkeep of the media library: re-indexing, reconciliation, conflicts and deletions, of
-- src/filmoteka/api/admin.py. The file system is a parameter.
pub mod Moves
pub mod Reconciled
pub mod Editions
pub mod Conflicts
pub mod SamplePaths
mod Tests
use filmoteka.Prelude.{
  ℕ, suc, ◌+◌, String, Bool, true, false, not, ◌&&◌, ◌||◌, Option, none, some, List, [], ◌∷◌, ◌==◌,
  str_eq, if◌then◌else◌, mem_nat, length, any,
}
use filmoteka.Paths.{name, parts, last_two, join, relative_to}
use filmoteka.Table.{Rows, Table, get, put, delete, select}
use filmoteka.Models.{Db}
use filmoteka.Models.Catalog.{Film, MovieEdition, MediaFile}
use filmoteka.Models.Watching.{WatchEvent}
use filmoteka.Http.{ok, raised, Handler}

-- The disk: `is_file`, `is_dir`, and what `root.rglob(pattern)` lists.
pub record Disk : Type 0 where
  pub is_file : String → Bool
  pub is_dir : String → Bool
  pub rglob : String → String → List String

-- The loop over several matches: the first whose path below the root is the tail.
same_tail : String → String → List String → Option String
same_tail root tail [] = none
same_tail root tail (m ∷ rest) = elim (relative_to root m) [
  | none ↦ same_tail root tail rest
  | some r ↦ elim (str_eq r tail) [ true ↦ some m | false ↦ same_tail root tail rest ]
]

pick_match : String → String → List String → Option String
pick_match stored root [] = none
pick_match stored root (m ∷ []) = some m
pick_match stored root (m ∷ n ∷ rest) =
    same_tail root (join "/" (last_two (parts stored))) (m ∷ n ∷ rest)

-- `_reindex_resolve_path`, and `_resolve_media_path` of src/filmoteka/api/media.py
unfoldable pub resolve_path : Disk → String → String → Option String
unfolding pick_match same_tail
resolve_path disk stored root =
    if str_eq (name stored) "" || not (disk.is_dir root)
    then none
    else pick_match stored root (disk.rglob root (name stored))

-- What the loops over the media files decide on one of them.
pub data Verdict : Type 0 where
  present lost : Verdict
  moved : String → Verdict

unfoldable pub judge : Disk → String → MediaFile → Verdict
judge disk root m =
    if disk.is_file m.file_path
    then present
    else elim (resolve_path disk m.file_path root) [ none ↦ lost | some p ↦ moved p ]

-- The unique constraint on `file_path`: another row has the path.
pub taken : String → ℕ → Rows MediaFile → Bool
taken p k [] = false
taken p k ((i, m) ∷ rest) = (not (i == k) && str_eq m.file_path p) || taken p k rest

-- The UPDATE of one row; `none` is the `IntegrityError` of a path that is taken.
unfoldable pub move_to : ℕ → MediaFile → String → Table MediaFile → Option (Table MediaFile)
unfolding taken
move_to k m p t = if taken p k t.rows then none else some (put k (record m { file_path = p }) t)

-- The UPDATEs of the flush, in the order of the keys.
unfoldable pub move_all :
    Disk → String → Rows MediaFile → Table MediaFile → Option (Table MediaFile)
move_all disk root [] t = some t
move_all disk root ((i, m) ∷ rest) t = elim (judge disk root m) [
  | present ↦ move_all disk root rest t
  | lost ↦ move_all disk root rest t
  | moved p ↦ elim (move_to i m p t) [ none ↦ none | some t' ↦ move_all disk root rest t' ]
]

-- The keys of the media files whose file was not found, and how many files were found elsewhere.
unfoldable pub lost_ids : Disk → String → Rows MediaFile → List ℕ
lost_ids disk root [] = []
lost_ids disk root ((i, m) ∷ rest) = elim (judge disk root m) [
  | lost ↦ i ∷ lost_ids disk root rest
  | _ ↦ lost_ids disk root rest
]

unfoldable pub count_moved : Disk → String → Rows MediaFile → ℕ
count_moved disk root [] = 0
count_moved disk root ((i, m) ∷ rest) = elim (judge disk root m) [
  | moved p ↦ suc (count_moved disk root rest)
  | _ ↦ count_moved disk root rest
]

unfoldable pub count_present : Disk → String → Rows MediaFile → ℕ
count_present disk root [] = 0
count_present disk root ((i, m) ∷ rest) = elim (judge disk root m) [
  | present ↦ suc (count_present disk root rest)
  | _ ↦ count_present disk root rest
]

pub record ReindexReport : Type 0 where
  pub total : ℕ
  pub fixed : ℕ
  pub not_found : ℕ
  pub skipped : ℕ

-- `_run_reindex`; `none` is the exception of the commit, after which the transaction is rolled back.
unfoldable pub run_reindex : Disk → String → Db → Option (ReindexReport × Db)
unfolding move_all
run_reindex disk root db = elim (move_all disk root db.media.rows db.media) [
  | none ↦ none
  | some t ↦ some (
    record {
      total = length db.media.rows;
      fixed = count_moved disk root db.media.rows;
      not_found = length (lost_ids disk root db.media.rows);
      skipped = count_present disk root db.media.rows;
    },
    record db { media = t },
  )
]

-- A deletion of media files, with the ON DELETE CASCADE of their watch events.
unfoldable pub delete_media_rows : (ℕ → MediaFile → Bool) → List ℕ → Db → Db
delete_media_rows p ids db = record db {
  media = delete p db.media;
  events = delete (λ _ (e : WatchEvent). mem_nat e.media_file_id ids) db.events;
}

-- An edition that no media file belongs to.
unfoldable pub has_media : Rows MediaFile → ℕ → Bool
has_media [] k = false
has_media ((_, m) ∷ rest) k = (m.edition_id == k) || has_media rest k

unfoldable pub drop_empty_editions : Db → Db
drop_empty_editions db = record db {
  editions = delete (λ k _. not (has_media db.media.rows k)) db.editions;
}

unfoldable pub has_edition : Rows MovieEdition → ℕ → Bool
has_edition [] k = false
has_edition ((_, e) ∷ rest) k = (e.film_id == k) || has_edition rest k

flag_rows : Rows MovieEdition → Rows Film → Rows Film
flag_rows editions [] = []
flag_rows editions ((k, f) ∷ rest) =
    (k, if has_edition editions k then f else record f { needs_review = true })
    ∷ flag_rows editions rest

unfoldable pub flag_empty_films : Db → Db
unfolding flag_rows
flag_empty_films db = record db {
  films = record { next_id = db.films.next_id; rows = flag_rows db.editions.rows db.films.rows };
}

pub record ReconcileReport : Type 0 where
  pub total : ℕ
  pub reindexed : ℕ
  pub deleted_media : ℕ
  pub deleted_editions : ℕ
  pub flagged_films : ℕ

-- The three steps of `_run_reconcile` on the database, after the paths were moved.
unfoldable pub clean_up : List ℕ → Db → Db
clean_up ids db =
    flag_empty_films (drop_empty_editions (delete_media_rows (λ i _. mem_nat i ids) ids db))

-- `_run_reconcile`; `none` is the exception of a flush, after which the transaction is rolled back.
unfoldable pub run_reconcile : Disk → String → Db → Option (ReconcileReport × Db)
unfolding move_all clean_up
run_reconcile disk root db = elim (move_all disk root db.media.rows db.media) [
  | none ↦ none
  | some t ↦
      let ids = lost_ids disk root db.media.rows in
      let left = delete_media_rows (λ i _. mem_nat i ids) ids (record db { media = t }) in
      let trimmed = drop_empty_editions left in
      some (
        record {
          total = length db.media.rows;
          reindexed = count_moved disk root db.media.rows;
          deleted_media = length ids;
          deleted_editions =
              length (select (λ k _. not (has_media left.media.rows k)) left.editions);
          flagged_films =
              length (select (λ k _. not (has_edition trimmed.editions.rows k)) trimmed.films);
        },
        clean_up ids (record db { media = t }),
      )
]
