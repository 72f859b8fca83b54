-- ===== src/Library/Editions.antt =====
-- Conflicts between editions, and the removal of media files: `admin_list_conflicts`,
-- `admin_resolve_conflict`, `admin_keep_edition`, `admin_delete_media` and `reset_alias` of
-- src/filmoteka/api/admin.py, each behind the check of the administrator's role.
use filmoteka.Prelude.{
  ℕ, String, Bool, false, not, ◌&&◌, Option, none, some, List, [], ◌∷◌, ◌==◌, if◌then◌else◌, length,
}
use filmoteka.Table.{Rows, get, put, delete, select}
use filmoteka.Models.{Db}
use filmoteka.Models.Catalog.{Film, MovieEdition, MediaFile}
use filmoteka.Http.{ok, raised, Handler}
use filmoteka.Library.{delete_media_rows}

-- `ConflictEditionItem` and `ConflictItem`: the rows that they are built from.
pub record ConflictEdition : Type 0 where
  pub edition_id : ℕ
  pub edition : MovieEdition
  pub media_files : Rows MediaFile

pub record ConflictItem : Type 0 where
  pub film_id : ℕ
  pub title : String
  pub year : Option ℕ
  pub editions : List ConflictEdition

-- The relationships `film.editions` and `edition.media_files`.
unfoldable pub editions_of : ℕ → Db → Rows MovieEdition
editions_of film_id db = select (λ _ e. e.film_id == film_id) db.editions

unfoldable pub media_of : ℕ → Db → Rows MediaFile
media_of edition_id db = select (λ _ m. m.edition_id == edition_id) db.media

-- An edition without media files is passed over.
unfoldable pub add_edition :
    Db → ℕ → MovieEdition → Rows MediaFile → List ConflictEdition → List ConflictEdition
add_edition db i e [] rest = rest
add_edition db i e (m ∷ ms) rest =
    record { edition_id = i; edition = e; media_files = m ∷ ms } ∷ rest

unfoldable pub conflict_editions : Db → Rows MovieEdition → List ConflictEdition
unfolding add_edition
conflict_editions db [] = []
conflict_editions db ((i, e) ∷ rest) =
    add_edition db i e (media_of i db) (conflict_editions db rest)

-- A film without such editions is passed over.
unfoldable pub add_film : ℕ → Film → List ConflictEdition → List ConflictItem → List ConflictItem
add_film k f [] rest = rest
add_film k f (e ∷ es) rest =
    record { film_id = k; title = f.title; year = f.year; editions = e ∷ es } ∷ rest

unfoldable pub conflict_items : Db → Rows Film → List ConflictItem
unfolding add_film
conflict_items db [] = []
conflict_items db ((k, f) ∷ rest) =
    if f.needs_review
    then add_film k f (conflict_editions db (editions_of k db)) (conflict_items db rest)
    else conflict_items db rest

unfoldable pub list_conflicts : Db → List ConflictItem
unfolding conflict_items
list_conflicts db = conflict_items db db.films.rows

unfoldable pub resolve_conflict : ℕ → Handler Unit
resolve_conflict film_id db = elim (get db.films film_id) [
  | none ↦ (raised 404 "Film not found", db)
  | some f ↦ (ok tt, record db { films = put film_id (record f { needs_review = false }) db.films })
]

-- The editions that the loop deletes: all of the film but the one to keep.
abbrev pub is_dropped : ℕ → ℕ → ℕ → MovieEdition → Bool
is_dropped film_id edition_id k e = (e.film_id == film_id) && not (k == edition_id)

-- The media files of those editions.
unfoldable pub is_dropped_media : Db → ℕ → ℕ → ℕ → MediaFile → Bool
is_dropped_media db film_id edition_id _ m = elim (get db.editions m.edition_id) [
  | none ↦ false
  | some e ↦ is_dropped film_id edition_id m.edition_id e
]

abbrev pub keys {ℓ} : {A : Type ℓ} → Rows A → List ℕ
keys [] = []
keys ((k, _) ∷ rest) = k ∷ keys rest

pub record KeepReport : Type 0 where
  pub deleted_media : ℕ
  pub deleted_editions : ℕ

-- `admin_keep_edition`. The watch events of a deleted media file go with it.
unfoldable pub keep_edition : ℕ → ℕ → Handler KeepReport
unfolding delete_media_rows
keep_edition film_id edition_id db = elim (get db.films film_id) [
  | none ↦ (raised 404 "Film not found", db)
  | some f ↦
      let dropped = select (is_dropped_media db film_id edition_id) db.media in
      let left = delete_media_rows (is_dropped_media db film_id edition_id) (keys dropped) db in
      (
        ok (record {
          deleted_media = length dropped;
          deleted_editions = length (select (is_dropped film_id edition_id) db.editions);
        }),
        record left {
          editions = delete (is_dropped film_id edition_id) db.editions;
          films = put film_id (record f { needs_review = false }) db.films;
        },
      )
]

unfoldable pub delete_media : ℕ → Handler Unit
unfolding delete_media_rows
delete_media media_id db = elim (get db.media media_id) [
  | none ↦ (raised 404 "MediaFile not found", db)
  | some m ↦ (ok tt, delete_media_rows (λ i _. i == media_id) (media_id ∷ []) db)
]

unfoldable pub reset_alias : ℕ → Handler Unit
reset_alias media_id db = elim (get db.media media_id) [
  | none ↦ (raised 404 "MediaFile not found", db)
  | some m ↦ (
    ok tt,
    record db {
      media = put media_id (record m { media_alias = none; alias_processed = false }) db.media;
    },
  )
]
