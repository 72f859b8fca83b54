-- ===== src/Library/Conflicts.antt =====
-- Which films are in conflict, and what keeping one edition removes.
use mathlib.Core.Path.{subst}
use filmoteka.Prelude.{
  ℕ, ◌≡◌, ◌≢◌, ◌⊎◌, refl, ap, Bool, false, not, some, List, [], ◌∷◌, arith, ◌==◌, if◌then◌else◌,
  keep, length,
}
use filmoteka.Table.{Rows, Table, get, put, put_row, delete, select}
use filmoteka.Table.Laws.{IsTable, get-delete}
use filmoteka.Models.{Db}
use filmoteka.Models.Catalog.{Film, MovieEdition, MediaFile}
use filmoteka.Http.{ok}
use filmoteka.Library.{delete_media_rows}
use filmoteka.Library.Editions.{
  ConflictEdition, ConflictItem, editions_of, conflict_editions, add_film, conflict_items,
  list_conflicts, resolve_conflict, add_edition, media_of, is_dropped, is_dropped_media,
  keep_edition, KeepReport,
}

abbrev pub is_other : ℕ → ConflictItem → Bool
is_other k item = not (item.film_id == k)

keep-add_film :
    (k i : ℕ) (f : Film) (es : List ConflictEdition) (rest : List ConflictItem)
    → keep (is_other k) (add_film i f es rest)
      ≡ (if i == k then keep (is_other k) rest else add_film i f es (keep (is_other k) rest))
unfolding keep add_film
keep-add_film k i f [] rest = ground arith
keep-add_film k i f (e ∷ es) rest = ground arith

conflict_items-resolved :
    (k : ℕ) (f : Film) (db : Db) (r : Rows Film)
    → f.needs_review ≡ false
    → conflict_items db (put_row k f r) ≡ keep (is_other k) (conflict_items db r)
unfolding conflict_items put_row keep
conflict_items-resolved k f db [] h = refl
conflict_items-resolved k f db ((i, g) ∷ rest) h = ground (
  arith,
  conflict_items-resolved k f db rest h,
  keep-add_film k i g (conflict_editions db (editions_of i db)) (conflict_items db rest),
)

-- The list depends on the editions and on the media alone.
conflict_editions-films :
    (t : Table Film) (db : Db) (r : Rows MovieEdition)
    → conflict_editions (record db { films = t }) r ≡ conflict_editions db r
unfolding conflict_editions media_of
conflict_editions-films t db [] = refl
conflict_editions-films t db ((i, e) ∷ rest) =
    ap (add_edition db i e (media_of i db)) (conflict_editions-films t db rest)

conflict_items-films :
    (t : Table Film) (db : Db) (r : Rows Film)
    → conflict_items (record db { films = t }) r ≡ conflict_items db r
unfolding conflict_items editions_of
conflict_items-films t db [] = refl
conflict_items-films t db ((i, f) ∷ rest) =
    ground (arith, conflict_editions-films t db (editions_of i db), conflict_items-films t db rest)

-- Resolving a conflict of a film that exists takes the film off the list of conflicts, and leaves all else on the list as it is and
-- in its order.
pub list_conflicts-resolve :
    (k : ℕ) (f : Film) (db : Db)
    → get db.films k ≡ some f
    → ((resolve_conflict k db).0 ≡ ok tt)
      × (list_conflicts (resolve_conflict k db).1 ≡ keep (is_other k) (list_conflicts db))
unfolding resolve_conflict list_conflicts put
list_conflicts-resolve k f db found =
    let closed = record f { needs_review = false } in
    rw
      (
        found,
        resolve_conflict,
        conflict_items-films (put k closed db.films) db (put_row k closed db.films.rows),
        conflict_items-resolved k closed db db.films.rows refl,
      )
      (refl, refl)

keep_edition_effect :
    (k i : ℕ) (f : Film) (db : Db)
    → get db.films k ≡ some f
    → ((keep_edition k i db).1.editions ≡ delete (is_dropped k i) db.editions)
      × ((keep_edition k i db).1.media ≡ delete (is_dropped_media db k i) db.media)
unfolding keep_edition delete_media_rows
keep_edition_effect k i f db found = rw (found, keep_edition) (refl, refl)

keep_edition-ok :
    (k i : ℕ) (f : Film) (db : Db)
    → get db.films k ≡ some f
    → (report : KeepReport) × ((keep_edition k i db).0 ≡ ok report)
unfolding keep_edition
keep_edition-ok k i f db found = (
  record {
    deleted_media = length (select (is_dropped_media db k i) db.media);
    deleted_editions = length (select (is_dropped k i) db.editions);
  },
  rw (found, keep_edition) refl,
)

-- After one edition of a film is kept, an edition of that film is the kept one, and was in the table before.
pub keep_edition-only :
    (k i j : ℕ) (f : Film) (e : MovieEdition) (db : Db)
    → get db.films k ≡ some f
    → IsTable db.editions
    → get (keep_edition k i db).1.editions j ≡ some e
    → e.film_id ≡ k
    → (j ≡ i) × (get db.editions j ≡ some e)
keep_edition-only k i j f e db found tidy there own =
    let effect = keep_edition_effect k i f db found in
    let there2 : get (delete (is_dropped k i) db.editions) j ≡ some e = rw (effect.0) at there in
    grind (arith, get-delete j (is_dropped k i) db.editions tidy, there2)

-- An edition that is the kept one, or that belongs to another film, stays when one edition of a film is kept, and each of its media files
-- stays with it.
pub keep_edition-keeps :
    (k i m : ℕ) (f : Film) (e : MovieEdition) (a : MediaFile) (db : Db)
    → get db.films k ≡ some f
    → IsTable db.editions
    → IsTable db.media
    → get db.media m ≡ some a
    → get db.editions a.edition_id ≡ some e
    → (a.edition_id ≡ i) ⊎ (e.film_id ≢ k)
    → (get (keep_edition k i db).1.media m ≡ some a)
      × (get (keep_edition k i db).1.editions a.edition_id ≡ some e)
unfolding is_dropped_media
keep_edition-keeps k i m f e a db found tidy tidy_media file edition stays =
    let effect = keep_edition_effect k i f db found in
    rw (effect.0, effect.1)
      (
        rw (get-delete m (is_dropped_media db k i) db.media tidy_media, file)
            (rw (edition, is_dropped_media) (ground arith)),
        rw (get-delete a.edition_id (is_dropped k i) db.editions tidy, edition) (ground arith),
      )

-- In a table whose editions have unique keys, when the film exists and the edition to keep belongs to another film, the call still
-- replies with a report, and no edition of the named film is left.
pub keep_edition-foreign :
    (k i : ℕ) (f : Film) (other : MovieEdition) (db : Db)
    → get db.films k ≡ some f
    → IsTable db.editions
    → get db.editions i ≡ some other
    → other.film_id ≢ k
    → ((report : KeepReport) × ((keep_edition k i db).0 ≡ ok report))
      × ¬ (
          (j : ℕ) × (e : MovieEdition) × (get (keep_edition k i db).1.editions j ≡ some e)
          × (e.film_id ≡ k))
keep_edition-foreign k i f other db found tidy theirs foreign = (
  keep_edition-ok k i f db found,
  λ (j, e, there, own).
      let kept = keep_edition-only k i j f e db found tidy there own in
      let same : get db.editions i ≡ some e =
        subst (λ x. get db.editions x ≡ some e) (kept.0) (kept.1) in
      grind (arith, same, theirs, foreign, own),
)
