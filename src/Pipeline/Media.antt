-- ===== src/Pipeline/Media.antt =====
-- The media files that an import adds: each with a path, and where it was read a content, that no other has.
use mathlib.Core.Path.{subst}
use filmoteka.Prelude.{
  ℕ, String, ◌≡◌, ◌≢◌, ◌⊎◌, refl, sym, Bool, true, false, Option, none, some, arith, str_eq, eq_iff,
  eq_refl, opt_eq, Option-cases, inl, inr,
}
use filmoteka.Table.{Table, get, first, add}
use filmoteka.Table.Laws.{IsTable, add-IsTable, get-add, first-none}
use filmoteka.Models.{Db}
use filmoteka.Models.Catalog.{MediaFile}
use filmoteka.Models.Importing.{ImportCandidate}
use filmoteka.Library.Moves.{UniquePaths}
use filmoteka.Pipeline.{
  Services, Content, missing, unreadable, hashed, find_media_by_path, find_media_by_content,
}
use filmoteka.Pipeline.Bridge.{prepare, insert_media}
use filmoteka.Pipeline.Run.{Outcome, created, index_file, index_prepared, bridge_to_catalog}
use filmoteka.Pipeline.Effects.{prepare-SameFiles, update_fts_vector-SameFiles}

-- No two media files have one content.
abbrev pub UniqueContents : Table MediaFile → Type 0
UniqueContents t =
    (i j : ℕ) (a b : MediaFile) (h : String)
    → get t i ≡ some a
    → get t j ≡ some b
    → a.content_hash ≡ some h
    → b.content_hash ≡ some h
    → i ≡ j

abbrev has_path : String → ℕ → MediaFile → Bool
has_path p _ m = str_eq m.file_path p

abbrev has_content : String → ℕ → MediaFile → Bool
has_content h _ m = opt_eq str_eq m.content_hash (some h)

abbrev pub is_created : Outcome → Bool
is_created created = true
is_created _ = false

-- The content of a new media file is not among those of the table.
abbrev NewContent : Table MediaFile → Option String → Type 0
NewContent t none = Unit
NewContent t (some h) = first (has_content h) t ≡ none

-- What a call of `_bridge_to_catalog` does to the media files.
pub data Indexing (t : Table MediaFile) (o : Outcome) (u : Table MediaFile) : Type 0 where
  unchanged : is_created o ≡ false → u ≡ t → Indexing t o u
  inserted :
      (m : MediaFile)
      → is_created o ≡ true
      → first (has_path m.file_path) t ≡ none
      → NewContent t m.content_hash
      → u ≡ add m t
      → Indexing t o u

Content-cases : (x : Content) → (x ≡ missing) ⊎ (x ≡ unreadable) ⊎ ((h : String) × (x ≡ hashed h))
Content-cases missing = inl refl
Content-cases unreadable = inr (inl refl)
Content-cases (hashed h) = inr (inr (h, refl))

module _ (services : Services) (now : ℕ) where
  insert-media :
      (c : ImportCandidate) (keys : ℕ × ℕ) (hash : Option String) (db : Db)
      → (m : MediaFile) × (m.file_path ≡ c.file_path)
        × (m.content_hash ≡ hash)
        × ((insert_media services now c keys hash db).media ≡ add m db.media)
  unfolding insert_media
  insert-media c (film_id, edition_id) hash db =
      (_, refl, refl, (update_fts_vector-SameFiles services.to_tsvector film_id _).media)

  index_file-Indexing :
      (c : ImportCandidate) (keys : ℕ × ℕ) (db : Db)
      → Indexing db.media
          (index_file services now c (keys, db)).0
          (index_file services now c (keys, db)).1.media
  unfolding index_file find_media_by_path find_media_by_content
  index_file-Indexing c keys db = elim (Option-cases (first (has_path c.file_path) db.media)) [
    | inr (x, e) ↦ rw (e, index_file) (unchanged refl refl)
    | inl free ↦ elim (Content-cases (services.content c.file_path)) [
      | inl e ↦
          rw (free, e, index_file)
            (let (m, path, hash, is) = insert-media c keys none db in
              inserted m refl (rw path free) (rw hash tt) is)
      | inr (inl e) ↦ rw (free, e, index_file) (unchanged refl refl)
      | inr (inr (h, e)) ↦ elim (Option-cases (first (has_content h) db.media)) [
        | inr (x, dup) ↦ rw (free, e, dup, index_file) (unchanged refl refl)
        | inl fresh ↦
            rw (free, e, fresh, index_file)
              (let (m, path, hash, is) = insert-media c keys (some h) db in
                inserted m refl (rw path free) (rw hash fresh) is)
      ]
    ]
  ]

  index_prepared-Indexing :
      (c : ImportCandidate) (prepared : Option (ℕ × ℕ) × Db)
      → Indexing prepared.1.media
          (index_prepared services now c prepared).0
          (index_prepared services now c prepared).1.media
  index_prepared-Indexing c (none, db) = unchanged refl refl
  index_prepared-Indexing c (some keys, db) = index_file-Indexing c keys db

  pub bridge-Indexing :
      (c : ImportCandidate) (db : Db)
      → Indexing db.media
          (bridge_to_catalog services now c db).0
          (bridge_to_catalog services now c db).1.media
  unfolding bridge_to_catalog
  bridge-Indexing c db =
      let p = prepare services now c db in
      subst
        (λ t.
          Indexing t (index_prepared services now c p).0 (index_prepared services now c p).1.media)
        ((prepare-SameFiles services now c db).media) (index_prepared-Indexing c p)

pub record GoodMedia (t : Table MediaFile) : Type 0 where
  pub table : IsTable t
  pub paths : UniquePaths t
  pub contents : UniqueContents t

add-UniquePaths :
    (m : MediaFile) (t : Table MediaFile)
    → IsTable t
    → first (has_path m.file_path) t ≡ none
    → UniquePaths t
    → UniquePaths (add m t)
add-UniquePaths m t tidy free paths i j a b ga gb same = ground (
  arith,
  get-add i m t tidy,
  get-add j m t tidy,
  paths i j a b,
  first-none (has_path m.file_path) t i a free,
  first-none (has_path m.file_path) t j b free,
  eq_iff a.file_path m.file_path,
  eq_iff b.file_path m.file_path,
)

new_differs :
    (m a : MediaFile) (h : String) (i : ℕ) (t : Table MediaFile)
    → NewContent t m.content_hash
    → m.content_hash ≡ some h
    → get t i ≡ some a
    → a.content_hash ≢ some h
new_differs m a h i t free hm found ha =
    let new : first (has_content h) t ≡ none = subst (NewContent t) hm free in
    let differs = first-none (has_content h) t i a new found in
    let agrees : has_content h i a ≡ true = rw ha (eq_refl h) in cc (differs, agrees)

add-UniqueContents :
    (m : MediaFile) (t : Table MediaFile)
    → IsTable t
    → NewContent t m.content_hash
    → UniqueContents t
    → UniqueContents (add m t)
add-UniqueContents m t tidy free contents i j a b h ga gb ha hb = ground (
  arith,
  get-add i m t tidy,
  get-add j m t tidy,
  contents i j a b h,
  new_differs m a h i t free,
  new_differs m b h j t free,
)

pub Indexing-GoodMedia :
    {t u : Table MediaFile} {o : Outcome} → Indexing t o u → GoodMedia t → GoodMedia u
Indexing-GoodMedia (unchanged _ is) good = subst GoodMedia (sym is) good
Indexing-GoodMedia {t} (inserted m _ path content is) good = subst GoodMedia (sym is) (record {
  table = add-IsTable m t good.table;
  paths = add-UniquePaths m t good.table path good.paths;
  contents = add-UniqueContents m t good.table content good.contents;
})
