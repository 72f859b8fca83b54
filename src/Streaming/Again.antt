-- ===== src/Streaming/Again.antt =====
-- A second request for a file, in `stream_media` of src/filmoteka/api/media.py.
use mathlib.Core.Path.{subst}
use filmoteka.Prelude.{
  ℕ, String, ◌≡◌, refl, ap, ◌∙◌, true, Option, none, some, ==_iff, arith, Bool-cases, Option-cases,
  inl, inr,
}
use filmoteka.Table.{Table, get, put}
use filmoteka.Table.Laws.{get-put}
use filmoteka.Models.{Db}
use filmoteka.Models.Catalog.{MediaFile}
use filmoteka.Http.{Reply, ok, raised}
use filmoteka.Library.{Disk, resolve_path, move_to, taken}
use filmoteka.Streaming.{
  Method, head_request, get_request, Stream, respond, store_path, stream_media,
}

or_table : Option (Table MediaFile) → Table MediaFile → Table MediaFile
or_table none d = d
or_table (some t) d = t

-- The row after its path is stored.
get-move_to :
    (k : ℕ) (m : MediaFile) (p : String) (t after : Table MediaFile)
    → get t k ≡ some m
    → move_to k m p t ≡ some after
    → get after k ≡ some (record m { file_path = p })
unfolding move_to or_table
get-move_to k m p t after row h = elim (Bool-cases (taken p k t.rows)) [
  | inl used ↦ cc (rw (used, move_to) at h)
  | inr free ↦
      let same : some (put k (record m { file_path = p }) t) ≡ some after =
        rw (free, move_to) at h in
      let moved : put k (record m { file_path = p }) t ≡ after = ap (λ o. or_table o after) same in
      subst (λ x. get x k ≡ some (record m { file_path = p })) moved
        (ground (arith, row, get-put k k (record m { file_path = p }) t, ==_iff k k))
]

-- A request for a row whose file is at its place.
stream_media-present :
    (disk : Disk) (root : String) (method : Method) (k : ℕ) (db : Db) (m : MediaFile)
    → get db.media k ≡ some m
    → disk.is_file m.file_path ≡ true
    → stream_media disk root method k db ≡ (ok (respond method m m.file_path), db)
unfolding stream_media
stream_media-present disk root method k db m row here = rw (row, here, stream_media) refl

-- The reply does not depend on the path that the row had.
respond-moved :
    (method : Method) (m : MediaFile) (p : String)
    → respond method (record m { file_path = p }) p ≡ respond method m p
unfolding respond
respond-moved head_request m p = refl
respond-moved get_request m p = refl

stream_or : Stream → Reply Stream → Stream
stream_or d (ok s) = s
stream_or d (raised c e) = d

answer-eq :
    (a b : Stream) (x y : Db) → ◌≡◌ {A = Reply Stream × Db} (ok a, x) (ok b, y) → (a ≡ b) × (x ≡ y)
unfolding stream_or
answer-eq a b x y h = (ap (λ z. stream_or a z.0) h, ap (λ z. z.1) h)

-- What a request that is answered leaves: a row whose file is at its place, and the reply for it.
served :
    (disk : Disk) (root : String) (method : Method) (k : ℕ) (db after : Db) (s : Stream)
    → ((stored p : String) → resolve_path disk stored root ≡ some p → disk.is_file p ≡ true)
    → stream_media disk root method k db ≡ (ok s, after)
    → (m : MediaFile) × (get after.media k ≡ some m)
      × (disk.is_file m.file_path ≡ true)
      × (respond method m m.file_path ≡ s)
unfolding stream_media store_path
served disk root method k db after s files h = elim (Option-cases (get db.media k)) [
  | inl missing ↦ cc (rw (missing, stream_media) at h)
  | inr (m, row) ↦ elim (Bool-cases (disk.is_file m.file_path)) [
    | inl here ↦
        let (said, same) =
          answer-eq (respond method m m.file_path) s db after (rw (row, here, stream_media) at h) in
        (m, subst (λ d. get d.media k ≡ some m) same row, here, said)
    | inr moved ↦ elim (Option-cases (resolve_path disk m.file_path root)) [
      | inl lost ↦ cc (rw (row, moved, lost, stream_media) at h)
      | inr (p, found) ↦ elim (Option-cases (move_to k m p db.media)) [
        | inl used ↦ cc (rw (row, moved, found, used, stream_media, store_path) at h)
        | inr (media, stored) ↦
            let (said, same) =
              answer-eq (respond method m p) s (record db { media = media }) after
                (rw (row, moved, found, stored, stream_media, store_path) at h) in
            let new_row = get-move_to k m p db.media media row stored in
            (
              record m { file_path = p },
              subst (λ d. get d.media k ≡ some (record m { file_path = p })) same new_row,
              files m.file_path p found,
              respond-moved method m p ∙ said,
            )
      ]
    ]
  ]
]

-- If the search for a name finds files only, then a request that is answered is answered alike when it is repeated, and the second
-- time the database stays as the first one left it.
pub stream_media-again :
    (disk : Disk) (root : String) (method : Method) (k : ℕ) (db after : Db) (s : Stream)
    → ((stored p : String) → resolve_path disk stored root ≡ some p → disk.is_file p ≡ true)
    → stream_media disk root method k db ≡ (ok s, after)
    → stream_media disk root method k after ≡ (ok s, after)
stream_media-again disk root method k db after s files h =
    let (m, row, here, said) = served disk root method k db after s files h in
    stream_media-present disk root method k after m row here ∙ ap (λ x. (ok x, after)) said
