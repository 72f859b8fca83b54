-- ===== src/Streaming/Tests.antt =====
-- A file that has moved below the library's root.
use filmoteka.Prelude.{
  ℕ, String, ◌≡◌, refl, Bool, true, false, none, some, List, [], ◌∷◌, str_eq, eq_iff, if◌then◌else◌,
  arith, ◌∙◌,
}
use filmoteka.Table.{get, put}
use filmoteka.Models.{Db}
use filmoteka.Models.Sample.{sample_db, sample_media}
use filmoteka.Http.{ok}
use filmoteka.Library.{Disk, resolve_path}
use filmoteka.Streaming.{get_request, file_response, stream_media}
use filmoteka.Streaming.Again.{stream_media-again}

-- One path is a file, and the search finds it.
abbrev moved_disk : Disk
moved_disk = record {
  is_file = λ p. str_eq p "/lib/new/a.mkv";
  is_dir = λ p. true;
  rglob = λ root pattern. "/lib/new/a.mkv" ∷ [];
}

finds_files :
    (stored p : String)
    → resolve_path moved_disk stored "/lib" ≡ some p
    → moved_disk.is_file p ≡ true
unfolding resolve_path
finds_files stored p h = ground (arith, eq_iff p "/lib/new/a.mkv")

abbrev after_first : Db
after_first = record sample_db { media = put 1 (sample_media 1 "/lib/new/a.mkv") sample_db.media }

stream_media-again_example :
    stream_media moved_disk "/lib" get_request 1 after_first
    ≡ (ok (file_response "video/x-matroska" "/lib/new/a.mkv" "a.mkv"), after_first)
unfolding stream_media get put filmoteka.Paths.name filmoteka.Prelude.keep filmoteka.Library.move_to
    filmoteka.Catalog.lookup filmoteka.Paths.Suffixes.suffix filmoteka.Paths.concat
stream_media-again_example =
    stream_media-again moved_disk "/lib" get_request 1 sample_db after_first
      (file_response "video/x-matroska" "/lib/new/a.mkv" "a.mkv") finds_files refl
