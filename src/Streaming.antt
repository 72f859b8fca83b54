-- ===== src/Streaming.antt =====
-- Playing a file: `stream_media` of src/filmoteka/api/media.py. The bytes and their ranges are left to the server.
pub mod Again
mod Tests
use filmoteka.Prelude.{
  ℕ, String, Bool, true, false, Option, none, some, List, [], ◌∷◌, str_eq, or_else, if◌then◌else◌,
}
use filmoteka.Text.Case.{lower}
use filmoteka.Paths.{name}
use filmoteka.Paths.Suffixes.{suffix}
use filmoteka.Table.{get, put}
use filmoteka.Models.{Db}
use filmoteka.Models.Catalog.{MediaFile}
use filmoteka.Http.{Reply, ok, raised, Handler}
use filmoteka.Catalog.{lookup}
use filmoteka.Library.{Disk, resolve_path, move_to}

abbrev mime_map : List (String × String)
mime_map =
    (".mp4", "video/mp4")
    ∷ (".webm", "video/webm")
    ∷ (".mkv", "video/x-matroska")
    ∷ (".avi", "video/x-msvideo")
    ∷ (".mov", "video/quicktime")
    ∷ (".m4v", "video/mp4")
    ∷ (".ogv", "video/ogg")
    ∷ (".ts", "video/mp2t")
    ∷ []

unfoldable pub mime_type : String → String
unfolding lower
mime_type extension = or_else (lookup (lower extension) mime_map) "application/octet-stream"

pub data Method : Type 0 where
  head_request get_request : Method

-- A reply without a body, or the file that is sent and the name that it is sent under.
pub data Stream : Type 0 where
  headers : String → Stream
  file_response : String → String → String → Stream  -- media_type, path, filename

-- `media.media_alias or path.name`
unfoldable pub display_name : Option String → String → String
display_name none path = name path
display_name (some s) path = if str_eq s "" then name path else s

unfoldable pub respond : Method → MediaFile → String → Stream
unfolding mime_type display_name
respond head_request m path = headers (mime_type (suffix path))
respond get_request m path =
    file_response (mime_type (suffix path)) path (display_name m.media_alias path)

-- A path that is found elsewhere is stored; the commit fails where another row has it.
unfoldable pub store_path : Method → ℕ → MediaFile → String → Handler Stream
unfolding respond
store_path method media_id m path db = elim (move_to media_id m path db.media) [
  | none ↦ (raised 500 "IntegrityError", db)
  | some media ↦ (ok (respond method m path), record db { media = media })
]

unfoldable pub stream_media : Disk → String → Method → ℕ → Handler Stream
unfolding store_path resolve_path
stream_media disk root method media_id db = elim (get db.media media_id) [
  | none ↦ (raised 404 "Media file not found", db)
  | some m ↦
      if disk.is_file m.file_path
      then (ok (respond method m m.file_path), db)
      else elim (resolve_path disk m.file_path root) [
        | none ↦ (raised 404 "Media file not found on disk", db)
        | some path ↦ store_path method media_id m path db
      ]
]
