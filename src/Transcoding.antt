-- ===== src/Transcoding.antt =====
-- What the job that transcodes audio does to a file, and `_clean_orphan_ac3fix`: `_run_transcode_audio` of
-- src/filmoteka/api/admin.py. The files are a list of paths; the probe and ffmpeg are parameters; an entry of the report's errors
-- stands for the text about its file. A commit at which two rows have one path raises, and the job ends.
pub mod Job
pub mod Kept
pub mod Originals
mod Tests
use filmoteka.Prelude.{
  ℕ, suc, ◌+◌, String, Bool, true, false, not, ◌&&◌, ◌||◌, Option, none, some, List, [], ◌∷◌, ◌++◌,
  leb, ◌==◌, str_eq, or_else, if◌then◌else◌, length, map, keep, any,
}
use filmoteka.Text.Case.{lower}
use filmoteka.Paths.{name, concat}
use filmoteka.Paths.Suffixes.{stem, suffix, beside}
use filmoteka.Table.{Rows, put, select}
use filmoteka.Models.{Db}
use filmoteka.Models.Catalog.{MediaFile}
use filmoteka.Importing.{str_mem}
use filmoteka.Metadata.{is_substring}
use filmoteka.Pipeline.Run.{Stops}
use filmoteka.Library.{delete_media_rows}
use filmoteka.Aliases.{stops_now, later_stops}

-- The statuses "probing", "transcoding" and "optimizing" are only seen while the job is at the file.
pub data TranscodeStatus : Type 0 where
  queued probing transcoding optimizing completed skipped error : TranscodeStatus

pub record TranscodeFileStatus : Type 0 where
  pub media_id : ℕ
  pub file_name : String
  pub status : TranscodeStatus
  pub error : Option String

abbrev pub entry : TranscodeStatus → Option String → ℕ × MediaFile → TranscodeFileStatus
entry status message (k, m) = record {
  media_id = k;
  file_name = name m.file_path;
  status = status;
  error = message;
}

-- How a call of ffmpeg ends: with code 0; with another code and its message; at the time limit; or with an exception, that of the
-- rename of its result included. A call that fails may leave the file that it was writing.
pub data Encoding : Type 0 where
  encoded : Encoding
  failing : Bool → String → Encoding
  timed_out : Bool → Encoding
  broken : String → Encoding

-- `probe` gives the audio codec, which may be missing, or `none` for a MediaProbeError.
pub record Tools : Type 0 where
  pub probe : String → Option (Option String)
  pub to_aac : String → String → Encoding  -- source, target
  pub remux : String → String → Encoding

pub record World : Type 0 where
  pub files : List String
  pub db : Db

abbrev pub unlink : String → List String → List String
unlink p files = keep (λ f. not (str_eq f p)) files

abbrev pub wrote : String → List String → List String
wrote p files = if str_mem p files then files else p ∷ files

abbrev pub partly_wrote : Bool → String → List String → List String
partly_wrote left p files = if left then wrote p files else files

-- `LIKE '%.ac3fix%'`
abbrev pub is_orphan : ℕ → MediaFile → Bool
is_orphan k m = is_substring ".ac3fix" m.file_path

unfoldable pub unlink_rows : Rows MediaFile → List String → List String
unlink_rows [] files = files
unlink_rows ((_, m) ∷ rows) files = unlink_rows rows (unlink m.file_path files)

unfoldable pub keys : Rows MediaFile → List ℕ
keys [] = []
keys ((k, _) ∷ rows) = k ∷ keys rows

-- `_clean_orphan_ac3fix`
unfoldable pub clean_orphan_ac3fix : World → World
unfolding unlink_rows keys delete_media_rows is_substring
clean_orphan_ac3fix w =
    let orphans = select is_orphan w.db.media in
    record {
      files = unlink_rows orphans w.files;
      db = delete_media_rows is_orphan (keys orphans) w.db;
    }

-- The variables of the loop, with the entries of the files that it has passed.
pub record TranscodeRun : Type 0 where
  pub transcoded : ℕ
  pub web_optimized : ℕ
  pub skipped : ℕ
  pub errors : List ℕ
  pub consecutive_timeouts : ℕ
  pub progress : List TranscodeFileStatus
  pub world : World

-- The three paths beside a file.
unfoldable pub temp_path : String → String
unfolding beside stem suffix
temp_path p = beside p (concat "." (concat (stem p) (concat ".ac3fix" (suffix p))))

unfoldable pub tr_mkv : String → String
unfolding beside stem suffix
tr_mkv p = beside p (concat (stem p) (concat ".tr" (suffix p)))

unfoldable pub tr_mp4 : String → String
unfolding beside stem
tr_mp4 p = beside p (concat (stem p) ".tr.mp4")

-- `(probe.audio_codec or "").lower() in ("ac3", "eac3")`
unfoldable pub is_ac3 : Option String → Bool
unfolding lower
is_ac3 codec = str_eq (lower (or_else codec "")) "ac3" || str_eq (lower (or_else codec "")) "eac3"

abbrev pub is_taken : ℕ → String → Db → Bool
is_taken k p db = any (λ (i, m). not (i == k) && str_eq m.file_path p) db.media.rows

abbrev save : ℕ → MediaFile → Db → Db
save k m db = record db { media = put k m db.media }

-- What the loop does after a file: it goes on, it stops at too many timeouts, or a commit has raised.
pub data Step : Type 0 where
  passed gave_up : TranscodeRun → Step
  crashed : World → Step

abbrev skip : ℕ × MediaFile → TranscodeRun → TranscodeRun
skip x r = record r { skipped = suc r.skipped; progress = r.progress ++ entry skipped none x ∷ [] }

-- A file whose transcoding has failed; what was written is unlinked.
abbrev fail : String → ℕ × MediaFile → TranscodeRun → TranscodeRun
fail message (k, m) r = record r {
  errors = r.errors ++ k ∷ [];
  progress = r.progress ++ entry error (some message) (k, m) ∷ [];
  world = record r.world { files = unlink (temp_path m.file_path) r.world.files };
}

-- A file that is transcoded, but not remuxed.
abbrev stay_mkv : String → List String → ℕ × MediaFile → TranscodeRun → TranscodeRun
stay_mkv note files (k, m) r = record r {
  errors = r.errors ++ k ∷ [];
  progress = r.progress ++ entry completed (some note) (k, m) ∷ [];
  world = record r.world { files = files };
}

-- "Step 2: MKV→MP4 web-optimise"; the row of the file is that after step 1.
unfoldable pub web_optimise : Encoding → ℕ × MediaFile → MediaFile → TranscodeRun → Step
unfolding tr_mkv tr_mp4
web_optimise (failing left message) (k, m) row r = passed (
    stay_mkv "transcode ok, web-optimise failed"
      (partly_wrote left (tr_mp4 m.file_path) r.world.files) (k, m) r)
web_optimise (timed_out left) (k, m) row r = passed (
    stay_mkv "transcode ok, web-optimise timed out"
      (partly_wrote left (tr_mp4 m.file_path) r.world.files) (k, m) r)
web_optimise (broken message) (k, m) row r = passed (
    stay_mkv "transcode ok, web-optimise failed" (unlink (tr_mp4 m.file_path) r.world.files) (k, m)
      r)
web_optimise encoded (k, m) row r =
    let files = unlink (tr_mkv m.file_path) (wrote (tr_mp4 m.file_path) r.world.files) in
    if is_taken k (tr_mp4 m.file_path) r.world.db
    then crashed (record r.world { files = files })
    else passed (record r {
      web_optimized = suc r.web_optimized;
      progress = r.progress ++ entry completed none (k, m) ∷ [];
      world = record {
        files = files;
        db = save k (record row { file_path = tr_mp4 m.file_path }) r.world.db;
      };
    })

-- The transcoded file takes its place beside the original, and is remuxed.
unfoldable pub place_transcoded : Tools → ℕ × MediaFile → TranscodeRun → Step
unfolding web_optimise temp_path tr_mkv tr_mp4
place_transcoded tools (k, m) r =
    let target = tr_mkv m.file_path in
    let files = wrote target (unlink (temp_path m.file_path) r.world.files) in
    let row = record m { file_path = target; audio_codec = some "aac" } in
    let optimised =
      web_optimise (tools.remux target (tr_mp4 m.file_path)) (k, m) row
        (record r {
          transcoded = suc r.transcoded;
          consecutive_timeouts = 0;
          world = record { files = files; db = save k row r.world.db };
        }) in
    if is_taken k target r.world.db then crashed (record r.world { files = files }) else optimised

-- "Step 1: AC3→AAC", by the way that the call of ffmpeg ends.
unfoldable pub transcode : Tools → Encoding → ℕ × MediaFile → TranscodeRun → Step
unfolding place_transcoded temp_path
transcode tools encoded x r = place_transcoded tools x r
transcode tools (failing left message) x r =
    passed (fail (if str_eq message "" then "(no stderr)" else message) x r)
transcode tools (broken message) x r = passed (fail message x r)
transcode tools (timed_out left) x r =
    let failed = fail "ffmpeg timed out" x r in
    let counted = record failed { consecutive_timeouts = suc r.consecutive_timeouts } in
    if leb 3 counted.consecutive_timeouts then gave_up counted else passed counted

-- The body of the loop.
unfoldable pub transcode_file : Tools → ℕ × MediaFile → TranscodeRun → Step
unfolding transcode is_ac3 temp_path
transcode_file tools (k, m) r =
    let path = m.file_path in
    if not (str_mem path r.world.files) then passed (skip (k, m) r) else elim (tools.probe path) [
      | none ↦ passed (skip (k, m) r)
      | some codec ↦
          if not (is_ac3 codec)
          then passed (skip (k, m) r)
          else transcode tools (tools.to_aac path (temp_path path)) (k, m) r
    ]
