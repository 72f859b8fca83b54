-- ===== src/Importing.antt =====
-- The scan of the library's directory: src/filmoteka/domain/importing/scan.py. The files and the probe are
-- parameters.
pub mod Rescan
pub mod Probing
pub mod Ffprobe
mod Tests
use Prim.Native.Char.{code}
use Prim.Native.Nat.{lt, eq, gt}
use Prim.Native.String.{compare}
use Prim.Native.String
use filmoteka.Prelude.{
  ℕ, ◌*◌, ◌^◌, String, Bool, true, false, not, ◌&&◌, ◌||◌, Option, none, some, List, [], ◌∷◌, ℤ,
  leb, ◌==◌, str_eq, if◌then◌else◌, keep, any, map, sort_by, length,
}
use filmoteka.Text.Case.{lower}
use filmoteka.Paths.Suffixes.{suffix, inner_suffixes}
use filmoteka.Paths.{concat, split, last_or, name, parts, relative_parts}
use filmoteka.Table.{Rows, Table, add, put, get}
use filmoteka.Models.{Db}
use filmoteka.Models.Importing.{
  ImportRun, RunStatus, ImportCandidate, CandidateStatus, is_error, is_pending,
}
use filmoteka.Http.{Reply, ok, raised}

-- The directory: `is_dir`, `is_file`, what `root.rglob("*")` lists, and `stat().st_size`.
pub record Files : Type 0 where
  pub is_dir : String → Bool
  pub is_file : String → Bool
  pub rglob : String → List String
  pub size : String → ℕ

-- The settings of `LibraryConfig` that the scan reads.
pub record Config : Type 0 where
  pub target_root : String
  pub extensions : List String
  pub max_file_size_gb : ℕ

unfoldable pub str_mem : String → List String → Bool
str_mem s [] = false
str_mem s (x ∷ xs) = str_eq x s || str_mem s xs

-- The order of `Path`: by the parts, from the first one on.
unfoldable pub parts_le : List String → List String → Bool
parts_le [] q = true
parts_le (x ∷ p) [] = false
parts_le (x ∷ p) (y ∷ q) =
    let rest = parts_le p q in elim (compare x y) [ lt ↦ true | eq ↦ rest | gt ↦ false ]

unfoldable pub is_importable : Files → Config → String → Bool
unfolding suffix inner_suffixes str_mem
is_importable files config p =
    files.is_file p
    && str_mem (lower (suffix p)) (map lower config.extensions)
    && not (str_mem "transcoded" (relative_parts config.target_root p))
    && not (str_mem "tr" (inner_suffixes p))
    && not (str_mem "ac3fix" (inner_suffixes p))

unfoldable pub collect_files : Files → Config → List String
unfolding is_importable parts_le
collect_files files config =
    sort_by (λ p q. parts_le (parts p) (parts q))
      (keep (is_importable files config) (files.rglob config.target_root))

-- `s.startswith(prefix)`
unfoldable pub starts_with : String → String → Bool
starts_with String.[] s = true
starts_with (String.◌∷◌ c p) String.[] = false
starts_with (String.◌∷◌ c p) (String.◌∷◌ d s) =
    let rest = starts_with p s in if code c == code d then rest else false

-- `_existing_candidate_paths`, with the candidates in error left out.
unfoldable pub existing_candidate_paths : String → Rows ImportCandidate → List String
unfolding starts_with
existing_candidate_paths root [] = []
existing_candidate_paths root ((_, c) ∷ rest) =
    let others = existing_candidate_paths root rest in
    if starts_with root c.file_path && not (is_error c.status) then c.file_path ∷ others else others

abbrev pub new_candidate : Files → ℕ → String → ImportCandidate
new_candidate files run_id p = record {
  import_run_id = run_id;
  file_path = p;
  size = files.size p;
  status = CandidateStatus.pending;
  probed_at = none;
  duration_secs = none;
  width = none;
  height = none;
  codec = none;
  audio_codec = none;
  audio_count = none;
  subtitle_count = none;
}

unfoldable pub add_all : List ImportCandidate → Table ImportCandidate → Table ImportCandidate
add_all [] t = t
add_all (c ∷ cs) t = add_all cs (add c t)

-- The files that a scan makes candidates of.
unfoldable pub fresh_files : Files → Config → Db → List String
unfolding collect_files existing_candidate_paths
fresh_files files config db =
    let existing = existing_candidate_paths config.target_root db.candidates.rows in
    let new_files = keep (λ f. not (str_mem f existing)) (collect_files files config) in
    keep (λ f. leb (files.size f) (config.max_file_size_gb * 1024 ^ 3)) new_files

-- `scan_downloads`; the reply is the run. `none` is the `NotADirectoryError`.
unfoldable pub scan_downloads : Files → Config → ℕ → ℕ → Db → Option ((ℕ × ImportRun) × Db)
unfolding fresh_files add_all
scan_downloads files config now later db =
    if not (files.is_dir config.target_root)
    then none
    else let run_id = db.runs.next_id in
      let fresh = fresh_files files config db in
      let run : ImportRun = record {
        started_at = now;
        finished_at = some later;
        status = RunStatus.completed;
        file_count = length fresh;
      } in
      some (
        (run_id, run),
        record db {
          runs = add run db.runs;
          candidates = add_all (map (new_candidate files run_id) fresh) db.candidates;
        },
      )

-- `MediaProbeResult`
pub record MediaProbeResult : Type 0 where
  pub duration_secs : Option ℤ
  pub width : Option ℕ
  pub height : Option ℕ
  pub codec : Option String
  pub audio_codec : Option String
  pub audio_count : ℕ
  pub subtitle_count : ℕ

-- The body of the loop of `probe_candidates`; `none` of the probe is a `MediaProbeError`.
unfoldable pub probe_candidate :
    (String → Option MediaProbeResult) → ℕ → ImportCandidate → ImportCandidate
probe_candidate probe now c = if not (is_pending c.status) then c else elim (probe c.file_path) [
  | none ↦ record c { status = CandidateStatus.error }
  | some r ↦ record c {
    probed_at = some now;
    duration_secs = r.duration_secs;
    width = r.width;
    height = r.height;
    codec = r.codec;
    audio_codec = r.audio_codec;
    audio_count = some r.audio_count;
    subtitle_count = some r.subtitle_count;
    status = CandidateStatus.probed;
  }
]

-- `probe_candidates`, on the candidates that it is given. Every candidate of a call gets one time.
unfoldable pub probe_candidates :
    (String → Option MediaProbeResult) → ℕ → List ImportCandidate → List ImportCandidate
unfolding probe_candidate
probe_candidates probe now [] = []
probe_candidates probe now (c ∷ cs) = probe_candidate probe now c ∷ probe_candidates probe now cs
