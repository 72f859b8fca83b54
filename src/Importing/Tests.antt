-- ===== src/Importing/Tests.antt =====
-- Runs of the scan of a small directory.
use filmoteka.Prelude.{ℕ, Option, String, ◌≡◌, refl, true, false, none, some, List, [], ◌∷◌}
use filmoteka.Table.{Table}
use filmoteka.Models.{Db}
use filmoteka.Models.Sample.{sample_db}
use filmoteka.Models.Importing.{ImportRun, RunStatus}
use filmoteka.Paths.Suffixes.{suffix, inner_suffixes}
use filmoteka.Importing.{
  Files, Config, new_candidate, scan_downloads, starts_with, MediaProbeResult,
}
use filmoteka.Importing.Rescan.{scan_downloads-again}

abbrev files : Files
files = record {
  is_dir = λ p. true;
  is_file = λ p. true;
  rglob = λ root. "/lib/b.MKV" ∷ "/lib/a.tr.mkv" ∷ "/lib/a.mkv" ∷ "/lib/transcoded/c.mkv" ∷ [];
  size = λ p. 1000;
}

abbrev config : Config
config = record { target_root = "/lib"; extensions = ".mkv" ∷ []; max_file_size_gb = 1 }

abbrev first_run : ImportRun
first_run = record {
  started_at = 1;
  finished_at = some 2;
  status = RunStatus.completed;
  file_count = 2;
}

abbrev scanned : Db
scanned = record sample_db {
  runs = record { next_id = 2; rows = (1, first_run) ∷ [] };
  candidates = record {
    next_id = 3;
    rows = (1, new_candidate files 1 "/lib/a.mkv") ∷ (2, new_candidate files 1 "/lib/b.MKV") ∷ [];
  };
}

suffix_run : suffix "/lib/a.tr.mkv" ≡ ".mkv"
unfolding suffix filmoteka.Paths.split filmoteka.Paths.name filmoteka.Prelude.keep
    filmoteka.Paths.concat
suffix_run = refl

inner_suffixes_run : inner_suffixes "/lib/.a.tr.mkv" ≡ "tr" ∷ []
unfolding inner_suffixes filmoteka.Paths.last_or filmoteka.Paths.split filmoteka.Paths.name
    filmoteka.Prelude.keep
inner_suffixes_run = refl

scan_downloads_run : scan_downloads files config 1 2 sample_db ≡ some ((1, first_run), scanned)
unfolding scan_downloads filmoteka.Prelude.keep filmoteka.Table.add filmoteka.Prelude.sort_by
    filmoteka.Text.Case.lower filmoteka.Paths.split filmoteka.Paths.name filmoteka.Paths.concat
    filmoteka.Paths.relative_parts
scan_downloads_run = refl

scan_downloads-again_example :
    (again : ℕ × ImportRun) × (last : Db) × (scan_downloads files config 3 4 scanned
      ≡ some (again, last))
    × (again.1.file_count ≡ 0)
    × (last.candidates ≡ scanned.candidates)
unfolding starts_with
scan_downloads-again_example =
    scan_downloads-again files config 1 2 3 4 (1, first_run) sample_db scanned
      (refl, (refl, (refl, (refl, tt)))) scan_downloads_run

abbrev broken : String → Option MediaProbeResult
broken p = none
