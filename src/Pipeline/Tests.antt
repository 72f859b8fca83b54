-- ===== src/Pipeline/Tests.antt =====
-- Runs of the import of a small directory.
use filmoteka.Prelude.{
  ℕ, String, ◌≡◌, refl, sym, Bool, true, false, not, none, some, Option, List, [], ◌∷◌, take, arith,
  str_eq, if◌then◌else◌,
}
use filmoteka.Table.{Table, get, get_row}
use filmoteka.Models.{Db}
use filmoteka.Models.Sample.{sample_db}
use filmoteka.Json.{value, raises, unbound_local}
use filmoteka.Importing.{Files, Config, MediaProbeResult, new_candidate}
use filmoteka.Pipeline.{Services, hashed}
use filmoteka.Pipeline.Run.{ImportReport, run_import}
use filmoteka.Library.SamplePaths.{sample_UniquePaths}
use filmoteka.Pipeline.Media.{GoodMedia}
use filmoteka.Pipeline.Report.{Imported, run_import-Imported}

-- No keys are set; each file has its path as its content.
abbrev services : Services
services = record {
  deepseek_key = false;
  omdb_key = false;
  extract_search_info = λ s. raises unbound_local;
  search_poster = λ t y k. none;
  enrich_metadata = λ t y. value none;
  ilike = λ column pattern. str_eq column pattern;
  to_tsvector = λ s. s;
  content = hashed;
}

abbrev files : Files
files = record {
  is_dir = λ p. true;
  is_file = λ p. true;
  rglob = λ root. "/lib/a.mkv" ∷ "/lib/A.1999.1080p.mkv" ∷ [];
  size = λ p. 1000;
}

abbrev config : Config
config = record { target_root = "/lib"; extensions = ".mkv" ∷ []; max_file_size_gb = 1 }

-- Of the two files one is in the catalog already; the other is a second file of film A.
abbrev report : ImportReport
report = record {
  files_found = 2;
  files_probed = 0;
  files_indexed = 1;
  films_created = 1;
  duplicates_skipped = 0;
  errors = [];
}

abbrev after_of : Option (ImportReport × Db) → Db
after_of none = sample_db
after_of (some x) = x.1

import_of : Option (ImportReport × Db)
import_of = run_import services files config none 5 [] sample_db

import_run : import_of ≡ some (report, after_of import_of)
unfolding import_of run_import filmoteka.Importing.scan_downloads filmoteka.Table.select
    filmoteka.Prelude.keep filmoteka.Prelude.sort_by filmoteka.Text.Case.lower filmoteka.Paths.split
    filmoteka.Paths.name filmoteka.Paths.concat filmoteka.Paths.relative_parts filmoteka.Table.add
    filmoteka.Pipeline.find_media_by_path filmoteka.Pipeline.find_media_by_content
    filmoteka.Table.first filmoteka.Prelude.any filmoteka.Pipeline.find_or_create_edition get
    filmoteka.Pipeline.normalise filmoteka.Table.put filmoteka.Pipeline.update_fts_vector
    filmoteka.Paths.join filmoteka.Text.Case.words filmoteka.Pipeline.Bridge.add_poster
    filmoteka.Pipeline.Bridge.reset_metadata filmoteka.FilenameParser.Parse.parse_filename
    filmoteka.FilenameParser.Markers.series_patterns
import_run = refl

sample_media-GoodMedia : GoodMedia sample_db.media
unfolding get get_row
sample_media-GoodMedia = record {
  table = ground arith;
  paths = sample_UniquePaths;
  contents = λ i j a b h ga gb ha hb. ground arith;
}

run_import-Imported_example : Imported report sample_db (after_of import_of)
unfolding import_of
run_import-Imported_example =
    run_import-Imported services none 5 [] files config report sample_db (after_of import_of)
      sample_media-GoodMedia import_run
