-- ===== src/Layout/Tests.antt =====
-- Runs of the layout of one file.
use filmoteka.Prelude.{String, ◌≡◌, refl, none, some, true, List, [], ◌∷◌}
use filmoteka.Models.Importing.{ImportCandidate, CandidateStatus}
use filmoteka.Importing.{Files, new_candidate}
use filmoteka.Layout.{Tree, Laid, laid, no_fault, layout_file}
use filmoteka.Layout.Move.{LaidOut, layout_file-LaidOut}

abbrev any_files : Files
any_files = record { is_dir = λ p. true; is_file = λ p. true; rglob = λ p. []; size = λ p. 7 }

abbrev candidate : ImportCandidate
candidate = new_candidate any_files 1 "/in/A.1999.mkv"

abbrev tree : Tree
tree = record {
  files =
      "/in/A.1999.mkv" ∷ "/lib/1999/A (1999)/A.1999.mkv" ∷ "/lib/1999/A (1999)/A.1999 (1).mkv" ∷ [];
  directories = "/lib/1999/A (1999)" ∷ [];
}

layout_file_run :
    layout_file "/lib" no_fault candidate tree
    ≡ some (
      laid,
      record candidate {
        file_path = "/lib/1999/A (1999)/A.1999 (2).mkv";
        status = CandidateStatus.imported;
      },
      record {
        files =
            "/lib/1999/A (1999)/A.1999 (2).mkv" ∷ "/lib/1999/A (1999)/A.1999.mkv"
            ∷ "/lib/1999/A (1999)/A.1999 (1).mkv" ∷ [];
        directories = "/lib/1999/A (1999)" ∷ "/lib/1999" ∷ "/lib/1999/A (1999)" ∷ [];
      },
    )
unfolding layout_file filmoteka.Importing.str_mem filmoteka.Paths.Suffixes.under
    filmoteka.Paths.concat filmoteka.Paths.last_or filmoteka.Text.show filmoteka.Text.Case.strip
    filmoteka.Paths.name filmoteka.Prelude.keep filmoteka.Paths.Suffixes.stem filmoteka.Paths.join
    filmoteka.FilenameParser.Markers.series_patterns
layout_file_run = refl

layout_file-LaidOut_example :
    (r : Laid) × (d : ImportCandidate) × (after : Tree) × (layout_file "/lib" no_fault candidate
        tree
      ≡ some (r, d, after))
    × LaidOut candidate tree r d after
layout_file-LaidOut_example = layout_file-LaidOut "/lib" no_fault candidate tree
