-- ===== src/Layout.antt =====
-- Moving a file into the library: src/filmoteka/domain/importing/layout.py. The files and the directories are two lists of
-- paths; whether the directories are made and the file is moved is a parameter.
pub mod FreeName
pub mod Move
mod Tests
use Prim.Native.Char.{Char, code}
use filmoteka.Prelude.{
  ℕ, zero, suc, ◌+◌, String, Bool, true, false, not, ◌&&◌, ◌||◌, Option, none, some, List, [], ◌∷◌,
  ◌++◌, leb, ltb, ◌==◌, str_eq, if◌then◌else◌, keep, any, length, take,
}
use filmoteka.Text.{show}
use filmoteka.Text.Case.{strip}
use filmoteka.Paths.{concat, name, last_or}
use filmoteka.Paths.Suffixes.{suffix, stem, under}
use filmoteka.Models.Importing.{ImportCandidate, CandidateStatus}
use filmoteka.FilenameParser.Parse.{parse_filename}
use filmoteka.Importing.{str_mem}

pub record Tree : Type 0 where
  pub files : List String
  pub directories : List String

-- `Path.exists`
abbrev pub present : Tree → String → Bool
present tree p = str_mem p (tree.files ++ tree.directories)

in_text : ℕ → String → Bool
in_text c String.[] = false
in_text c (String.◌∷◌ d s) = (code d == c) || in_text c s

-- `c.isprintable()`, where every character outside ASCII counts as printable.
printable : Char → Bool
printable c = leb 32 (code c) && not (code c == 127)

clean : String → String
unfolding in_text printable
clean String.[] = ""
clean (String.◌∷◌ c s) =
    let rest = clean s in
    if printable c && not (in_text (code c) "<>:\"/\\|?*") then String.◌∷◌ c rest else rest

unfoldable pub sanitise : String → String
unfolding clean
sanitise name = strip (clean name)

-- The directories that `mkdir(parents=True)` makes, the target last.
unfoldable pub target_dirs : String → String → List String
unfolding sanitise parse_filename
target_dirs root path =
    let parsed = parse_filename path in
    let title = sanitise (if str_eq parsed.title "" then "unknown" else parsed.title) in
    let unknown = under root "unknown" in
    elim parsed.year [
      | none ↦ unknown ∷ under unknown title ∷ []
      | some year ↦
          if year == 0
          then unknown ∷ under unknown title ∷ []
          else (under root (show year)
              ∷ under (under root (show year)) (concat title (concat " (" (concat (show year) ")")))
              ∷ [])
    ]

-- `f"{stem} ({counter}){suffix}"` in the directory
unfoldable pub numbered : String → String → String → ℕ → String
numbered parent stem suffix counter =
    under parent (concat stem (concat " (" (concat (show counter) (concat ")" suffix))))

-- The loop of `_unique_path`; `none` means that the fuel ran out.
unfoldable pub find_free : (ℕ → String) → List String → ℕ → ℕ → Option String
find_free names taken zero counter = none
find_free names taken (suc fuel) counter =
    let rest = find_free names taken fuel (counter + 1) in
    if str_mem (names counter) taken then rest else some (names counter)

-- `_unique_path` of a name in a directory. The fuel is one more than the number of paths.
unfoldable pub unique_path : Tree → String → String → Option String
unfolding find_free numbered
unique_path tree directory file_name =
    if present tree (under directory file_name)
    then find_free (numbered directory (stem file_name) (suffix file_name))
        (tree.files ++ tree.directories) (suc (length (tree.files ++ tree.directories))) 1
    else some (under directory file_name)

-- What goes wrong between the choice of the path and the end of the move, if anything: an OSError. `mkdir` has made some of the
-- directories by then. `shutil.move` to another file system copies the file and then unlinks the source, so that a move that fails
-- may leave a file, complete or not, at the destination; the source stays.
pub data Fault : Type 0 where
  no_fault : Fault
  mkdir_fails : ℕ → Fault
  move_fails : Bool → Fault

-- `layout_file` returns, or raises LayoutError.
pub data Laid : Type 0 where
  laid missing_source os_error : Laid

-- `shutil.move`
abbrev move : String → String → List String → List String
move source dest files = dest ∷ keep (λ f. not (str_eq f source)) files

abbrev left_at : Bool → String → List String → List String
left_at true dest files = dest ∷ files
left_at false dest files = files

abbrev made : List String → Tree → Tree
made dirs tree = record tree { directories = tree.directories ++ dirs }

abbrev in_error : ImportCandidate → ImportCandidate
in_error c = record c { status = CandidateStatus.error }

-- The move to a path that was chosen.
unfoldable pub move_to_dest :
    Fault → List String → String → ImportCandidate → Tree → Laid × ImportCandidate × Tree
move_to_dest no_fault dirs dest c tree = (
  laid,
  record c { file_path = dest; status = CandidateStatus.imported },
  record (made dirs tree) { files = move c.file_path dest tree.files },
)
move_to_dest (mkdir_fails n) dirs dest c tree = (os_error, in_error c, made (take n dirs) tree)
move_to_dest (move_fails left) dirs dest c tree =
    (os_error, in_error c, record (made dirs tree) { files = left_at left dest tree.files })

-- `layout_file`; `none` means that the fuel of `_unique_path` ran out.
unfoldable pub layout_file :
    String → Fault → ImportCandidate → Tree → Option (Laid × ImportCandidate × Tree)
unfolding target_dirs unique_path move_to_dest
layout_file root fault c tree =
    if not (str_mem c.file_path tree.files)
    then some (missing_source, in_error c, tree)
    else let dirs = target_dirs root c.file_path in
      elim (unique_path tree (last_or "" dirs) (name c.file_path)) [
        | none ↦ none
        | some dest ↦ some (move_to_dest fault dirs dest c tree)
      ]
