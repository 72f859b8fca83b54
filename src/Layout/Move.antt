-- ===== src/Layout/Move.antt =====
-- `layout_file` ends, and neither overwrites nor loses a file.
use filmoteka.Prelude.{
  suc, String, ◌≡◌, refl, Bool, true, false, not, ◌&&◌, ◌||◌, some, List, [], ◌∷◌, ◌++◌, arith,
  str_eq, eq_iff, keep, length, Bool-cases, inl, inr,
}
use filmoteka.Paths.{last_or, name}
use filmoteka.Paths.Suffixes.{stem, suffix, under}
use filmoteka.Models.Importing.{ImportCandidate, CandidateStatus}
use filmoteka.Importing.{str_mem}
use filmoteka.Layout.{
  Tree, present, target_dirs, numbered, unique_path, Fault, no_fault, mkdir_fails, move_fails, Laid,
  laid, missing_source, os_error, move_to_dest, layout_file,
}
use filmoteka.Layout.FreeName.{find_free-some, numbered_injective}

unique_path-free :
    (tree : Tree) (directory file_name : String)
    → (p : String) × (unique_path tree directory file_name ≡ some p) × (present tree p ≡ false)
unfolding unique_path
unique_path-free tree directory file_name =
    elim (Bool-cases (present tree (under directory file_name))) [
      | inr free ↦ (under directory file_name, rw (free) refl, free)
      | inl used ↦
          let taken = tree.files ++ tree.directories in
          let names = numbered directory (stem file_name) (suffix file_name) in
          let (j, le, found, free) =
            find_free-some names taken (suc (length taken)) 1
              (numbered_injective directory (stem file_name) (suffix file_name)) (omega arith) in
          (names j, rw (used) found, free)
    ]

mem-of_append :
    (p : String) (xs ys : List String) → str_mem p (xs ++ ys) ≡ false → str_mem p xs ≡ false
unfolding str_mem
mem-of_append p [] ys h = refl
mem-of_append p (x ∷ xs) ys h = ground (arith, mem-of_append p xs ys)

pub mem-keep :
    (p q : String) (xs : List String)
    → str_mem q (keep (λ f. not (str_eq f p)) xs) ≡ (str_mem q xs && not (str_eq p q))
unfolding str_mem keep
mem-keep p q [] = refl
mem-keep p q (x ∷ xs) = ground (arith, mem-keep p q xs, eq_iff x p, eq_iff x q, eq_iff p q)

-- What `layout_file` leaves, by the way it ends. After a move the candidate names a path at which nothing was, and the files are
-- the old ones but for the source, and that path. After an error the candidate keeps its path; without a source the files and
-- directories are the old ones, and after an OSError every file stays, and there may be another at one path at which nothing was.
pub data LaidOut (c : ImportCandidate) (tree : Tree) (r : Laid) (d : ImportCandidate) (after : Tree)
    : Type 0 where
  moved :
      r ≡ laid
      → d.status ≡ CandidateStatus.imported
      → present tree d.file_path ≡ false
      → ((p : String)
          → str_mem p after.files
            ≡ (str_eq d.file_path p || (str_mem p tree.files && not (str_eq c.file_path p))))
      → LaidOut c tree r d after
  no_source :
      r ≡ missing_source
      → d.status ≡ CandidateStatus.error
      → d.file_path ≡ c.file_path
      → after ≡ tree
      → LaidOut c tree r d after
  failed :
      (left : Bool) (dest : String)
      → r ≡ os_error
      → d.status ≡ CandidateStatus.error
      → d.file_path ≡ c.file_path
      → present tree dest ≡ false
      → ((p : String) → str_mem p after.files ≡ ((left && str_eq dest p) || str_mem p tree.files))
      → LaidOut c tree r d after

move_to_dest-LaidOut :
    (fault : Fault) (dirs : List String) (dest : String) (c : ImportCandidate) (tree : Tree)
    → present tree dest ≡ false
    → LaidOut c tree
        (move_to_dest fault dirs dest c tree).0
        (move_to_dest fault dirs dest c tree).1
        (move_to_dest fault dirs dest c tree).2
unfolding move_to_dest str_mem
move_to_dest-LaidOut no_fault dirs dest c tree free =
    moved refl refl free (λ p. ground (arith, mem-keep c.file_path p tree.files))
move_to_dest-LaidOut (mkdir_fails n) dirs dest c tree free =
    failed false dest refl refl refl free (λ p. refl)
move_to_dest-LaidOut (move_fails true) dirs dest c tree free =
    failed true dest refl refl refl free (λ p. ground arith)
move_to_dest-LaidOut (move_fails false) dirs dest c tree free =
    failed false dest refl refl refl free (λ p. refl)

-- `layout_file` always ends. If it moves the file, it moves it to a path at which nothing was, the candidate names that path and is
-- imported, and no other file appears or goes. If it raises, the candidate is in error at its old path and no file goes; without a
-- source nothing changes, and after an OSError one file may have appeared, at a path at which nothing was.
pub layout_file-LaidOut :
    (root : String) (fault : Fault) (c : ImportCandidate) (tree : Tree)
    → (r : Laid) × (d : ImportCandidate) × (after : Tree) × (layout_file root fault c tree
        ≡ some (r, d, after))
      × LaidOut c tree r d after
unfolding layout_file
layout_file-LaidOut root fault c tree = elim (Bool-cases (str_mem c.file_path tree.files)) [
  | inr gone ↦ (
    missing_source,
    record c { status = CandidateStatus.error },
    tree,
    rw (gone) refl,
    no_source refl refl refl refl,
  )
  | inl there ↦
      let dirs = target_dirs root c.file_path in
      let (dest, found, free) = unique_path-free tree (last_or "" dirs) (name c.file_path) in
      (_, _, _, rw (there, found) refl, move_to_dest-LaidOut fault dirs dest c tree free)
]
