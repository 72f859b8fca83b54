-- ===== src/FilenameParser.antt =====
-- What a file name says: src/filmoteka/infrastructure/filename_parser.py.
pub mod Markers
pub mod Parse
pub mod Removal
pub mod Years
pub mod Titles
mod Tests
use Prim.Native.Char.{Char, code}
use filmoteka.Prelude.{
  ℕ, zero, suc, ◌+◌, ◌-◌, ◌*◌, String, Bool, true, false, not, ◌&&◌, ◌||◌, Option, none, some, List,
  [], ◌∷◌, ◌++◌, if◌then◌else◌, length, ◌==◌,
}
use filmoteka.Text.Strip.{strip}
use filmoteka.Text.Regex.{
  Chars, Test, Regex, one, many, at_start, at_end, Match, match_text, cut, search, sub, plus,
  is_digit, is_space, is_latin, is_russian, is_separator, ◌⨟◌,
}

pub record ParsedFilename : Type 0 where
  pub title : String
  pub year : Option ℕ
  pub quality : Option String
  pub language : Option String
  pub edition_type : Option String
  pub series_title : Option String
  pub season_number : Option ℕ
  pub episode_number : Option ℕ
  pub episode_title : Option String

-- `int(s)` for digits
abbrev pub number_from : ℕ → Chars → ℕ
number_from n [] = n
number_from n (c ∷ s) = number_from (n * 10 + (code c - b'0')) s

-- `[^a-zA-Zа-яёА-ЯЁ0-9]`
abbrev pub is_cruft : Test
is_cruft c = not (is_latin c || is_russian c || is_digit c)

-- `_clean_title`
unfoldable pub clean_title : Chars → Chars
unfolding sub strip
clean_title raw =
    let spaced = strip (sub (plus is_separator) (" " ∷ []) raw) in
    strip (sub (plus is_cruft ⨟ at_end) [] (sub (at_start ⨟ plus is_cruft) [] spaced))

-- The first value stays.
abbrev pub first_of : Option Chars → Chars → Option Chars
first_of none s = some s
first_of (some found) s = some found

-- The inner loop of `_extract_markers`. A match is not empty, so that the fuel of one more than the length is enough.
unfoldable pub remove_all : ℕ → Regex → Chars → Option Chars → Chars × Option Chars
unfolding search match_text
remove_all zero r s found = (s, found)
remove_all (suc fuel) r s found = elim (search r s) [
  | none ↦ (s, found)
  | some m ↦ remove_all fuel r (cut m) (first_of found (match_text m))
]

-- The loop over the patterns.
unfoldable pub extract_from : List Regex → Chars → Option Chars → Chars × Option Chars
unfolding remove_all
extract_from [] s found = (s, found)
extract_from (r ∷ rs) s found =
    let removed = remove_all (suc (length s)) r s found in extract_from rs removed.0 removed.1

unfoldable pub extract_markers : Chars → List Regex → Chars × Option Chars
unfolding extract_from
extract_markers s patterns = extract_from patterns s none
