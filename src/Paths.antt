-- ===== src/Paths.antt =====
-- The parts of `pathlib` that the program uses, on the texts of POSIX paths.
pub mod Suffixes
use Prim.Native.Char.{Char, code}
use filmoteka.Prelude.{
  ℕ, String, ◌≡◌, refl, Bool, false, not, ◌&&◌, Option, none, some, List, [], ◌∷◌, str_eq, ◌==◌,
  if◌then◌else◌, keep,
}

-- `a + b`
unfoldable pub concat : String → String → String
concat String.[] t = t
concat (String.◌∷◌ c s) t = String.◌∷◌ c (concat s t)

-- A character in front of the first text of a list.
push : Char → List String → List String
push c [] = String.◌∷◌ c "" ∷ []
push c (s ∷ rest) = String.◌∷◌ c s ∷ rest

-- `s.split(sep)`, where the separator is one character, given by its code.
unfoldable pub split : ℕ → String → List String
unfolding push
split sep String.[] = "" ∷ []
split sep (String.◌∷◌ c s) =
    let rest = split sep s in if code c == sep then "" ∷ rest else push c rest

-- `sep.join(parts)`
unfoldable pub join : String → List String → String
unfolding concat
join sep [] = ""
join sep (s ∷ []) = s
join sep (s ∷ t ∷ rest) = concat s (concat sep (join sep (t ∷ rest)))

unfoldable pub last_or : String → List String → String
last_or d [] = d
last_or d (x ∷ xs) = last_or x xs

-- The components of a path: no empty ones, and no ".".
unfoldable pub components : String → List String
unfolding split
components p = keep (λ s. not (str_eq s "") && not (str_eq s ".")) (split b'/' p)

-- `Path(p).name`
unfoldable pub name : String → String
unfolding components last_or
name p = last_or "" (components p)

is_absolute : String → Bool
is_absolute String.[] = false
is_absolute (String.◌∷◌ c s) = code c == b'/'

-- `Path(p).parts`
unfoldable pub parts : String → List String
unfolding components is_absolute
parts p = if is_absolute p then "/" ∷ components p else components p

-- `xs[-2:]`
unfoldable pub last_two : List String → List String
last_two [] = []
last_two (x ∷ []) = x ∷ []
last_two (x ∷ y ∷ []) = x ∷ y ∷ []
last_two (x ∷ y ∷ z ∷ rest) = last_two (y ∷ z ∷ rest)

strip : List String → List String → Option (List String)
strip [] ys = some ys
strip (x ∷ xs) [] = none
strip (x ∷ xs) (y ∷ ys) = if str_eq x y then strip xs ys else none

-- `Path(p).relative_to(root).parts` of a path below the root.
unfoldable pub relative_parts : String → String → List String
unfolding parts strip
relative_parts root p = elim (strip (parts root) (parts p)) [ none ↦ [] | some rest ↦ rest ]

-- `str(Path(p).relative_to(root))`, where `none` is the `ValueError`.
unfoldable pub relative_to : String → String → Option String
unfolding parts strip join
relative_to root p = elim (strip (parts root) (parts p)) [
  | none ↦ none
  | some rest ↦ some (join "/" rest)
]

relative_to_example : relative_to "/lib" "/lib/Action/movie.mkv" ≡ some "Action/movie.mkv"
unfolding relative_to keep
relative_to_example = refl
