-- ===== src/Paths/Suffixes.antt =====
-- `suffix`, `suffixes`, `stem`, `parent` and `with_name` of pathlib, on the texts of POSIX paths.
use filmoteka.Prelude.{String, ◌||◌, List, [], ◌∷◌, ◌++◌, ◌≡◌, refl, str_eq, if◌then◌else◌, keep}
use filmoteka.Paths.{concat, join, split, last_or, name, components}

-- `p.suffix`: the text from the last dot on, where something stands before and behind it.
suffix_of : List String → String
suffix_of [] = ""
suffix_of (s ∷ []) = ""
suffix_of (s ∷ t ∷ []) = if str_eq s "" || str_eq t "" then "" else concat "." t
suffix_of (s ∷ t ∷ u ∷ rest) =
    if str_eq (last_or "" (u ∷ rest)) "" then "" else concat "." (last_or "" (u ∷ rest))

unfoldable pub suffix : String → String
unfolding suffix_of
suffix p = suffix_of (split b'.' (name p))

-- The leading empty pieces of a name that begins with dots.
drop_empty : List String → List String
drop_empty [] = []
drop_empty (s ∷ rest) = let others = drop_empty rest in if str_eq s "" then others else s ∷ rest

unfoldable pub all_but_last : List String → List String
all_but_last [] = []
all_but_last (s ∷ []) = []
all_but_last (s ∷ t ∷ rest) = s ∷ all_but_last (t ∷ rest)

tail : List String → List String
tail [] = []
tail (s ∷ rest) = rest

-- `p.suffixes[:-1]`, without the dots. A name that ends in a dot has no suffixes.
unfoldable pub inner_suffixes : String → List String
unfolding drop_empty all_but_last tail
inner_suffixes p =
    let pieces = split b'.' (name p) in
    if str_eq (last_or "" pieces) "" then [] else all_but_last (tail (drop_empty pieces))

-- `p.stem`
unfoldable pub stem : String → String
unfolding suffix all_but_last
stem p = if str_eq (suffix p) "" then name p else join "." (all_but_last (split b'.' (name p)))

-- `root / name`, where the name has no slash in front.
unfoldable pub under : String → String → String
under root p = concat root (concat "/" p)

-- `p.parent / name`
unfoldable pub beside : String → String → String
unfolding all_but_last
beside p n = join "/" (all_but_last (split b'/' p) ++ n ∷ [])

stem_run : stem "/lib/a.tr.mkv" ≡ "a.tr"
unfolding stem name split keep join components concat
stem_run = refl
