-- ===== src/Text/Case.antt =====
-- Python's `s.lower()` and `s.strip()`, on the letters and the blanks of ASCII; other characters are left
-- as they are.
use Prim.Native.Char.{Char, code}
use filmoteka.Prelude.{
  ℕ, zero, suc, ◌-◌, String, List, [], ◌∷◌, keep, not, ◌≡◌, refl, Bool, ◌&&◌, ◌||◌, leb, ◌==◌,
  str_eq, if◌then◌else◌,
}

nth_char : ℕ → String → Char → Char
nth_char n String.[] d = d
nth_char zero (String.◌∷◌ c s) d = c
nth_char (suc n) (String.◌∷◌ c s) d = nth_char n s d

lower_char : Char → Char
unfolding nth_char
lower_char c =
    if leb 65 (code c) && leb (code c) 90
    then nth_char (code c - 65) "abcdefghijklmnopqrstuvwxyz" c
    else c

unfoldable pub lower : String → String
unfolding lower_char
lower String.[] = ""
lower (String.◌∷◌ c s) = String.◌∷◌ (lower_char c) (lower s)

is_blank : Char → Bool
is_blank c = code c == 32 || (leb 9 (code c) && leb (code c) 13)

strip_start : String → String
unfolding is_blank
strip_start String.[] = ""
strip_start (String.◌∷◌ c s) =
    let rest = strip_start s in if is_blank c then rest else String.◌∷◌ c s

strip_end : String → String
unfolding is_blank
strip_end String.[] = ""
strip_end (String.◌∷◌ c s) =
    let rest = strip_end s in if is_blank c && str_eq rest "" then "" else String.◌∷◌ c rest

unfoldable pub strip : String → String
unfolding strip_start strip_end
strip s = strip_end (strip_start s)

strip-lower_run : lower (strip "  4K ") ≡ "4k"
unfolding lower strip
strip-lower_run = refl

-- A character in front of the first word.
push_word : Char → List String → List String
push_word c [] = String.◌∷◌ c "" ∷ []
push_word c (s ∷ rest) = String.◌∷◌ c s ∷ rest

pieces : String → List String
unfolding is_blank push_word
pieces String.[] = "" ∷ []
pieces (String.◌∷◌ c s) = let rest = pieces s in if is_blank c then "" ∷ rest else push_word c rest

-- `s.split()`
unfoldable pub words : String → List String
unfolding pieces
words s = keep (λ w. not (str_eq w "")) (pieces s)

words_run : words "  The   Thing " ≡ "The" ∷ "Thing" ∷ []
unfolding words keep
words_run = refl
