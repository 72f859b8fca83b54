-- ===== src/Text/Regex.antt =====
-- Regular expressions of Python's `re`, as far as the program uses them. A pattern gives the ends of its matches from a place in a
-- text, in the order in which the backtracking of `re` tries them: the first one is the match.
pub mod Sound
use Prim.Native.Char.{Char, code}
use filmoteka.Prelude.{
  ℕ, zero, suc, ◌+◌, ◌-◌, String, Bool, true, false, not, ◌&&◌, ◌||◌, Option, none, some, List, [],
  ◌∷◌, ◌++◌, leb, ◌==◌, if◌then◌else◌, length, take,
}

abbrev pub Chars : Type 0
Chars = List Char

abbrev pub chars : String → Chars
chars String.[] = []
chars (String.◌∷◌ c s) = c ∷ chars s

unfoldable pub text : Chars → String
text [] = ""
text (c ∷ s) = String.◌∷◌ c (text s)

-- A place in a text: what stands before it, the last character first, what follows, and the groups that were captured.
pub record Place : Type 0 where
  pub seen : Chars
  pub rest : Chars
  pub groups : List Chars

-- Tests of a character by its code.
abbrev pub Test : Type 0
Test = ℕ → Bool

abbrev pub within : ℕ → ℕ → Test
within lo hi c = leb lo c && leb c hi

abbrev pub is_digit : Test
is_digit c = within b'0' b'9' c

abbrev pub is_space : Test
is_space c = (c == 32) || within 9 13 c

abbrev pub is_latin : Test
is_latin c = within b'a' b'z' c || within b'A' b'Z' c

-- The letters of the Russian alphabet.
abbrev pub is_russian : Test
is_russian c = within 1040 1103 c || (c == 1025) || (c == 1105)

abbrev pub is_word : Test
is_word c = is_latin c || is_russian c || is_digit c || (c == b'_')

-- The lower case of a letter.
abbrev pub fold : ℕ → ℕ
fold c = if within b'A' b'Z' c || within 1040 1071 c then c + 32 else if c == 1025 then 1105 else c

pub data Regex : Type 0 where
  empty : Regex
  one : Test → Regex
  many : Test → Regex  -- greedy
  seq alt : Regex → Regex → Regex
  opt : Regex → Regex  -- greedy
  group : Regex → Regex
  not_behind not_ahead : Test → Regex
  boundary at_start at_end : Regex

unfoldable pub step : Char → Chars → Place → Place
step c rest p = record p { seen = c ∷ p.seen; rest = rest }

abbrev pub head_test : Test → Chars → Bool
head_test t [] = false
head_test t (c ∷ s) = t (code c)

unfoldable pub many_ends : Test → Chars → Chars → List Chars → List Place
many_ends t seen [] groups = record { seen = seen; rest = []; groups = groups } ∷ []
many_ends t seen (c ∷ rest) groups =
    let longer = many_ends t (c ∷ seen) rest groups in
    let here : Place = record { seen = seen; rest = c ∷ rest; groups = groups } in
    if t (code c) then longer ++ here ∷ [] else here ∷ []

unfoldable pub one_end : Test → Chars → Place → List Place
unfolding step
one_end t [] p = []
one_end t (c ∷ rest) p = if t (code c) then step c rest p ∷ [] else []

-- Each place with all that a search from it gives.
unfoldable pub each_end : (Place → List Place) → List Place → List Place
each_end f [] = []
each_end f (p ∷ ps) = f p ++ each_end f ps

abbrev pub reversed : Chars → Chars → Chars
reversed [] acc = acc
reversed (c ∷ s) acc = reversed s (c ∷ acc)

-- The text between two places.
unfoldable pub between : Place → Place → Chars
between p q = reversed (take (length q.seen - length p.seen) q.seen) []

unfoldable pub captured : Place → List Place → List Place
unfolding between
captured p [] = []
captured p (q ∷ qs) = record q { groups = q.groups ++ between p q ∷ [] } ∷ captured p qs

-- The place itself, under a condition.
abbrev pub here_if : Bool → Place → List Place
here_if true p = p ∷ []
here_if false p = []

unfoldable pub xor : Bool → Bool → Bool
xor true b = not b
xor false b = b

unfoldable pub ends : Regex → Place → List Place
unfolding one_end many_ends each_end captured xor
ends empty p = p ∷ []
ends (one t) p = one_end t p.rest p
ends (many t) p = many_ends t p.seen p.rest p.groups
ends (seq r s) p = each_end (ends s) (ends r p)
ends (alt r s) p = ends r p ++ ends s p
ends (opt r) p = ends r p ++ p ∷ []
ends (group r) p = captured p (ends r p)
ends (not_behind t) p = here_if (not (head_test t p.seen)) p
ends (not_ahead t) p = here_if (not (head_test t p.rest)) p
ends boundary p = here_if (xor (head_test is_word p.seen) (head_test is_word p.rest)) p
ends at_start p = elim p.seen [ [] ↦ p ∷ [] | _ ↦ [] ]
ends at_end p = elim p.rest [ [] ↦ p ∷ [] | _ ↦ [] ]

abbrev pub place : Chars → Chars → Place
place seen rest = record { seen = seen; rest = rest; groups = [] }

-- A match: where it begins and where it ends.
abbrev pub Match : Type 0
Match = Place × Place

abbrev pub first_end : List Place → Option Place
first_end [] = none
first_end (p ∷ _) = some p

-- `pattern.search(text)`, from a place on.
unfoldable pub search_from : Regex → Chars → Chars → Option Match
unfolding ends
search_from r seen [] = elim (first_end (ends r (place seen []))) [
  | none ↦ none
  | some q ↦ some (place seen [], q)
]
search_from r seen (c ∷ rest) =
    let later = search_from r (c ∷ seen) rest in
    elim (first_end (ends r (place seen (c ∷ rest)))) [
      | none ↦ later
      | some q ↦ some (place seen (c ∷ rest), q)
    ]

unfoldable pub search : Regex → Chars → Option Match
unfolding search_from
search r s = search_from r [] s

-- `text[:match.start()]`, `text[match.end():]` and `match.group(0)`
abbrev pub before_match : Match → Chars
before_match (p, q) = reversed p.seen []

abbrev pub after_match : Match → Chars
after_match (p, q) = q.rest

unfoldable pub match_text : Match → Chars
unfolding between
match_text (p, q) = between p q

-- The text without the match.
abbrev pub cut : Match → Chars
cut m = before_match m ++ after_match m

-- `pattern.sub(by, text)`, for patterns that do not match the empty text; the characters of a match are skipped.
unfoldable pub sub_from : Regex → Chars → Chars → ℕ → Chars → Chars
unfolding ends
sub_from r by seen skip [] = []
sub_from r by seen (suc skip) (c ∷ rest) = sub_from r by (c ∷ seen) skip rest
sub_from r by seen zero (c ∷ rest) =
    let kept = sub_from r by (c ∷ seen) zero rest in
    elim (first_end (ends r (place seen (c ∷ rest)))) [
      | none ↦ c ∷ kept
      | some q ↦
          let n = length (c ∷ rest) - length q.rest in
          elim n [ zero ↦ c ∷ kept | suc more ↦ by ++ sub_from r by (c ∷ seen) more rest ]
    ]

unfoldable pub sub : Regex → Chars → Chars → Chars
unfolding sub_from
sub r by s = sub_from r by [] zero s

-- Patterns for the words of a text, in the case they are given in, or in any.
unfoldable pub exactly : String → Regex
exactly String.[] = empty
exactly (String.◌∷◌ c s) = seq (one (λ d. d == code c)) (exactly s)

unfoldable pub word : String → Regex
word String.[] = empty
word (String.◌∷◌ c s) = seq (one (λ d. fold d == fold (code c))) (word s)

-- `[\s._-]`
abbrev pub is_separator : Test
is_separator c = is_space c || (c == b'.') || (c == b'_') || (c == b'-')

abbrev pub separators : Regex
separators = many is_separator

abbrev pub plus : Test → Regex
plus t = seq (one t) (many t)

infixr 40 ◌⨟◌
abbrev pub ◌⨟◌ : Regex → Regex → Regex
r ⨟ s = seq r s
