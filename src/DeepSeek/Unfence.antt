-- ===== src/DeepSeek/Unfence.antt =====
-- The texts in the answers of the language model, without the fences of Markdown:
-- src/filmoteka/infrastructure/deepseek_provider.py.
use Prim.Native.Char.{Char, code}
use filmoteka.Prelude.{
  ℕ, suc, ◌-◌, Bool, true, false, ◌&&◌, ◌||◌, Option, none, some, List, [], ◌∷◌, ◌==◌, length, take,
  drop, if◌then◌else◌,
}
use filmoteka.Text.Regex.{Chars, chars, reversed, sub, exactly}
use filmoteka.Text.Strip.{strip, strip_by}

unfoldable pub chars_eq : Chars → Chars → Bool
chars_eq [] [] = true
chars_eq (a ∷ s) (b ∷ t) = (code a == code b) && chars_eq s t
chars_eq _ _ = false

-- `s.startswith(mark)`
unfoldable pub begins : Chars → Chars → Bool
begins [] s = true
begins (m ∷ mark) [] = false
begins (m ∷ mark) (c ∷ s) = (code m == code c) && begins mark s

-- `s.endswith(mark)`
unfoldable pub finishes : Chars → Chars → Bool
unfolding begins
finishes mark s = begins (reversed mark []) (reversed s [])

push_char : Char → List Chars → List Chars
push_char c [] = (c ∷ []) ∷ []
push_char c (line ∷ rest) = (c ∷ line) ∷ rest

-- `s.split("\n")`
unfoldable pub lines : Chars → List Chars
unfolding push_char
lines [] = [] ∷ []
lines (c ∷ s) = let rest = lines s in if code c == 10 then [] ∷ rest else push_char c rest

abbrev next_place : Option ℕ → Option ℕ
next_place none = none
next_place (some n) = some (suc n)

-- `s.find("\n")`
unfoldable pub find_line_end : Chars → Option ℕ
find_line_end [] = none
find_line_end (c ∷ s) =
    let later = find_line_end s in if code c == 10 then some 0 else next_place later

-- `s.rfind(mark)`, for a mark that is not empty
unfoldable pub find_last : Chars → Chars → Option ℕ
unfolding begins
find_last mark [] = none
find_last mark (c ∷ s) = elim (find_last mark s) [
  | some n ↦ some (suc n)
  | none ↦ if begins mark (c ∷ s) then some 0 else none
]

abbrev pub fence : Chars
fence = chars "```"

-- The text before the fence of the first line that ends with one, among those that are not passed over.
unfoldable pub fenced_line : (Chars → Bool) → List Chars → Option Chars
unfolding finishes strip
fenced_line passed [] = none
fenced_line passed (line ∷ rest) =
    let later = fenced_line passed rest in
    let stripped = strip line in
    if passed stripped
    then later
    else if finishes fence stripped
    then some (strip (take (length stripped - 3) stripped))
    else later

-- `s[start:end].strip()` between the first line end and the last fence
unfoldable pub between_fences : Chars → Chars
unfolding find_line_end find_last strip
between_fences s = elim (find_line_end s) [
  | none ↦ s
  | some start ↦ elim (find_last fence s) [
    | none ↦ s
    | some stop ↦ strip (drop start (take stop s))
  ]
]

abbrev or_between : Option Chars → Chars → Chars
or_between (some line) s = line
or_between none s = between_fences s

-- The text of a fenced block, of a text that may be one.
unfoldable pub unfence : (Chars → Bool) → Chars → Chars
unfolding strip begins lines fenced_line between_fences
unfence passed s =
    let stripped = strip s in
    if begins fence stripped
    then or_between (fenced_line passed (lines stripped)) stripped
    else stripped

-- The lines that `deepseek_enrich_metadata` and `deepseek_extract_search_info` pass over.
unfoldable pub is_fence : Chars → Bool
unfolding chars_eq
is_fence line = chars_eq line (chars "```json") || chars_eq line fence

unfoldable pub is_fence_or_empty : Chars → Bool
unfolding is_fence
is_fence_or_empty line = is_fence line || chars_eq line []

abbrev last_line : List Chars → Chars
last_line [] = []
last_line (line ∷ []) = line
last_line (_ ∷ line ∷ rest) = last_line (line ∷ rest)

abbrev is_some {ℓ} : {A : Type ℓ} → Option A → Bool
is_some none = false
is_some (some _) = true

-- `.strip('"').strip("'")`
unfoldable pub unquote : Chars → Chars
unfolding strip_by
unquote s = strip_by (◌== 39) (strip_by (◌== 34) s)

-- "Remove markdown ``` if present"
unfoldable pub drop_fence : Chars → Chars
unfolding begins lines find_line_end sub exactly
drop_fence s =
    if begins fence s
    then (if is_some (find_line_end s) then last_line (lines s) else sub (exactly "```") [] s)
    else s

-- The alias in the text of an answer of `deepseek_generate_alias`.
unfoldable pub alias_text : Chars → Chars
unfolding strip strip_by unquote drop_fence
alias_text content = unquote (strip (drop_fence (strip_by (◌== 96) (unquote (strip content)))))
