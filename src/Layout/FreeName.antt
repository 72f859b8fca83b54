-- ===== src/Layout/FreeName.antt =====
-- `_unique_path` ends, and with a path that does not exist.
use filmoteka.Prelude.{
  ℕ, zero, suc, ◌+◌, ◌<◌, ◌≤◌, String, ◌≡◌, ◌≢◌, refl, sym, ◌∙◌, ap, true, false, not, some, List,
  [], ◌∷◌, arith, str_eq, eq_iff, keep, length, Bool-cases, inl, inr,
}
use filmoteka.Importing.{str_mem}
use filmoteka.Text.{show, show_injective}
use filmoteka.Paths.{concat}
use filmoteka.Paths.Suffixes.{under}
use filmoteka.Layout.{find_free, numbered}

-- The list without a text.
abbrev without : String → List String → List String
without p taken = keep (λ x. not (str_eq x p)) taken

mem-without :
    (p q : String) (taken : List String) → p ≢ q → str_mem q (without p taken) ≡ str_mem q taken
unfolding str_mem keep
mem-without p q [] differ = refl
mem-without p q (x ∷ taken) differ =
    ground (arith, mem-without p q taken differ, eq_iff x p, eq_iff x q)

length-without-le : (p : String) (taken : List String) → length (without p taken) ≤ length taken
unfolding keep
length-without-le p [] = omega arith
length-without-le p (x ∷ taken) = ground (arith, length-without-le p taken)

length-without :
    (p : String) (taken : List String)
    → str_mem p taken ≡ true
    → length (without p taken) < length taken
unfolding str_mem keep
length-without p [] here = cc
length-without p (x ∷ taken) here =
    ground (arith, length-without p taken, length-without-le p taken)

-- The loop reads the list only at the names from the counter on.
find_free-agree :
    (names : ℕ → String) (t u : List String) (fuel counter : ℕ)
    → ((j : ℕ) → counter ≤ j → str_mem (names j) t ≡ str_mem (names j) u)
    → find_free names t fuel counter ≡ find_free names u fuel counter
unfolding find_free
find_free-agree names t u zero counter h = refl
find_free-agree names t u (suc fuel) counter h =
    let later : (j : ℕ) → counter + 1 ≤ j → str_mem (names j) t ≡ str_mem (names j) u =
      λ j le. h j (omega arith) in
    ground (arith, h counter (omega arith), find_free-agree names t u fuel (counter + 1) later)

-- Where no two numbers give one name, as many rounds as there are taken names, and one more, find a free name.
pub find_free-some :
    (names : ℕ → String) (taken : List String) (fuel counter : ℕ)
    → ((i j : ℕ) → names i ≡ names j → i ≡ j)
    → length taken < fuel
    → (j : ℕ) × (counter ≤ j)
      × (find_free names taken fuel counter ≡ some (names j))
      × (str_mem (names j) taken ≡ false)
unfolding find_free
find_free-some names taken zero counter inj enough = absurd (omega arith)
find_free-some names taken (suc fuel) counter inj enough =
    elim (Bool-cases (str_mem (names counter) taken)) [
      | inr free ↦ (counter, omega arith, rw (free) refl, free)
      | inl used ↦
          let fewer = without (names counter) taken in
          let agree : (j : ℕ)
              → counter + 1 ≤ j
              → str_mem (names j) fewer ≡ str_mem (names j) taken =
            λ j le.
              mem-without (names counter) (names j) taken
                (λ e. absurd (omega (arith, inj counter j e))) in
          let (j, le, found, free) =
            find_free-some names fewer fuel (counter + 1) inj
              (omega (arith, length-without (names counter) taken used)) in
          (
            j,
            omega arith,
            rw (used) (sym (find_free-agree names fewer taken fuel (counter + 1) agree) ∙ found),
            sym (agree j le) ∙ free,
          )
    ]

text_length : String → ℕ
text_length String.[] = 0
text_length (String.◌∷◌ c s) = suc (text_length s)

text_length-concat : (s t : String) → text_length (concat s t) ≡ text_length s + text_length t
unfolding text_length concat
text_length-concat String.[] t = omega arith
text_length-concat (String.◌∷◌ c s) t = omega (arith, text_length-concat s t)

concat-cancel : (s t u : String) → concat s t ≡ concat s u → t ≡ u
unfolding concat
concat-cancel String.[] t u e = e
concat-cancel (String.◌∷◌ c s) t u e = concat-cancel s t u (cc)

concat-front : (s t u v : String) → text_length s ≡ text_length t → concat s u ≡ concat t v → s ≡ t
unfolding concat text_length
concat-front String.[] String.[] u v len e = refl
concat-front String.[] (String.◌∷◌ d t) u v len e = absurd (omega (arith, len))
concat-front (String.◌∷◌ c s) String.[] u v len e = absurd (omega (arith, len))
concat-front (String.◌∷◌ c s) (String.◌∷◌ d t) u v len e =
    let rest = concat-front s t u v (omega (arith, len)) (cc) in cc

pub numbered_injective :
    (parent stem suffix : String) (i j : ℕ)
    → numbered parent stem suffix i ≡ numbered parent stem suffix j
    → i ≡ j
unfolding numbered under
numbered_injective parent stem suffix i j e =
    let tail = concat ")" suffix in
    let numbers : concat (show i) tail ≡ concat (show j) tail =
      concat-cancel " (" _ _
        (concat-cancel stem _ _ (concat-cancel "/" _ _ (concat-cancel parent _ _ e))) in
    let lengths = ap text_length numbers in
    show_injective i j (
      concat-front (show i) (show j) tail tail
        (omega (arith, lengths, text_length-concat (show i) tail, text_length-concat (show j) tail))
        numbers)
