-- ===== src/Recommendations/Fitting.antt =====
-- Which films `_keyword_mood_recommendations` of src/filmoteka/api/users.py selects, said by the rows of the tables.
use mathlib.Core.Path.{subst}
use mathlib.Core.Logic.Or
use mathlib.Core.HLevel.{⊥_prop}
use mathlib.Core.List.{Mem, mem-cons_self, mem-cons_of_mem, eq-or-mem_of_mem-cons, not-mem-nil}
use filmoteka.Text.Regex.Sound.{some_injective}
use filmoteka.Prelude.{
  ℕ, String, ◌≡◌, refl, sym, ap, Bool, true, false, ◌&&◌, Option, none, some, List, [], ◌∷◌, ◌==◌,
  ==_iff, eq_iff, str_eq, any, mem_nat, arith, Bool-cases, inl, inr, and-eq-true,
}
use filmoteka.Importing.{str_mem}
use filmoteka.Table.{Rows, get, get_row}
use filmoteka.Models.{Db}
use filmoteka.Models.Catalog.{Film, Genre, MediaFile, MovieEdition}
use filmoteka.Models.Watching.{WatchEvent}
use filmoteka.Watching.{is_media_of_film, is_recorded}
use filmoteka.Catalog.{is_watched}
use filmoteka.Users.{films_of, list_blacklist}
use filmoteka.Recommendations.Mood.{has_any_genre, fits_mood}

-- A film has a genre whose name is in the list.
abbrev pub HasGenre : List String → Db → ℕ → Type 0
HasGenre genres db film_id =
    (g : ℕ) × (genre : Genre) × Mem (film_id, g) db.film_genre
    × (get db.genres g ≡ some genre)
    × Mem genre.name genres

-- An event of the user, outside the incognito mode, is about a media file of an edition of the film.
abbrev pub HasStarted : Db → ℕ → ℕ → Type 0
HasStarted db user_id film_id =
    (i : ℕ) × (e : WatchEvent) × (m : MediaFile) × (edition : MovieEdition) × (get db.events i
      ≡ some e)
    × (e.user_id ≡ user_id)
    × (e.incognito ≡ false)
    × (get db.media e.media_file_id ≡ some m)
    × (get db.editions m.edition_id ≡ some edition)
    × (edition.film_id ≡ film_id)

str_mem-Mem : (s : String) (xs : List String) → str_mem s xs ≡ true → Mem s xs
unfolding str_mem
str_mem-Mem s [] h = cc
str_mem-Mem s (x ∷ xs) h = elim (Bool-cases (str_eq x s)) [
  | inl e ↦ subst (λ y. Mem s (y ∷ xs)) (sym ((eq_iff x s).0 e)) mem-cons_self
  | inr e ↦ mem-cons_of_mem x (str_mem-Mem s xs (ground arith))
]

any-Mem {ℓ} :
    {A : Type ℓ} (p : A → Bool) (xs : List A) → any p xs ≡ true → (x : A) × Mem x xs × (p x ≡ true)
unfolding any
any-Mem p [] h = cc
any-Mem p (x ∷ xs) h = elim (Bool-cases (p x)) [
  | inl e ↦ (x, mem-cons_self, e)
  | inr e ↦
      let (y, inside, good) = any-Mem p xs (ground arith) in (y, mem-cons_of_mem x inside, good)
]

named_genre :
    (genres : List String) (o : Option Genre)
    → (elim o [ none ↦ false | some genre ↦ str_mem genre.name genres ]) ≡ true
    → (genre : Genre) × (o ≡ some genre) × Mem genre.name genres
named_genre genres none h = cc
named_genre genres (some genre) h = (genre, refl, str_mem-Mem genre.name genres h)

has_any_genre-HasGenre :
    (genres : List String) (db : Db) (film_id : ℕ)
    → has_any_genre genres db film_id ≡ true
    → HasGenre genres db film_id
unfolding has_any_genre
has_any_genre-HasGenre genres db film_id h =
    let ((f, g), inside, good) = any-Mem _ db.film_genre h in
    let parts = and-eq-true (f == film_id) _ good in
    let (genre, row, named) = named_genre genres (get db.genres g) parts.1 in
    (
      g,
      genre,
      subst (λ k. Mem (k, g) db.film_genre) ((==_iff f film_id).0 parts.0) inside,
      row,
      named,
    )

any-get_row :
    (p : ℕ × WatchEvent → Bool) (i : ℕ) (e : WatchEvent) (r : Rows WatchEvent)
    → any p r ≡ false
    → get_row i r ≡ some e
    → p (i, e) ≡ false
unfolding any get_row
any-get_row p i e [] h there = cc
any-get_row p i e ((j, a) ∷ r) h there = elim (Bool-cases (j == i)) [
  | inl same ↦
      subst (λ k. p (k, e) ≡ false) ((==_iff j i).0 same)
        (subst (λ x. p (j, x) ≡ false) (some_injective (rw (same) at there)) (ground arith))
  | inr other ↦ any-get_row p i e r (ground arith) (rw (other) at there)
]

is_watched-HasStarted :
    (db : Db) (user_id film_id : ℕ)
    → is_watched db user_id film_id ≡ false
    → ¬ HasStarted db user_id film_id
unfolding is_watched get is_media_of_film
is_watched-HasStarted db user_id film_id h (i, e, m, edition, event, own, seen, media, row, film) =
    let clear : (is_recorded user_id i e && is_media_of_film db film_id e.media_file_id) ≡ false =
      any-get_row (λ (j, x). is_recorded user_id j x && is_media_of_film db film_id x.media_file_id)
        i e db.events.rows h event in
    let about : is_media_of_film db film_id e.media_file_id ≡ true =
      rw (media, row, is_media_of_film) ((==_iff edition.film_id film_id).1 film) in
    ground (arith, clear, about, own, seen, ==_iff e.user_id user_id)

films_of-Mem :
    (user_id k : ℕ) (xs : List (ℕ × ℕ))
    → mem_nat k (films_of user_id xs) ≡ false
    → ¬ Mem (user_id, k) xs
unfolding films_of mem_nat
films_of-Mem user_id k [] h there = not-mem-nil there
films_of-Mem user_id k ((u, f) ∷ xs) h there =
    Or.elim ⊥_prop (eq-or-mem_of_mem-cons there)
      (λ e. ground (arith, ap (λ x. x.0) e, ap (λ x. x.1) e, ==_iff u user_id, ==_iff f k))
      (films_of-Mem user_id k xs (ground arith))

pub fits_mood-parts :
    (genres : List String) (db : Db) (user_id k : ℕ) (film : Film)
    → fits_mood genres db user_id k film ≡ true
    → HasGenre genres db k × ¬ HasStarted db user_id k × ¬ Mem (user_id, k) db.blacklist
unfolding list_blacklist
fits_mood-parts genres db user_id k film h = (
  has_any_genre-HasGenre genres db k (ground arith),
  is_watched-HasStarted db user_id k (ground arith),
  films_of-Mem user_id k db.blacklist (ground arith),
)
