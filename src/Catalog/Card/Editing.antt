-- ===== src/Catalog/Card/Editing.antt =====
-- What `update_film` of src/filmoteka/api/admin.py changes.
use filmoteka.Prelude.{
  ℕ, String, ◌≡◌, refl, Bool, true, false, Option, none, some, or_else, if◌then◌else◌, arith,
  ==_iff,
}
use filmoteka.Table.{Rows, get, put}
use filmoteka.Table.Laws.{get-put}
use filmoteka.Models.{Db}
use filmoteka.Models.Catalog.{Film, MediaFile}
use filmoteka.Http.{ok}
use filmoteka.Pipeline.{on_film, text_parts, update_fts_vector}
use filmoteka.Catalog.Card.{
  FilmUpdate, FilmDetailOut, given_or, is_changed, marked, assigned, dedup_tr_media, edit, detail,
  get_film, update_film,
}

-- The row of a film after an assignment to its columns.
get-on_film :
    (k : ℕ) (f : Film → Film) (db : Db) (film : Film)
    → get db.films k ≡ some film
    → get (on_film k f db).films k ≡ some (f film)
unfolding on_film
get-on_film k f db film row =
    rw (row, on_film) (ground (arith, row, get-put k k (f film) db.films, ==_iff k k))

-- The row of a film after its vector is computed.
get-update_fts_vector :
    (to_tsvector : String → String) (k : ℕ) (db : Db) (film : Film)
    → get db.films k ≡ some film
    → (v : String) × (get (update_fts_vector to_tsvector k db).films k
        ≡ some (record film { fts_vector = some v }))
unfolding update_fts_vector
get-update_fts_vector to_tsvector k db film row = (
  to_tsvector (text_parts k db film),
  get-on_film k (λ f. record f { fts_vector = some (to_tsvector (text_parts k db f)) }) db film row,
)

-- What the reply and the card show after an update: the title, the year, the description, the age rating, the mark of a family
-- video and the mark for review.
pub record Shows (changed : Bool) (body : FilmUpdate) (film : Film) (card : FilmDetailOut)
    : Type 0 where
  pub title : card.title ≡ or_else body.title film.title
  pub year : card.year ≡ given_or body.year film.year
  pub description : card.description ≡ given_or body.description film.description
  pub age_rating : card.age_rating ≡ given_or body.age_rating film.age_rating
  pub is_family_video : card.is_family_video ≡ or_else body.is_family_video film.is_family_video
  pub needs_review : card.needs_review ≡ (if changed then false else film.needs_review)

marked-Shows :
    (changed : Bool) (now : ℕ) (body : FilmUpdate) (film : Film)
    (shown : Rows MediaFile → Rows MediaFile) (poster_url country : Option String) (db : Db) (k : ℕ)
    (v : Option String)
    → Shows changed body film (
        detail shown poster_url country db k
          (record (marked changed now (assigned body film)) { fts_vector = v }))
unfolding marked
marked-Shows true now body film shown poster_url country db k v = record {
  title = refl;
  year = refl;
  description = refl;
  age_rating = refl;
  is_family_video = refl;
  needs_review = refl;
}
marked-Shows false now body film shown poster_url country db k v = record {
  title = refl;
  year = refl;
  description = refl;
  age_rating = refl;
  is_family_video = refl;
  needs_review = refl;
}

marked-sources :
    (changed : Bool) (now : ℕ) (film : Film)
    → ((marked changed now film).poster_url ≡ film.poster_url)
      × ((marked changed now film).country ≡ film.country)
unfolding marked
marked-sources true now film = (refl, refl)
marked-sources false now film = (refl, refl)

-- The poster and the country of a reply.
pub record ShowsOrigin (poster_url country : Option String) (card : FilmDetailOut) : Type 0 where
  pub poster : card.poster_url ≡ poster_url
  pub origin : card.country ≡ country

-- An update of a film that exists replies with its card. The title, the year, the description, the age rating and the mark of a
-- family video, in the reply and in the card that is read afterwards, are those that the body gives, or the old ones where it gives
-- none; the mark for review is cleared if a given field, of these or the poster or the country, differs from what was there, and
-- stays as it was otherwise. The poster and the country of the reply, too, are those of the body or the old ones, and so are those
-- of the row that is stored; the card that is read afterwards has neither.
pub update_film-get_film :
    (to_tsvector : String → String) (now k : ℕ) (body : FilmUpdate) (db : Db) (film : Film)
    → get db.films k ≡ some film
    → (reply : FilmDetailOut) × (card : FilmDetailOut) × (after : Db) × (update_film to_tsvector now
          k body db
        ≡ (ok reply, after))
      × (get_film k after ≡ ok card)
      × Shows (is_changed body film) body film reply
      × Shows (is_changed body film) body film card
      × ShowsOrigin
          (given_or body.poster_url film.poster_url)
          (given_or body.country film.country)
          reply
      × ShowsOrigin none none card
      × (stored : Film) × (get after.films k ≡ some stored)
      × (stored.poster_url ≡ given_or body.poster_url film.poster_url)
      × (stored.country ≡ given_or body.country film.country)
unfolding update_film edit get_film
update_film-get_film to_tsvector now k body db film row =
    let edited = edit now body film in
    let saved : Db = record db { films = put k edited db.films } in
    let after = update_fts_vector to_tsvector k saved in
    let put_row : get saved.films k ≡ some edited =
      ground (arith, row, get-put k k edited db.films, ==_iff k k) in
    let sources = marked-sources (is_changed body film) now (assigned body film) in
    let (v, kept) = get-update_fts_vector to_tsvector k saved edited put_row in
    (
      detail (λ media. media) edited.poster_url edited.country after k edited,
      detail dedup_tr_media none none after k (record edited { fts_vector = some v }),
      after,
      rw (row, update_film) refl,
      rw (kept, get_film) refl,
      marked-Shows (is_changed body film) now body film (λ media. media) edited.poster_url
          edited.country after k edited.fts_vector,
      marked-Shows (is_changed body film) now body film dedup_tr_media none none after k (some v),
      record { poster = sources.0; origin = sources.1 },
      record { poster = refl; origin = refl },
      record edited { fts_vector = some v },
      kept,
      sources.0,
      sources.1,
    )
