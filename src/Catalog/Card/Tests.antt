-- ===== src/Catalog/Card/Tests.antt =====
-- An edition with an original, its copy and a file of its own, and an edit of a film.
use filmoteka.Prelude.{◌≡◌, refl, none, some, [], ◌∷◌, keep}
use filmoteka.Table.{Rows, get}
use filmoteka.Models.{Db}
use filmoteka.Models.Catalog.{Film, MediaFile}
use filmoteka.Models.Sample.{sample_db, sample_film, sample_media}
use filmoteka.Http.{ok}
use filmoteka.Importing.{str_mem}
use filmoteka.Catalog.Card.{
  dedup_tr_media, FilmUpdate, FilmDetailOut, is_changed, get_film, update_film,
}
use filmoteka.Catalog.Card.Editing.{Shows, ShowsOrigin, update_film-get_film}

abbrev files : Rows MediaFile
files =
    (1, sample_media 1 "/lib/a.mkv")
    ∷ (2, sample_media 1 "/lib/b.mkv")
    ∷ (3, sample_media 1 "/lib/a.tr.mp4")
    ∷ []

dedup_run :
    dedup_tr_media files
    ≡ (3, sample_media 1 "/lib/a.tr.mp4") ∷ (2, sample_media 1 "/lib/b.mkv") ∷ []
unfolding dedup_tr_media str_mem filmoteka.Paths.Suffixes.inner_suffixes filmoteka.Paths.last_or
    filmoteka.Paths.split filmoteka.Paths.name keep filmoteka.Paths.Suffixes.stem
    filmoteka.Paths.concat filmoteka.Paths.join
dedup_run = refl

-- Of two copies of one original, only the last is shown.
two_copies :
    dedup_tr_media ((1, sample_media 1 "/lib/a.tr.mkv") ∷ (2, sample_media 1 "/lib/a.tr.mp4") ∷ [])
    ≡ (2, sample_media 1 "/lib/a.tr.mp4") ∷ []
unfolding dedup_tr_media str_mem filmoteka.Paths.Suffixes.inner_suffixes filmoteka.Paths.last_or
    filmoteka.Paths.split filmoteka.Paths.name keep filmoteka.Paths.Suffixes.stem
    filmoteka.Paths.concat filmoteka.Paths.join
two_copies = refl

abbrev new_title : FilmUpdate
new_title = record {
  title = some "Z";
  year = none;
  description = none;
  age_rating = none;
  is_family_video = none;
  poster_url = some "/p.jpg";
  country = none;
}

update_film-get_film_example :
    (reply : FilmDetailOut) × (card : FilmDetailOut) × (after : Db) × (update_film
        (λ s. s)
        5
        1
        new_title
        sample_db
      ≡ (ok reply, after))
    × (get_film 1 after ≡ ok card)
    × Shows (is_changed new_title (sample_film "A")) new_title (sample_film "A") reply
    × Shows (is_changed new_title (sample_film "A")) new_title (sample_film "A") card
    × ShowsOrigin (some "/p.jpg") none reply
    × ShowsOrigin none none card
    × (stored : Film) × (get after.films 1 ≡ some stored)
    × (stored.poster_url ≡ some "/p.jpg")
    × (stored.country ≡ none)
unfolding get
update_film-get_film_example =
    update_film-get_film (λ s. s) 5 1 new_title sample_db (sample_film "A") refl
