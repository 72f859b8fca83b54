-- ===== src/Titles/Tests.antt =====
-- Titles as they are sent.
use filmoteka.Prelude.{◌≡◌, refl, All, none, some}
use filmoteka.Text.Regex.{chars}
use filmoteka.Titles.Plain.{Plain, clean_title_for_omdb-Plain}
use filmoteka.Titles.{CleanedTitle, clean_title_for_omdb, detect_search_type}

film :
    clean_title_for_omdb "The.Matrix.1999.1080p.WEB-DLRip.by_Group"
    ≡ record { title = "The Matrix"; year = some 1999 }
unfolding clean_title_for_omdb filmoteka.Titles.Markers.scene_group
film = refl

bracketed :
    clean_title_for_omdb "Twelve [Team] (1994) HDTVRip: RUS"
    ≡ record { title = "Twelve"; year = some 1994 }
unfolding clean_title_for_omdb filmoteka.Titles.Markers.scene_group
bracketed = refl

typed : detect_search_type "Gravity Falls s1e02" none ≡ some "series"
unfolding detect_search_type
typed = refl

clean_title_for_omdb-Plain_example :
    All Plain (chars (clean_title_for_omdb "The.Matrix_1999.WEB-DL").title)
clean_title_for_omdb-Plain_example = clean_title_for_omdb-Plain "The.Matrix_1999.WEB-DL"
