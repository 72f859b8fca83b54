-- ===== src/Lib.antt =====
-- filmoteka: a model of the server of a home film library, in the parts that decide who sees, plays and
-- changes what.
--
-- Parts and how they interact. The handlers of the API share one database. Accounts and tokens
-- (src/filmoteka/api/auth.py, src/filmoteka/domain/access) say who the current user is; the playback endpoints
-- (src/filmoteka/api/media.py) write watch events under that user; the listings and the recommendations
-- (src/filmoteka/api/catalog.py, src/filmoteka/api/users.py) read those events, the user's settings and the
-- blacklist; the administrator's endpoints (src/filmoteka/api/admin.py) manage users, conflicts between editions
-- and the upkeep of media files, and start background jobs (src/filmoteka/domain/tasks), which run in threads of
-- their own and are cancelled through the database.
--
-- Files:
--   Prelude: shared names, Boolean tests, lists measured by native numbers, signed quantities, stable sorting.
--   Text: str(n), int(s); Text/Case: lower() and strip(); Text/Strip: strip(marks) on lists of characters.
--   Text/Regex: regular expressions, with the ends of their matches in the order of backtracking; Text/Regex/Sound: what a
--   match is.
--   Paths: the parts of pathlib on texts of POSIX paths.
--   Table, Table/Laws: a table of rows with a generated primary key, and the queries on it.
--   Models: the rows of src/filmoteka/domain/*/models.py and the database that holds them.
--   Http: the reply of a handler, a value or an HTTPException.
--   Access: register, login, the token dependencies, admin_create_user and admin_update_user.
--   Watching: start_watch, update_progress and the deletions of events; Watching/Listings: watch_history and
--   watch_continue; Watching/Stats: the statistics of the administrator; Watching/Steps: sequences of such requests.
--   Tasks: run_background_job, should_stop, cancel_job, import_scan and transcode_media_audio; Tasks/Life: one
--   job as a step relation of its thread and the cancellations; Tasks/Requests: the requests that start the other jobs;
--   Tasks/Listing: get_job_status and list_jobs.
--   Library: _run_reindex, _reindex_resolve_path and _run_reconcile; Library/Editions: the conflicts,
--   admin_keep_edition, admin_delete_media and reset_alias.
--   Catalog: list_films and its filters.
--   Catalog/Card: get_film with _dedup_tr_media, and update_film.
--   Aliases: _run_alias_generate and get_alias_progress of src/filmoteka/api/admin.py.
--   Posters: _run_fill_missing and _run_refresh_all of src/filmoteka/api/admin.py, over the search of Metadata.
--   Enriching: _run_deepseek_enrich and get_enrich_progress of src/filmoteka/api/admin.py.
--   Transcoding: _run_transcode_audio, _clean_orphan_ac3fix and get_transcode_progress of the same file, its
--   loop in Transcoding/Job; Transcoding/Originals: list_transcoded_files and delete_transcoded_original.
--   Streaming: stream_media of src/filmoteka/api/media.py.
--   Users: the blacklist and the five settings.
--   Importing: scan_downloads and probe_candidates of src/filmoteka/domain/importing/scan.py; Importing/Ffprobe: probe_media of
--   src/filmoteka/infrastructure/media_probe.py.
--   Paths/Suffixes: the suffixes and the stem of a name.
--   FilenameParser: src/filmoteka/infrastructure/filename_parser.py; its patterns in FilenameParser/Markers, parse_filename in
--   FilenameParser/Parse.
--   Titles: clean_title_for_omdb and detect_search_type of src/filmoteka/infrastructure/metadata_providers.py.
--   Json: the values of JSON and the operations on them that raise.
--   DeepSeek: src/filmoteka/infrastructure/deepseek_provider.py; DeepSeek/Unfence: the texts in its answers.
--   Pipeline: run_import of src/filmoteka/domain/importing/pipeline.py, in its lookups and the enrichment; Pipeline/Bridge:
--   _bridge_to_catalog up to the media file; Pipeline/Run: its end, the loop and the report.
--   Layout: layout_file, _unique_path and _target_dir of src/filmoteka/domain/importing/layout.py.
--   Metadata: the searches for posters of src/filmoteka/infrastructure/metadata_providers.py.
--   Series: the endpoints of src/filmoteka/api/series.py; Series/Playing: series_continue and adjacent_episode.
--   Recommendations: get_recommendations within the library; Recommendations/Mood: recommend_by_mood, where a limit is at
--   least 1; Recommendations/Fitting: what its keywords select, said by the rows.
--
-- Conventions. A handler takes the database and returns the reply with the database after it; a query gives
-- rows in the order of the table, and a sort is stable. A child row that the database deletes through a foreign
-- key is deleted in the same step. Times are numbers, of ticks or seconds; a playback position is a whole number of
-- seconds, possibly negative; a score of 1.5 or 2.0 is counted in halves. Text functions treat ASCII letters and blanks, and leave other
-- characters as they are. bcrypt, PyJWT, the text search of PostgreSQL, the disk and the probe of a file are parameters, with what the code
-- relies on as fields of their records. So are the services on the network; one call sees one time of the clock, and of the
-- exceptions in the import those of a file that cannot be read and of an enrichment are modelled. In a regular expression the letters are those of
-- ASCII and of the Russian alphabet, digits and blanks those of ASCII. The import takes what DeepSeek gives, with the
-- exceptions, as fields of its services; DeepSeek says what the calls make of a response. json.loads is a parameter that gives a
-- value or one of its three exceptions: JSONDecodeError, the ValueError of an integer with too many digits, RecursionError; str of a
-- value raises nothing, and int of a text has no limit of digits. In layout_file mkdir may fail after some of the directories, and
-- a move that fails may leave a copy at the destination; the tests whether a path exists raise nothing.
--
-- Loops are structural recursions on the rows, so none needs fuel, except for the digits of a number: show
-- gives one step more than the number, which is at least the count of its digits, and for _unique_path, which
-- has one step more than there are paths; the removal of a marker from a name has one more than the name has characters.
--
-- Not modelled: the column updated_at of a film, which no handler reads; backups and the download suggestions, the recommendations from outside
-- the library; and input and output only: wiring, logging, configuration, migrations and the web page. A commit
-- that fails is modelled where a unique constraint can refuse it, and a lost connection is not.
pub mod Prelude
pub mod Text
pub mod Table
pub mod Models
pub mod Http
pub mod Access
pub mod Watching
pub mod Tasks
pub mod Paths
pub mod Library
pub mod Users
pub mod Catalog
pub mod Recommendations
pub mod Importing
pub mod FilenameParser
pub mod Pipeline
pub mod Layout
pub mod Series
pub mod Metadata
pub mod Aliases
pub mod Posters
pub mod Streaming
pub mod Titles
pub mod Json
pub mod DeepSeek
pub mod Transcoding
pub mod Enriching
