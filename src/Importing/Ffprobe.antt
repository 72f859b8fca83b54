-- ===== src/Importing/Ffprobe.antt =====
-- The probe of a media file: src/filmoteka/infrastructure/media_probe.py. The run of ffprobe and `float` are parameters; the output
-- is that which ffprobe documents, with the fields that the code reads.
use filmoteka.Prelude.{
  ℕ, ◌+◌, ◌≤◌, ◌≡◌, refl, String, Bool, true, false, not, Option, none, some, ℤ, List, [], ◌∷◌,
  ◌==◌, str_eq, eq_iff, if◌then◌else◌, length, keep, arith, Option-cases, inl, inr, ◌⊎◌,
}
use filmoteka.Importing.{MediaProbeResult}

pub record Stream : Type 0 where
  pub codec_type : Option String
  pub codec_name : Option String
  pub duration : Option String
  pub width : Option ℕ
  pub height : Option ℕ

pub record Output : Type 0 where
  pub duration : Option String  -- of the format
  pub streams : List Stream

-- How the run ends; `none` is an output that is not JSON.
pub data Ran : Type 0 where
  not_found timed_out : Ran
  exited : ℕ → Option Output → Ran

-- A result, a MediaProbeError, or the ValueError of `float`.
pub data Probed : Type 0 where
  probed : MediaProbeResult → Probed
  probe_error value_error : Probed

abbrev has_type : String → Stream → Bool
has_type type s = elim s.codec_type [ none ↦ false | some t ↦ str_eq t type ]

unfoldable pub of_type : String → List Stream → List Stream
unfolding keep
of_type type streams = keep (has_type type) streams

-- `streams[0].get(field)`, where there is a stream
abbrev of_first {ℓ} : {A : Type ℓ} → (Stream → Option A) → List Stream → Option A
of_first field [] = none
of_first field (s ∷ _) = field s

-- A number, or `none` for a ValueError.
abbrev Read : Type 0
Read = Option (Option ℤ)

abbrev read : (String → Option ℤ) → String → Read
read to_float s = elim (to_float s) [ none ↦ none | some d ↦ some (some d) ]

abbrev read_some : (String → Option ℤ) → Option String → Read
read_some to_float none = some none
read_some to_float (some s) = read to_float s

-- The duration of the format, if it is given and not empty, or else that of the first video stream.
unfoldable pub duration_of : (String → Option ℤ) → Output → Read
unfolding of_type
duration_of to_float output =
    let fallback =
      read_some to_float (of_first (λ s. s.duration) (of_type "video" output.streams)) in
    elim output.duration [
      | none ↦ fallback
      | some s ↦ if str_eq s "" then fallback else read to_float s
    ]

-- `_parse_probe_data`
unfoldable pub parse_probe_data : (String → Option ℤ) → Output → Probed
unfolding duration_of of_type
parse_probe_data to_float output =
    let video = of_type "video" output.streams in
    let audio = of_type "audio" output.streams in
    elim (duration_of to_float output) [
      | none ↦ value_error
      | some duration ↦ probed (record {
        duration_secs = duration;
        width = of_first (λ s. s.width) video;
        height = of_first (λ s. s.height) video;
        codec = of_first (λ s. s.codec_name) video;
        audio_codec = of_first (λ s. s.codec_name) audio;
        audio_count = length audio;
        subtitle_count = length (of_type "subtitle" output.streams);
      })
    ]

-- `probe_media`, where the flag says whether the file exists
unfoldable pub probe_media : (String → Option ℤ) → Bool → Ran → Probed
unfolding parse_probe_data
probe_media to_float false ran = probe_error
probe_media to_float true not_found = probe_error
probe_media to_float true timed_out = probe_error
probe_media to_float true (exited code output) =
    if not (code == 0)
    then probe_error
    else elim output [ none ↦ probe_error | some o ↦ parse_probe_data to_float o ]

length-two_types :
    (a b : String) (streams : List Stream)
    → str_eq a b ≡ false
    → length (of_type a streams) + length (of_type b streams) ≤ length streams
unfolding of_type keep
length-two_types a b [] differ = ground arith
length-two_types a b (s ∷ streams) differ = elim (Option-cases s.codec_type) [
  | inl e ↦ rw (e) (grind (arith, length-two_types a b streams differ))
  | inr (t, e) ↦
      rw (e)
        (ground (arith, eq_iff t a, eq_iff t b, eq_iff a b, length-two_types a b streams differ))
]

abbrev pub IsCounted : Output → Probed → Type 0
IsCounted output (probed r) =
    (r.audio_count + r.subtitle_count ≤ length output.streams)
    × ((r.audio_codec ≡ none) ⊎ (1 ≤ r.audio_count))
IsCounted output probe_error = Unit
IsCounted output value_error = Unit

first-counted {ℓ} :
    {A : Type ℓ} (field : Stream → Option A) (streams : List Stream)
    → (of_first field streams ≡ none) ⊎ (1 ≤ length streams)
first-counted field [] = inl refl
first-counted field (s ∷ streams) = inr (ground arith)

-- The result of a probe counts no more audio and subtitle streams than there are streams, and an audio codec comes with an audio
-- stream at least.
pub parse_probe_data-IsCounted :
    (to_float : String → Option ℤ) (output : Output)
    → IsCounted output (parse_probe_data to_float output)
unfolding parse_probe_data
parse_probe_data-IsCounted to_float output = elim (Option-cases (duration_of to_float output)) [
  | inl e ↦ rw (parse_probe_data, e) tt
  | inr (d, e) ↦
      rw (parse_probe_data, e)
        (
          length-two_types "audio" "subtitle" output.streams refl,
          first-counted (λ s. s.codec_name) (of_type "audio" output.streams),
        )
]
