-- ===== src/Coders.antt =====
-- src/codecs/coders.h and src/codecs/coders.cc: which decoders and encoders there are, and the
-- choice of the gain.
pub mod Gain
use mp3fs.Prelude.{
  ℕ, ◌+◌, ◌≤◌, Bool, true, false, ◌&&◌, ◌||◌, not, map, Option, none, some, leb, ◌==◌,
  if◌then◌else◌, Text, text_eq, codes,
}
use mp3fs.Params.{Params}

-- The codecs that the build has: `HAVE_MP3`, `HAVE_FLAC`, `HAVE_VORBIS`.
pub record Build : Type 0 where
  pub have_mp3 : Bool
  pub have_flac : Bool
  pub have_vorbis : Bool

-- The classes derived from `Decoder`.
pub data DecoderClass : Type 0 where
  flac_decoder vorbis_decoder : DecoderClass

-- The classes derived from `Encoder`.
pub data EncoderClass : Type 0 where
  mp3_encoder : EncoderClass

-- `std::tolower` in the C locale.
unfoldable pub tolower : ℕ → ℕ
tolower c = if leb b'A' c && leb c b'Z' then c + 32 else c

unfoldable pub create_encoder : Build → Text → Option EncoderClass
create_encoder build file_type =
    if build.have_mp3 && text_eq file_type (codes "mp3") then some mp3_encoder else none

unfoldable pub create_decoder : Build → Text → Option DecoderClass
unfolding tolower
create_decoder build file_type =
    let lower = map tolower file_type in
    if build.have_flac && text_eq lower (codes "flac")
    then some flac_decoder
    else (if build.have_vorbis && (text_eq lower (codes "ogg") || text_eq lower (codes "oga"))
        then some vorbis_decoder
        else none)

-- Floating-point numbers: the type and the operations that the source uses.
pub record Doubles : Type 1 where
  pub Double : Type 0
  pub eq : Double → Double → Bool
  pub add : Double → Double → Double
  pub sub : Double → Double → Double
  pub literal : ℕ → Double

module _ (d : Doubles) where
  open d use {Double, eq, add, sub, literal}

  abbrev pub invalid_db : Double
  invalid_db = literal 1000

  abbrev pub default_gain : Double
  default_gain = literal 89

  -- The argument of `set_gain_db`; `none` if it is not called. `gainmode` and `params_gainref`
  -- are the options of these names.
  unfoldable pub set_gain : ℕ → Double → Double → Double → Double → Option Double
  set_gain gainmode params_gainref gainref album_gain track_gain =
      let reference = if eq gainref invalid_db then default_gain else gainref in
      let dbgain =
        if gainmode == 1 && not (eq album_gain invalid_db)
        then album_gain
        else (if (gainmode == 1 || gainmode == 2) && not (eq track_gain invalid_db)
            then track_gain
            else invalid_db) in
      if not (eq dbgain invalid_db) then some (add (sub params_gainref reference) dbgain) else none
