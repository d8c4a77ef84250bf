-- ===== src/Metadata.antt =====
-- src/codecs/coders.h: the tags, and what a decoder asks of an encoder for them; and the parts that
-- src/codecs/flac_decoder.cc and src/codecs/vorbis_decoder.cc share.
use mp3fs.Prelude.{
  ℕ, ◌-◌, ◌&&◌, List, [], ◌∷◌, Option, none, some, leb, if◌then◌else◌, Text, text_eq, codes,
}
use mp3fs.Coders.{Doubles, invalid_db, set_gain}

-- The enumeration of the tags.
pub data Metatag : Type 0 where
  title artist album genre date composer performer copyright encodedby organization conductor
        albumartist tracknumber tracktotal discnumber disctotal encoder tracklength :
      Metatag

-- `::toupper` in the C locale.
unfoldable pub toupper : ℕ → ℕ
toupper c = if leb b'a' c && leb c b'z' then c - 32 else c

-- `std::map::find` in a map of tags.
unfoldable pub tag_of : List (Text × Metatag) → Text → Option Metatag
tag_of [] name = none
tag_of ((key, tag) ∷ tags) name = if text_eq key name then some tag else tag_of tags name

-- The names of the tags that hold the gain.
abbrev pub gain_reference_name : Text
gain_reference_name = codes "REPLAYGAIN_REFERENCE_LOUDNESS"

abbrev pub album_gain_name : Text
album_gain_name = codes "REPLAYGAIN_ALBUM_GAIN"

abbrev pub track_gain_name : Text
track_gain_name = codes "REPLAYGAIN_TRACK_GAIN"

module _ (d : Doubles) where
  open d use {Double}

  -- The methods of `Encoder` that a decoder calls for the metadata. `set_stream_params` takes the
  -- number of samples, the sample rate and the number of channels, and fails with -1; a picture has
  -- a MIME type, a type, a description, and data with their length.
  pub record TagEncoder : Type 1 where
    pub Encoder : Type 0
    pub set_stream_params : Encoder → ℕ → ℕ → ℕ → Option Encoder
    pub set_text_tag : Encoder → Metatag → Text → Encoder
    pub set_picture_tag : Encoder → Text → ℕ → Text → List ℕ → ℕ → Encoder
    pub set_gain_db : Encoder → Double → Encoder

  -- The gains that the comments give.
  pub record Gains : Type 0 where
    pub gainref : Double
    pub album_gain : Double
    pub track_gain : Double

  abbrev pub no_gains : Gains
  no_gains = record { gainref = invalid_db d; album_gain = invalid_db d; track_gain = invalid_db d }

  -- The last cases of the loop over the comments; `strtod` reads a number.
  unfoldable pub note_gain : (Text → Double) → Text → Text → Gains → Gains
  note_gain strtod name value g =
      if text_eq name gain_reference_name
      then record g { gainref = strtod value }
      else (if text_eq name album_gain_name
          then record g { album_gain = strtod value }
          else (if text_eq name track_gain_name then record g { track_gain = strtod value } else g))

  -- `Encoder::set_gain`, with the options `gainmode` and `gainref`.
  unfoldable pub apply_gain : (te : TagEncoder) → ℕ → Double → te.Encoder → Gains → te.Encoder
  apply_gain te gainmode params_gainref e g =
      elim (set_gain d gainmode params_gainref g.gainref g.album_gain g.track_gain) [
        | none ↦ e
        | some dbgain ↦ te.set_gain_db e dbgain
      ]
