-- ===== src/Mp3Encoder/Tags.antt =====
-- src/codecs/mp3_encoder.cc: the constructor of `Mp3Encoder`, the stream parameters, the tags and the
-- gain.
use mp3fs.Prelude.{
  ℕ, zero, suc, ◌+◌, ◌*◌, ◌/◌, ◌%◌, Bool, true, false, not, List, [], ◌∷◌, ◌++◌, Option, none, some,
  ltb, ◌==◌, if◌then◌else◌, word, take, Text, codes,
}
use mp3fs.Params.{Params}
use mp3fs.Coders.{Doubles}
use mp3fs.Metadata.{
  Metatag, title, artist, album, genre, date, composer, performer, copyright, encodedby,
  organization, conductor, albumartist, tracknumber, tracktotal, discnumber, disctotal, encoder,
  tracklength, TagEncoder,
}
use mp3fs.Mp3Encoder.{Lame, Id3, Mp3Encoder, int_to_uint64, divide}

-- `kMetatagMap`; `none`: the tag is not in it.
unfoldable pub frame_name : Metatag → Option Text
frame_name title = some (codes "TIT2")
frame_name artist = some (codes "TPE1")
frame_name album = some (codes "TALB")
frame_name genre = some (codes "TCON")
frame_name date = some (codes "TDRC")
frame_name composer = some (codes "TCOM")
frame_name performer = some (codes "TOPE")
frame_name copyright = some (codes "TCOP")
frame_name encodedby = some (codes "TENC")
frame_name organization = some (codes "TPUB")
frame_name conductor = some (codes "TPE3")
frame_name albumartist = some (codes "TPE2")
frame_name encoder = some (codes "TSSE")
frame_name tracklength = some (codes "TLEN")
frame_name tracknumber = none
frame_name tracktotal = none
frame_name discnumber = none
frame_name disctotal = none

abbrev pub track_frame : Text
track_frame = codes "TRCK"

abbrev pub disc_frame : Text
disc_frame = codes "TPOS"

-- What the special handling of numbers does with a tag: the frame, and whether the value is the
-- number, which goes to the front, or the total.
unfoldable pub numbering : Metatag → Option (Text × Bool)
numbering tracknumber = some (track_frame, true)
numbering tracktotal = some (track_frame, false)
numbering discnumber = some (disc_frame, true)
numbering disctotal = some (disc_frame, false)
numbering _ = none

module _ (id3 : Id3) where
  open id3 use {
    Tag, has_frame, attach, getstring, addstring, setstring, utf8_ucs4, latin1_ucs4, ucs4_latin1,
  }

  -- A frame of the name is there afterwards.
  unfoldable pub find_or_attach : Tag → Text → Tag
  find_or_attach tag name = if has_frame tag name then tag else attach tag name

  -- The text of the frame so far; a new frame has none.
  unfoldable pub text_before : Tag → Text → Text
  text_before tag name = if has_frame tag name then ucs4_latin1 (getstring tag name) else []

  unfoldable pub set_number : Tag → Text → Bool → Text → Tag
  unfolding find_or_attach text_before
  set_number tag name in_front value =
      let lat = text_before tag name in
      setstring (find_or_attach tag name) name
        (latin1_ucs4 (if in_front then value ++ lat else lat ++ (codes "/" ++ value)))

  -- The tag that a text is added to, or a number is set in.
  unfoldable pub set_tag : Tag → Metatag → Text → Tag
  unfolding set_number find_or_attach frame_name numbering
  set_tag tag key value = elim (frame_name key) [
    | some name ↦ addstring (find_or_attach tag name) name (utf8_ucs4 value)
    | none ↦ elim (numbering key) [
      | some (name, in_front) ↦ set_number tag name in_front value
      | none ↦ tag
    ]
  ]

-- What `<<` writes for an unsigned number, which has at most 20 digits.
unfoldable pub decimal : ℕ → ℕ → Text
decimal zero n = []
decimal (suc digits) n =
    let front = decimal digits (n / 10) in
    if ltb n 10 then (n + b'0') ∷ [] else front ++ ((n % 10 + b'0') ∷ [])

module _ (lame : Lame) (id3 : Id3) (params : Params) where
  abbrev pub Encoder : Type 0
  Encoder = Mp3Encoder lame id3 params

  -- A null pointer for a value is none of the texts.
  unfoldable pub set_text_tag : Encoder → Metatag → Text → Encoder
  unfolding set_tag
  set_text_tag e key value = record e { id3tag = set_tag id3 e.id3tag key value }

  unfoldable pub set_picture_tag : Encoder → Text → ℕ → Text → List ℕ → ℕ → Encoder
  set_picture_tag e mime_type type description bytes data_length = record e {
    id3tag =
        id3.attach_picture e.id3tag mime_type type (id3.utf8_ucs4 description)
          (take data_length bytes);
  }

  -- The parameters of LAME that do not depend on the file.
  unfoldable pub configure : lame.State → lame.State
  configure s =
      if not (params.vbr == 0)
      then lame.set_write_vbr_tag
          (lame.set_vbr_max_bitrate_kbps (lame.set_vbr_q (lame.set_vbr_mt s) params.quality)
            params.bitrate)
          true
      else lame.set_write_vbr_tag
          (lame.set_brate (lame.set_quality s params.quality) params.bitrate) false

  -- The constructor; `package_name` is set by the build.
  unfoldable pub new : Text → Encoder
  unfolding configure set_text_tag
  new package_name =
      let bare : Encoder = record { lame_encoder = lame.init; id3tag = id3.new_tag; id3size = 0 } in
      let named = set_text_tag bare encoder package_name in
      record named { lame_encoder = configure named.lame_encoder }

  -- The length in milliseconds; `none`: a division by a sample rate of 0.
  unfoldable pub track_length : ℕ → ℕ → Option ℕ
  unfolding divide int_to_uint64
  track_length num_samples sample_rate =
      divide lame id3 params ((num_samples * 1000) % word) (int_to_uint64 sample_rate)

  -- The part behind `lame_init_params`.
  unfoldable pub set_length : Encoder → ℕ → ℕ → Option Encoder
  unfolding track_length decimal set_text_tag
  set_length e num_samples sample_rate = elim (track_length num_samples sample_rate) [
    | none ↦ none
    | some length ↦ some (set_text_tag e tracklength (decimal 20 length))
  ]

  -- The numbers are 64-bit and 32-bit patterns. `none`: -1, or as for `track_length`.
  unfoldable pub set_stream_params : Encoder → ℕ → ℕ → ℕ → Option Encoder
  unfolding set_length
  set_stream_params e num_samples sample_rate channels =
      let s =
        lame.set_num_channels
          (lame.set_in_samplerate (lame.set_num_samples e.lame_encoder num_samples) sample_rate)
          channels in
      elim (lame.init_params s) [
        | none ↦ none
        | some s' ↦ set_length (record e { lame_encoder = s' }) num_samples sample_rate
      ]

  module _ (d : Doubles) (amplitude : d.Double → lame.Scale) where
    -- `amplitude` is the power of 10 as a `float`.
    unfoldable pub set_gain_db : Encoder → d.Double → Encoder
    set_gain_db e dbgain = record e {
      lame_encoder = lame.set_scale e.lame_encoder (amplitude dbgain);
    }

    -- The encoder as a decoder sees it when it reads the metadata.
    abbrev pub tag_encoder : TagEncoder d
    tag_encoder = record {
      Encoder = Encoder;
      set_stream_params = set_stream_params;
      set_text_tag = set_text_tag;
      set_picture_tag = set_picture_tag;
      set_gain_db = set_gain_db;
    }
