-- ===== src/VorbisDecoder/Comments.antt =====
-- src/codecs/vorbis_decoder.cc: `open_file` and `process_metadata`. libvorbisfile and the Base64
-- decoder of src/lib/base64.c are parameters.
use mp3fs.Prelude.{
  c_str, ℕ, suc, ◌+◌, List, [], ◌∷◌, map, Option, none, some, ltb, ◌==◌, if◌then◌else◌, take, drop,
  Text, text_eq, codes,
}
use mp3fs.Coders.{Doubles}
use mp3fs.Metadata.{
  Metatag, title, artist, album, genre, date, composer, performer, copyright, encodedby,
  organization, conductor, albumartist, tracknumber, tracktotal, discnumber, disctotal, toupper,
  tag_of, TagEncoder, Gains, no_gains, note_gain, apply_gain,
}
use mp3fs.VorbisDecoder.{ReadBytes}
use mp3fs.Picture.{Outcome, done, refused, fault, new, decode, get_data_length}

-- `kMetatagMap`.
unfoldable pub metatag_map : List (Text × Metatag)
metatag_map =
    (codes "TITLE", title)
    ∷ (codes "ARTIST", artist)
    ∷ (codes "ALBUM", album)
    ∷ (codes "GENRE", genre)
    ∷ (codes "DATE", date)
    ∷ (codes "COMPOSER", composer)
    ∷ (codes "PERFORMER", performer)
    ∷ (codes "COPYRIGHT", copyright)
    ∷ (codes "ENCODED_BY", encodedby)
    ∷ (codes "ORGANIZATION", organization)
    ∷ (codes "CONDUCTOR", conductor)
    ∷ (codes "ALBUMARTIST", albumartist)
    ∷ (codes "ALBUM ARTIST", albumartist)
    ∷ (codes "TRACKNUMBER", tracknumber)
    ∷ (codes "TRACKTOTAL", tracktotal)
    ∷ (codes "DISCNUMBER", discnumber)
    ∷ (codes "DISCTOTAL", disctotal)
    ∷ []

abbrev pub picture_name : Text
picture_name = codes "METADATA_BLOCK_PICTURE"

-- `find_first_of` one byte; `none` is `npos`.
unfoldable pub find_first_of : ℕ → Text → Option ℕ
find_first_of c [] = none
find_first_of c (x ∷ s) =
    let rest = find_first_of c s in
    if x == c then some 0 else elim rest [ none ↦ none | some n ↦ some (suc n) ]

-- The name and the value of a comment; `none`: it is passed over.
unfoldable pub split_comment : Text → Option (Text × Text)
unfolding find_first_of
split_comment comment = elim (find_first_of b'=' comment) [
  | none ↦ none
  | some delimiter_pos ↦
      if delimiter_pos == 0
      then none
      else some (take delimiter_pos comment, drop (delimiter_pos + 1) comment)
]

-- A step goes on, makes `process_metadata` return -1, or reads outside its data.
pub data Step {ℓ} (A : Type ℓ) : Type ℓ where
  goes_on : A → Step A
  error : Step A
  overrun : Step A

-- `vorbis_info`, as far as it is read.
pub record VorbisInfo : Type 0 where
  pub channels : ℕ
  pub rate : ℕ

-- libvorbisfile. `open_stream` opens a file, with its modified time, or fails; the next three calls
-- are those for the current section, by -1; and `ov_read` fills the buffer with at most 4096 bytes
-- of 16-bit samples.
pub record Vorbis : Type 1 where
  pub Stream : Type 0
  pub open_stream : Text → Option (Stream × ℕ)
  pub ov_info : Stream → Option VorbisInfo
  pub ov_pcm_total : Stream → ℕ
  pub ov_comment : Stream → Option (List Text)
  pub ov_read : Stream → Stream × List ℕ × ReadBytes

module _ (vorbis : Vorbis) where
  open vorbis use {Stream, open_stream, ov_info, ov_pcm_total, ov_comment}

  -- The members; `vi` is none before `process_metadata`.
  pub record VorbisDecoder : Type 0 where
    pub mtime : ℕ
    pub vf : Option Stream
    pub vi : Option VorbisInfo

  unfoldable pub open_file : VorbisDecoder → Text → Option VorbisDecoder
  open_file dec filename = elim (open_stream filename) [
    | none ↦ none
    | some (stream, st_mtime) ↦ some (record dec { vf = some stream; mtime = st_mtime })
  ]

-- `base64_decode` gives the bytes; `none`: it leaves a null pointer.
module _ (d : Doubles) (te : TagEncoder d) (strtod : Text → d.Double)
    (base64_decode : Text → Option (List ℕ)) where
  open te use {Encoder, set_stream_params, set_text_tag, set_picture_tag}

  -- What a decoded picture block does.
  unfoldable pub use_picture : Encoder → Gains d → Outcome (Unit {0}) → Step (Encoder × Gains d)
  use_picture e g (done _ p) = goes_on (
    set_picture_tag e (c_str p.mime_type) p.type (c_str p.description) p.picture_data
        (get_data_length p),
    g,
  )
  use_picture e g (refused p) = goes_on (e, g)
  use_picture e g fault = overrun

  unfoldable pub picture_comment : Encoder → Gains d → Text → Step (Encoder × Gains d)
  unfolding use_picture
  picture_comment e g tagvalue = elim (base64_decode tagvalue) [
    | none ↦ error
    | some bytes ↦ use_picture e g (decode (new bytes))
  ]

  -- One comment by its name, which is made uppercase, and its value.
  unfoldable pub named_comment : Encoder → Gains d → Text → Text → Step (Encoder × Gains d)
  unfolding picture_comment metatag_map
  named_comment e g tagname tagvalue = elim (tag_of metatag_map tagname) [
    | some tag ↦ goes_on (set_text_tag e tag (c_str tagvalue), g)
    | none ↦
        if text_eq tagname picture_name
        then picture_comment e g tagvalue
        else goes_on (e, note_gain d strtod tagname (c_str tagvalue) g)
  ]

  -- One round of the loop over the comments.
  unfoldable pub comment_step : Encoder × Gains d → Text → Step (Encoder × Gains d)
  unfolding split_comment named_comment
  comment_step (e, g) comment = elim (split_comment comment) [
    | none ↦ goes_on (e, g)
    | some (tagname, tagvalue) ↦ named_comment e g (map toupper tagname) tagvalue
  ]

  unfoldable pub all_comments : Encoder × Gains d → List Text → Step (Encoder × Gains d)
  all_comments eg [] = goes_on eg
  all_comments eg (comment ∷ comments) = elim (comment_step eg comment) [
    | goes_on eg' ↦ all_comments eg' comments
    | error ↦ error
    | overrun ↦ overrun
  ]

  module _ (vorbis : Vorbis) (gainmode : ℕ) (params_gainref : d.Double) where
    open vorbis use {Stream, ov_info, ov_pcm_total, ov_comment}

    -- The comments of the stream, and the gain.
    unfoldable pub use_comments : Encoder → Option (List Text) → Step Encoder
    use_comments e none = error
    use_comments e (some user_comments) = elim (all_comments (e, no_gains d) user_comments) [
      | goes_on (e', g) ↦ goes_on (apply_gain d te gainmode params_gainref e' g)
      | error ↦ error
      | overrun ↦ overrun
    ]

    -- What follows `ov_info`. A number of samples that libvorbisfile does not know is its 64-bit
    -- pattern.
    unfoldable pub use_info : Stream → Encoder → VorbisInfo → Step Encoder
    unfolding use_comments
    use_info stream e info =
        if ltb 2 info.channels
        then error
        else elim (set_stream_params e (ov_pcm_total stream) info.rate info.channels) [
          | none ↦ error
          | some e' ↦ use_comments e' (ov_comment stream)
        ]

    unfoldable pub process_metadata :
        VorbisDecoder vorbis → Encoder → Step (VorbisDecoder vorbis × Encoder)
    unfolding use_info
    process_metadata dec e = elim dec.vf [
      | none ↦ error
      | some stream ↦ elim (ov_info stream) [
        | none ↦ error
        | some info ↦ elim (use_info stream e info) [
          | goes_on e' ↦ goes_on (record dec { vi = some info }, e')
          | error ↦ error
          | overrun ↦ overrun
        ]
      ]
    ]
