-- ===== src/FlacDecoder.antt =====
-- src/codecs/flac_decoder.h and src/codecs/flac_decoder.cc. libFLAC, which calls the callbacks, is a
-- parameter.
use mp3fs.Prelude.{
  c_str, ℕ, Bool, true, not, List, [], ◌∷◌, map, Option, none, some, ltb, if◌then◌else◌, Text,
  codes,
}
use mp3fs.Coders.{Doubles}
use mp3fs.Metadata.{
  Metatag, title, artist, album, genre, date, composer, performer, copyright, encodedby,
  organization, conductor, albumartist, tracknumber, tracktotal, discnumber, disctotal, toupper,
  tag_of, TagEncoder, Gains, no_gains, note_gain, apply_gain,
}
use mp3fs.Transcoder.{Status, more, ended, failed}

-- `kMetatagMap`.
unfoldable pub metatag_map : List (Text × Metatag)
metatag_map =
    (codes "TITLE", title)
    ∷ (codes "ARTIST", artist)
    ∷ (codes "ALBUM", album)
    ∷ (codes "GENRE", genre)
    ∷ (codes "DATE", date)
    ∷ (codes "COMPOSER", composer)
    ∷ (codes "PERFORMER", performer)
    ∷ (codes "COPYRIGHT", copyright)
    ∷ (codes "ENCODED_BY", encodedby)
    ∷ (codes "ORGANIZATION", organization)
    ∷ (codes "CONDUCTOR", conductor)
    ∷ (codes "ALBUMARTIST", albumartist)
    ∷ (codes "ALBUM ARTIST", albumartist)
    ∷ (codes "TRACKNUMBER", tracknumber)
    ∷ (codes "TRACKTOTAL", tracktotal)
    ∷ (codes "DISCNUMBER", discnumber)
    ∷ (codes "DISCTOTAL", disctotal)
    ∷ []

-- `FLAC::Metadata::StreamInfo`, as far as it is read.
pub record StreamInfo : Type 0 where
  pub total_samples : ℕ
  pub sample_rate : ℕ
  pub channels : ℕ

-- A metadata block. A comment has a field name and a field value; a picture is as in `Picture`.
pub data Block : Type 0 where
  streaminfo : StreamInfo → Block
  vorbis_comment : List (Text × Text) → Block
  picture : Text → ℕ → Text → List ℕ → ℕ → Block
  other : Block

-- A frame: the channels, the block size and the bits of a sample.
pub record Frame : Type 0 where
  pub buffer : List (List ℕ)
  pub blocksize : ℕ
  pub bits_per_sample : ℕ

-- libFLAC. `open_stream` opens a file, with its modified time, or fails. Reading the metadata
-- delivers blocks to `metadata_callback`. Reading a frame delivers it, if there is one, to
-- `write_callback`, and `aborted` is the decoder once that has returned ABORT. Both return whether
-- they succeed, and a decoder has a state number.
pub record Flac : Type 1 where
  pub Stream : Type 0
  pub open_stream : Text → Option (Stream × ℕ)
  pub process_until_end_of_metadata : Stream → Stream × List Block × Bool
  pub process_single : Stream → Stream × Option Frame × Bool
  pub aborted : Stream → Stream
  pub get_state : Stream → ℕ
  pub end_of_stream : ℕ

module _ (flac : Flac) where
  open flac use {
    Stream, open_stream, process_until_end_of_metadata, process_single, aborted, get_state,
    end_of_stream,
  }

  -- The members; the pointer to the encoder is passed on beside them.
  pub record FlacDecoder : Type 0 where
    pub stream : Option Stream
    pub mtime : ℕ
    pub info : StreamInfo
    pub has_streaminfo : Bool

  unfoldable pub open_file : FlacDecoder → Text → Option FlacDecoder
  open_file dec filename = elim (open_stream filename) [
    | none ↦ none
    | some (stream, st_mtime) ↦ some (record dec { stream = some stream; mtime = st_mtime })
  ]

  module _ (d : Doubles) (te : TagEncoder d) (strtod : Text → d.Double) (gainmode : ℕ)
      (params_gainref : d.Double) where
    open te use {Encoder, set_stream_params, set_text_tag, set_picture_tag}

    -- One comment. libFLAC gives the name and the value as C strings.
    unfoldable pub comment_step : Encoder × Gains d → Text × Text → Encoder × Gains d
    unfolding metatag_map
    comment_step (e, g) (field_name, field_value) =
        let fname = map toupper (c_str field_name) in
        elim (tag_of metatag_map fname) [
          | some tag ↦ (set_text_tag e tag (c_str field_value), g)
          | none ↦ (e, note_gain d strtod fname (c_str field_value) g)
        ]

    -- The loop over the comments.
    unfoldable pub all_comments : Encoder × Gains d → List (Text × Text) → Encoder × Gains d
    all_comments eg [] = eg
    all_comments eg (comment ∷ comments) = all_comments (comment_step eg comment) comments

    -- The encoder is that of `encoder_c_`.
    unfoldable pub metadata_callback : FlacDecoder × Encoder → Block → FlacDecoder × Encoder
    unfolding all_comments
    metadata_callback (dec, e) (streaminfo info) =
        (record dec { info = info; has_streaminfo = true }, e)
    metadata_callback (dec, e) (vorbis_comment comments) =
        let (e', g) = all_comments (e, no_gains d) comments in
        (dec, apply_gain d te gainmode params_gainref e' g)
    metadata_callback (dec, e) (picture mime_type type description bytes data_length) =
        (dec, set_picture_tag e mime_type type description bytes data_length)
    metadata_callback (dec, e) other = (dec, e)

    unfoldable pub all_blocks : FlacDecoder × Encoder → List Block → FlacDecoder × Encoder
    all_blocks de [] = de
    all_blocks de (block ∷ blocks) = all_blocks (metadata_callback de block) blocks

    -- The blocks are delivered, and the stream parameters follow. `none`: -1.
    unfoldable pub read_metadata :
        FlacDecoder → Encoder → Stream × List Block × Bool → Option (FlacDecoder × Encoder)
    read_metadata dec e (stream, blocks, fine) =
        let (dec', e') = all_blocks (record dec { stream = some stream }, e) blocks in
        if not fine
        then none
        else (if not dec'.has_streaminfo
            then none
            else elim (set_stream_params e' dec'.info.total_samples dec'.info.sample_rate
                dec'.info.channels) [ none ↦ none | some e'' ↦ some (dec', e'') ])

    -- A decoder that has no file fails.
    unfoldable pub process_metadata : FlacDecoder → Encoder → Option (FlacDecoder × Encoder)
    unfolding read_metadata
    process_metadata dec e = elim dec.stream [
      | none ↦ none
      | some stream ↦ read_metadata dec e (process_until_end_of_metadata stream)
    ]

  -- `encode_pcm_data` returns -1 by `none`.
  module _ {Encoder : Type 0}
      (encode_pcm_data : Encoder → List (List ℕ) → ℕ → ℕ → Option Encoder) where
    -- `write_callback`; `none`: ABORT.
    unfoldable pub write_callback : Encoder → Frame → Option Encoder
    write_callback e frame = encode_pcm_data e frame.buffer frame.blocksize frame.bits_per_sample

    -- What `process_single` has read is handed to the callback.
    unfoldable pub deliver_frame :
        FlacDecoder → Encoder → Stream × Option Frame × Bool → Status × FlacDecoder × Encoder
    deliver_frame dec e (stream, none, fine) =
        (if fine then more else failed, record dec { stream = some stream }, e)
    deliver_frame dec e (stream, some frame, fine) = elim (write_callback e frame) [
      | none ↦ (failed, record dec { stream = some (aborted stream) }, e)
      | some e' ↦ (if fine then more else failed, record dec { stream = some stream }, e')
    ]

    unfoldable pub process_single_fr : FlacDecoder → Encoder → Status × FlacDecoder × Encoder
    unfolding deliver_frame
    process_single_fr dec e = elim dec.stream [
      | none ↦ (failed, dec, e)
      | some stream ↦
          if ltb (get_state stream) end_of_stream
          then deliver_frame dec e (process_single stream)
          else (ended, dec, e)
    ]
