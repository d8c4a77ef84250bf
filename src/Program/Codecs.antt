-- ===== src/Program/Codecs.antt =====
-- src/codecs/coders.cc: the decoders and the encoder behind the interface that src/transcode.cc uses.
use mp3fs.Prelude.{ℕ, false, not, List, [], ◌∷◌, Option, none, some, ◌==◌, take, Text}
use mp3fs.Params.{Params}
use mp3fs.Buffer.{Buffer}
use mp3fs.Coders.{
  Build, Doubles, flac_decoder, vorbis_decoder, mp3_encoder, create_decoder, create_encoder,
}
use mp3fs.Metadata.{TagEncoder}
use mp3fs.Mp3Encoder.{
  Finish, finished, refused, thrown, outside, Lame, Id3, Mp3Encoder, render_tag, encode_pcm_data,
  encode_finish,
}
use mp3fs.Mp3Encoder.Tags.{tag_encoder}
use mp3fs.Mp3Encoder.Tags
use mp3fs.FlacDecoder
use mp3fs.FlacDecoder.{Flac, FlacDecoder}
use mp3fs.VorbisDecoder.Comments
use mp3fs.VorbisDecoder.Comments.{Vorbis, VorbisDecoder, Step, goes_on, error, overrun}
use mp3fs.VorbisDecoder.Frames.{process_frame}
use mp3fs.Transcoder
use mp3fs.Transcoder.{Status}

-- The build and the libraries that it stands on. `widen` is the conversion of a `float`, by its
-- pattern, to a `double`.
pub record Platform : Type 1 where
  pub build : Build
  pub lame : Lame
  pub id3 : Id3
  pub flac : Flac
  pub vorbis : Vorbis
  pub doubles : Doubles
  pub strtod : Text → doubles.Double
  pub amplitude : doubles.Double → lame.Scale
  pub base64_decode : Text → Option (List ℕ)
  pub widen : ℕ → doubles.Double
  pub package_name : Text

-- What an `encode_finish` gives, and what it leaves where it gives none. The exception and the write
-- outside the vector, after which the program has no defined behaviour, stand with the refusals:
-- a theorem about a file whose encoding may end so has a hypothesis that excludes them.
unfoldable pub finished_buffer : Finish → Option Buffer
finished_buffer (finished b) = some b
finished_buffer (refused b) = none
finished_buffer thrown = none
finished_buffer outside = none

unfoldable pub left_buffer : Buffer → Finish → Buffer
left_buffer b (finished b') = b'
left_buffer b (refused b') = b'
left_buffer b thrown = b
left_buffer b outside = b

module _ (platform : Platform) (params : Params) where
  open platform use {build, lame, id3, flac, vorbis, doubles, strtod, base64_decode, widen}

  abbrev pub Encoder : Type 0
  Encoder = Mp3Encoder lame id3 params

  abbrev pub tags : TagEncoder doubles
  tags = tag_encoder lame id3 params doubles platform.amplitude

  -- `data[0]` and `data[1]`; a channel that is not there is empty.
  abbrev pub first_channel : List (List ℕ) → List ℕ
  first_channel [] = []
  first_channel (c ∷ rest) = c

  abbrev pub second_channel : List (List ℕ) → List ℕ
  second_channel [] = []
  second_channel (c ∷ rest) = first_channel rest

  -- The encoder with the buffer that it was created with.
  unfoldable pub encode : Encoder × Buffer → List (List ℕ) → ℕ → ℕ → Option (Encoder × Buffer)
  encode (e, b) channels numsamples sample_size =
      encode_pcm_data lame id3 params e b (take numsamples (first_channel channels))
        (take numsamples (second_channel channels)) sample_size

  -- An object of a class derived from `Decoder`.
  pub data AnyDecoder : Type 0 where
    flac_file : FlacDecoder flac → AnyDecoder
    vorbis_file : VorbisDecoder vorbis → AnyDecoder

  unfoldable pub make_decoder : Text → Option AnyDecoder
  make_decoder file_type = elim (create_decoder build file_type) [
    | none ↦ none
    | some flac_decoder ↦ some (
        flac_file (record {
          stream = none;
          mtime = 0;
          info = record { total_samples = 0; sample_rate = 0; channels = 0 };
          has_streaminfo = false;
        }))
    | some vorbis_decoder ↦ some (vorbis_file (record { mtime = 0; vf = none; vi = none }))
  ]

  unfoldable pub make_encoder : Text → Option Encoder
  make_encoder file_type = elim (create_encoder build file_type) [
    | none ↦ none
    | some mp3_encoder ↦ some (Tags.new lame id3 params platform.package_name)
  ]

  unfoldable pub open_any : AnyDecoder → Text → Option AnyDecoder
  open_any (flac_file dec) filename = elim (FlacDecoder.open_file flac dec filename) [
    | none ↦ none
    | some dec' ↦ some (flac_file dec')
  ]
  open_any (vorbis_file dec) filename = elim (Comments.open_file vorbis dec filename) [
    | none ↦ none
    | some dec' ↦ some (vorbis_file dec')
  ]

  abbrev pub mtime_of : AnyDecoder → ℕ
  mtime_of (flac_file dec) = dec.mtime
  mtime_of (vorbis_file dec) = dec.mtime

  unfoldable pub metadata_of : AnyDecoder → Encoder → Option (AnyDecoder × Encoder)
  metadata_of (flac_file dec) e =
      elim (FlacDecoder.process_metadata flac doubles tags strtod params.gainmode
        (widen params.gainref) dec e) [ none ↦ none | some (dec', e') ↦ some (flac_file dec', e') ]
  metadata_of (vorbis_file dec) e =
      elim (Comments.process_metadata doubles tags strtod base64_decode vorbis params.gainmode
        (widen params.gainref) dec e) [
          | goes_on (dec', e') ↦ some (vorbis_file dec', e')
          | error ↦ none
          | overrun ↦ none
        ]

  unfoldable pub frame_of : AnyDecoder → Encoder → Buffer → Status × AnyDecoder × Encoder × Buffer
  frame_of (flac_file dec) e b =
      let (status, dec', (e', b')) = FlacDecoder.process_single_fr flac encode dec (e, b) in
      (status, flac_file dec', e', b')
  frame_of (vorbis_file dec) e b =
      let (status, dec', (e', b')) = process_frame vorbis encode dec (e, b) in
      (status, vorbis_file dec', e', b')

  abbrev pub codecs : Transcoder.Codecs
  codecs = record {
    Decoder = AnyDecoder;
    Encoder = Encoder;
    create_decoder = make_decoder;
    create_encoder = make_encoder;
    open_file = open_any;
    mtime = mtime_of;
    process_metadata = metadata_of;
    render_tag = λ e file_size b. render_tag lame id3 params e b file_size;
    process_single_fr = frame_of;
    encode_finish = λ e b. finished_buffer (encode_finish lame id3 params e b);
    refused_buffer = λ e b. left_buffer b (encode_finish lame id3 params e b);
    no_partial_encode = λ _. not (params.vbr == 0);
  }
