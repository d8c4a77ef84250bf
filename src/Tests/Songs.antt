-- ===== src/Tests/Songs.antt =====
-- src/codecs/vorbis_decoder.cc on a stereo buffer of two samples for each channel; comments and a
-- picture for it and for src/codecs/flac_decoder.cc, with an encoder that lists its calls; and a
-- frame that the encoder refuses.
use mp3fs.Prelude.{
  ℕ, zero, suc, ◌≡◌, refl, Bool, true, false, List, [], ◌∷◌, ◌++◌, map, Option, none, some, arith,
  length, Text, codes,
}
use mp3fs.Metadata.{toupper, TagEncoder, Gains}
use mp3fs.Picture.Format.{encode}
use mp3fs.FlacDecoder
use mp3fs.FlacDecoder.{
  Flac, FlacDecoder, Frame, picture, streaminfo, metadata_callback, process_single_fr,
}
use mp3fs.VorbisDecoder.{got_bytes, frame_of}
use mp3fs.VorbisDecoder.Comments.{picture_name, goes_on, comment_step}
use mp3fs.VorbisDecoder.Samples.{IsFrame, frame_of-IsFrame}
use mp3fs.VorbisDecoder.SameTags.{raw, comment_step-picture}
use mp3fs.Tests.Pictures.{whole_decibels, unused}

abbrev stereo : List ℕ
stereo = 1 ∷ 2 ∷ 3 ∷ 4 ∷ []

frame_of-IsFrame_example : IsFrame stereo 2 8 (frame_of stereo 2 (got_bytes 8))
frame_of-IsFrame_example = frame_of-IsFrame stereo 2 8 (omega arith) (omega arith)

-- An encoder that lists the texts that it is given.
abbrev texts : TagEncoder whole_decibels
texts = record {
  Encoder = List Text;
  set_stream_params = λ e _ _ _. some e;
  set_text_tag = λ e _ value. value ∷ e;
  set_picture_tag = λ e _ _ _ bytes _. bytes ∷ e;
  set_gain_db = λ e _. e;
}

-- A libFLAC whose streams are the number of frames that are left, each of one sample; a stream that
-- is aborted has ended.
unfoldable pub state_of : ℕ → ℕ
state_of zero = 4
state_of (suc n) = 2

abbrev one_sample : Frame
one_sample = record { buffer = (1 ∷ []) ∷ (1 ∷ []) ∷ []; blocksize = 1; bits_per_sample = 16 }

unfoldable pub next_sample : ℕ → ℕ × Option Frame × Bool
next_sample zero = (0, none, false)
next_sample (suc n) = (n, some one_sample, true)

abbrev pub two_samples : Flac
two_samples = record {
  Stream = ℕ;
  open_stream = λ _. some (2, 10);
  process_until_end_of_metadata = λ s.
      (s, streaminfo (record { total_samples = 2; sample_rate = 44100; channels = 2 }) ∷ [], true);
  process_single = next_sample;
  aborted = λ _. 0;
  get_state = state_of;
  end_of_stream = 4;
}

abbrev pub opened_flac : FlacDecoder two_samples
opened_flac = record {
  stream = some 2;
  mtime = 10;
  info = record { total_samples = 2; sample_rate = 44100; channels = 2 };
  has_streaminfo = true;
}

abbrev comments : List (Text × Text)
comments = (codes "Title", codes "Song") ∷ (codes "REPLAYGAIN_TRACK_GAIN", codes "1234") ∷ []

abbrev gains : Gains whole_decibels
gains = record { gainref = 1000; album_gain = 1000; track_gain = 1000 }

abbrev key : Text
key = codes "metadata_block_picture"

key_upper : map toupper key ≡ picture_name
unfolding toupper
key_upper = refl

comment_step-picture_example :
    comment_step whole_decibels texts length some
      ([], gains)
      (raw (key, encode 3 (codes "image/png") (codes "front") unused (1 ∷ 2 ∷ []) ++ []))
    ≡ goes_on (
      (metadata_callback two_samples whole_decibels texts length 1 89
          (opened_flac, [])
          (picture
            (codes "image/png")
            3
            (codes "front")
            (1 ∷ 2 ∷ [])
            (length {A = ℕ} (1 ∷ 2 ∷ [])))).1,
      gains,
    )
comment_step-picture_example =
    comment_step-picture whole_decibels texts length some two_samples 1 89 opened_flac [] gains key
      (encode 3 (codes "image/png") (codes "front") unused (1 ∷ 2 ∷ []) ++ []) 3 (codes "image/png")
      (codes "front") unused (1 ∷ 2 ∷ []) [] (omega arith) (omega arith) key_upper refl
      (omega arith) (omega arith) (omega arith) refl (omega arith) (omega arith) (omega arith)
      (omega arith)
