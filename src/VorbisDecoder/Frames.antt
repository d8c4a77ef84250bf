-- ===== src/VorbisDecoder/Frames.antt =====
-- src/codecs/vorbis_decoder.cc: `process_single_fr` on the members of the decoder.
use mp3fs.Prelude.{ℕ, List, Option, none, some}
use mp3fs.Transcoder.{Status, failed}
use mp3fs.VorbisDecoder.{process_single_fr}
use mp3fs.VorbisDecoder.Comments.{Vorbis, VorbisDecoder}

module _ (vorbis : Vorbis) {Encoder : Type 0}
    (encode_pcm_data : Encoder → List (List ℕ) → ℕ → ℕ → Option Encoder) where
  -- The buffer that `ov_read` has filled; a read outside it is no frame.
  unfoldable pub use_buffer :
      VorbisDecoder vorbis
      → Option (Status × Encoder)
      → Encoder
      → Status × VorbisDecoder vorbis × Encoder
  use_buffer dec none e = (failed, dec, e)
  use_buffer dec (some (status, e')) e = (status, dec, e')

  -- A decoder that has no file or no stream information fails.
  unfoldable pub process_frame :
      VorbisDecoder vorbis → Encoder → Status × VorbisDecoder vorbis × Encoder
  unfolding use_buffer
  process_frame dec e = elim dec.vf [
    | none ↦ (failed, dec, e)
    | some stream ↦ elim dec.vi [
      | none ↦ (failed, dec, e)
      | some info ↦
          let (stream', decode_buffer, read_bytes) = vorbis.ov_read stream in
          use_buffer (record dec { vf = some stream' })
            (process_single_fr
              (λ channels numsamples sample_size e'.
                encode_pcm_data e' channels numsamples sample_size)
              decode_buffer info.channels read_bytes e)
            e
    ]
  ]
