-- ===== src/Program/Dates.antt =====
-- src/codecs/coders.h: the modified time of a file, while it is decoded.
use mp3fs.Prelude.{◌≡◌, refl, inl, inr, Bool, Option, none, some, arith, Option-cases}
use mp3fs.Params.{Params}
use mp3fs.Buffer.{Buffer}
use mp3fs.FlacDecoder.{FlacDecoder, Frame, deliver_frame, process_single_fr}
use mp3fs.VorbisDecoder
use mp3fs.VorbisDecoder.Comments.{VorbisDecoder}
use mp3fs.VorbisDecoder.Frames.{use_buffer, process_frame}
use mp3fs.Transcoder.{Status}
use mp3fs.Program.Codecs.{
  Platform, Encoder, encode, AnyDecoder, flac_file, vorbis_file, mtime_of, frame_of,
}

module _ (platform : Platform) (params : Params) where
  open platform use {flac, vorbis}

  abbrev Target : Type 0
  Target = Encoder platform params × Buffer

  deliver_frame-mtime :
      (dec : FlacDecoder flac) (e : Target) (read : flac.Stream × Option Frame × Bool)
      → (deliver_frame flac (encode platform params) dec e read).1.mtime ≡ dec.mtime
  unfolding deliver_frame
  deliver_frame-mtime dec e (stream, none, fine) = refl
  deliver_frame-mtime dec e (stream, some frame, fine) = ground arith

  flac-mtime :
      (dec : FlacDecoder flac) (e : Target)
      → (process_single_fr flac (encode platform params) dec e).1.mtime ≡ dec.mtime
  unfolding process_single_fr
  flac-mtime dec e = elim (Option-cases dec.stream) [
    | inl closed ↦ ground arith
    | inr (stream, has) ↦ ground (arith, deliver_frame-mtime dec e (flac.process_single stream))
  ]

  use_buffer-mtime :
      (dec : VorbisDecoder vorbis) (sent : Option (Status × Target)) (e : Target)
      → (use_buffer vorbis (encode platform params) dec sent e).1.mtime ≡ dec.mtime
  unfolding use_buffer
  use_buffer-mtime dec none e = refl
  use_buffer-mtime dec (some (status, e')) e = refl

  vorbis-mtime :
      (dec : VorbisDecoder vorbis) (e : Target)
      → (process_frame vorbis (encode platform params) dec e).1.mtime ≡ dec.mtime
  unfolding process_frame
  vorbis-mtime dec e = elim (Option-cases dec.vf) [
    | inl closed ↦ ground arith
    | inr (stream, has) ↦ elim (Option-cases dec.vi) [
      | inl unknown ↦ ground arith
      | inr (info, known) ↦
          let (stream', buf, rb) = vorbis.ov_read stream in
          let sent =
            VorbisDecoder.process_single_fr
              (λ channels numsamples sample_size e'.
                encode platform params e' channels numsamples sample_size)
              buf info.channels rb e in
          ground (arith, has, known, use_buffer-mtime (record dec { vf = some stream' }) sent e)
    ]
  ]

  -- A frame leaves the modified time.
  pub frame_of-mtime :
      (dec : AnyDecoder platform params) (e : Encoder platform params) (b : Buffer)
      → mtime_of platform params (frame_of platform params dec e b).1 ≡ mtime_of platform params dec
  unfolding frame_of
  frame_of-mtime (flac_file dec) e b = flac-mtime dec (e, b)
  frame_of-mtime (vorbis_file dec) e b = vorbis-mtime dec (e, b)
