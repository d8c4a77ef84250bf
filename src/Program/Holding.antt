-- ===== src/Program/Holding.antt =====
-- src/codecs/flac_decoder.cc and src/codecs/vorbis_decoder.cc: a frame and the buffer of the
-- encoder.
use mp3fs.Prelude.{ℕ, ◌≡◌, subst, inl, inr, Bool, List, Option, none, some, arith, Option-cases}
use mp3fs.Params.{Params}
use mp3fs.Buffer.{Buffer}
use mp3fs.Buffer.View.{IsValid}
use mp3fs.Buffer.Keeps.{Keeps, Keeps-refl}
use mp3fs.Mp3Encoder.Keeps.{encode_pcm_data-Keeps}
use mp3fs.FlacDecoder.{FlacDecoder, Frame, write_callback, deliver_frame, process_single_fr}
use mp3fs.VorbisDecoder
use mp3fs.VorbisDecoder.{ReadBytes, got_bytes, bad_read}
use mp3fs.VorbisDecoder.Comments.{VorbisDecoder}
use mp3fs.VorbisDecoder.Frames.{use_buffer, process_frame}
use mp3fs.Transcoder.{Status}
use mp3fs.Program.Codecs.{Platform, Encoder, encode, AnyDecoder, flac_file, vorbis_file, frame_of}

module _ (platform : Platform) (params : Params) where
  open platform use {flac, vorbis, lame, id3}

  abbrev pub Target : Type 0
  Target = Encoder platform params × Buffer

  encode-Keeps :
      (e e' : Target) (channels : List (List ℕ)) (numsamples sample_size : ℕ)
      → IsValid e.1
      → encode platform params e channels numsamples sample_size ≡ some e'
      → IsValid e'.1 × Keeps e.1 e'.1
  unfolding encode
  encode-Keeps (e, b) (e', b') channels numsamples sample_size v done =
      encode_pcm_data-Keeps lame id3 params e e' b b' _ _ sample_size v done

  -- What a frame leaves of the buffer.
  abbrev pub Holds : Buffer → Buffer → Type 0
  Holds b b' = IsValid b' × Keeps b b'

  deliver_frame-Holds :
      (dec : FlacDecoder flac) (e : Target) (read : flac.Stream × Option Frame × Bool)
      → IsValid e.1
      → Holds e.1 (deliver_frame flac (encode platform params) dec e read).2.1
  unfolding deliver_frame write_callback
  deliver_frame-Holds dec e (stream, none, fine) v = (v, Keeps-refl e.1)
  deliver_frame-Holds dec e (stream, some frame, fine) v =
      elim (Option-cases
        (encode platform params e frame.buffer frame.blocksize frame.bits_per_sample)) [
          | inl failing ↦ ground (arith, v, Keeps-refl e.1)
          | inr (e', done) ↦
              ground
                (arith, encode-Keeps e e' frame.buffer frame.blocksize frame.bits_per_sample v done)
        ]

  flac-Holds :
      (dec : FlacDecoder flac) (e : Target)
      → IsValid e.1
      → Holds e.1 (process_single_fr flac (encode platform params) dec e).2.1
  unfolding process_single_fr
  flac-Holds dec e v = elim (Option-cases dec.stream) [
    | inl closed ↦ ground (arith, v, Keeps-refl e.1)
    | inr (stream, has) ↦
        ground (arith, v, Keeps-refl e.1, deliver_frame-Holds dec e (flac.process_single stream) v)
  ]

  -- `encode` with its arguments as `process_single_fr` of the Vorbis decoder passes them.
  abbrev pub pass : List (List ℕ) → ℕ → ℕ → Target → Option Target
  pass channels numsamples sample_size e = encode platform params e channels numsamples sample_size

  send-Holds :
      (e e' : Target) (f : VorbisDecoder.Frame) (status : Status)
      → IsValid e.1
      → VorbisDecoder.send pass e f ≡ some (status, e')
      → Holds e.1 e'.1
  unfolding VorbisDecoder.send
  send-Holds e e' (VorbisDecoder.over st) status v h =
      let same : e ≡ e' = ground arith in
      subst (λ (x : Target). Holds e.1 x.1) same (v, Keeps-refl e.1)
  send-Holds e e' VorbisDecoder.overrun status v h = absurd (cc)
  send-Holds e e' (VorbisDecoder.encode xss n) status v h = elim (Option-cases (pass xss n 16 e)) [
    | inl failing ↦
        let same : e ≡ e' = ground arith in
        subst (λ (x : Target). Holds e.1 x.1) same (v, Keeps-refl e.1)
    | inr (t, took) ↦
        let same : t ≡ e' = ground arith in
        subst (λ (x : Target). Holds e.1 x.1) same (encode-Keeps e t xss n 16 v took)
  ]

  use_buffer-Holds :
      (dec : VorbisDecoder vorbis) (e : Target) (f : VorbisDecoder.Frame)
      → IsValid e.1
      → Holds e.1
          (use_buffer vorbis (encode platform params) dec (VorbisDecoder.send pass e f) e).2.1
  unfolding use_buffer
  use_buffer-Holds dec e f v = elim (Option-cases (VorbisDecoder.send pass e f)) [
    | inl out ↦ ground (arith, v, Keeps-refl e.1)
    | inr ((status, e'), sent) ↦ ground (arith, send-Holds e e' f status v sent)
  ]

  vorbis-Holds :
      (dec : VorbisDecoder vorbis) (e : Target)
      → IsValid e.1
      → Holds e.1 (process_frame vorbis (encode platform params) dec e).2.1
  unfolding process_frame VorbisDecoder.process_single_fr
  vorbis-Holds dec e v = elim (Option-cases dec.vf) [
    | inl closed ↦ ground (arith, v, Keeps-refl e.1)
    | inr (stream, has) ↦ elim (Option-cases dec.vi) [
      | inl unknown ↦ ground (arith, v, Keeps-refl e.1)
      | inr (info, known) ↦
          let (stream', buf, rb) = vorbis.ov_read stream in
          ground (
            arith,
            use_buffer-Holds (record dec { vf = some stream' }) e
                (VorbisDecoder.frame_of buf info.channels rb) v,
          )
    ]
  ]

  pub frame_of-Holds :
      (dec : AnyDecoder platform params) (e : Encoder platform params) (b : Buffer)
      → IsValid b
      → Holds b (frame_of platform params dec e b).3
  unfolding frame_of
  frame_of-Holds (flac_file dec) e b v = flac-Holds dec (e, b) v
  frame_of-Holds (vorbis_file dec) e b v = vorbis-Holds dec (e, b) v
