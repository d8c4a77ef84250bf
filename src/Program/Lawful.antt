-- ===== src/Program/Lawful.antt =====
-- The decoders of src/codecs/flac_decoder.cc and src/codecs/vorbis_decoder.cc with the encoder of
-- src/codecs/mp3_encoder.cc do what src/transcode.cc relies on.
use mp3fs.Prelude.{
  none, ◌+◌, half, length, ℕ, ◌≤◌, ◌<◌, ◌≡◌, refl, inl, inr, Bool, true, false, List, Option, none,
  some, arith, ltb, ltb→lt, Option-cases, Bool-cases,
}
use mp3fs.Params.{Params}
use mp3fs.Buffer.{Buffer, size}
use mp3fs.Buffer.View.{IsValid}
use mp3fs.Mp3Encoder.{
  buffer_slop, Lame, Id3, Mp3Encoder, Finish, finished, refused, thrown, outside, encode_finish,
  write_end_of_file, write_vbr_tag, close_file,
}
use mp3fs.Buffer.Keeps.{Keeps, Keeps-refl}
use mp3fs.Mp3Encoder.Keeps.{encode_finish-IsComplete, encode_finish-Keeps}
use mp3fs.FlacDecoder.{FlacDecoder, Frame, write_callback, deliver_frame, process_single_fr}
use mp3fs.VorbisDecoder
use mp3fs.VorbisDecoder.{ReadBytes, got_bytes, bad_read}
use mp3fs.VorbisDecoder.Comments.{VorbisDecoder}
use mp3fs.VorbisDecoder.Frames.{use_buffer, process_frame}
use mp3fs.Transcoder.{more}
use mp3fs.Transcoder.Loop.{Laws}
use mp3fs.Transcoder.Stays.{IsStable}
use mp3fs.Program.Codecs.{
  finished_buffer, left_buffer, Platform, Encoder, encode, AnyDecoder, flac_file, vorbis_file,
  frame_of, codecs,
}
use mp3fs.Program.Holding.{Target, pass, frame_of-Holds}

pub finished_of : (f : Finish) (b : Buffer) → finished_buffer f ≡ some b → f ≡ finished b
unfolding finished_buffer
finished_of (finished b') b h = ground arith
finished_of (refused b') b h = absurd (cc)
finished_of thrown b h = absurd (cc)
finished_of outside b h = absurd (cc)

-- At a constant bit rate, a refusal leaves the buffer as it was.
refused-Keeps_lem :
    (lame : Lame) (id3 : Id3) (params : Params) (e : Mp3Encoder lame id3 params) (b : Buffer)
    → params.vbr ≡ 0
    → finished_buffer (encode_finish lame id3 params e b) ≡ none
    → Keeps b (left_buffer b (encode_finish lame id3 params e b))
unfolding finished_buffer left_buffer encode_finish write_end_of_file write_vbr_tag
refused-Keeps_lem lame id3 params e b cbr h =
    elim (Option-cases (lame.encode_flush e.lame_encoder buffer_slop).1) [
      | inl broken ↦ ground (arith, broken, Keeps-refl b)
      | inr (bytes, out) ↦ elim (Option-cases (close_file lame id3 params b bytes)) [
        | inl long ↦ ground (arith, out, long, Keeps-refl b)
        | inr (c, closed) ↦ absurd (ground (arith, out, closed))
      ]
    ]

-- A file has a finite number of frames, and a call that reads one without an error takes it. LAME
-- flushes no more than fits in the buffer that it is given.
pub record IsReliable (platform : Platform) : Type 0 where
  pub flac_frames : platform.flac.Stream → ℕ
  pub flac_lem :
      (s : platform.flac.Stream)
      → platform.flac.get_state s < platform.flac.end_of_stream
      → (platform.flac.process_single s).2 ≡ true
      → flac_frames (platform.flac.process_single s).0 < flac_frames s
  pub vorbis_frames : platform.vorbis.Stream → ℕ
  pub vorbis_lem :
      (s : platform.vorbis.Stream) (n : ℕ)
      → (platform.vorbis.ov_read s).2 ≡ got_bytes n
      → 2 ≤ n
      → vorbis_frames (platform.vorbis.ov_read s).0 < vorbis_frames s
  pub flush_lem :
      (s : platform.lame.State) (size : ℕ) (bytes : List ℕ)
      → (platform.lame.encode_flush s size).1 ≡ some bytes
      → length bytes ≤ size

module _ (platform : Platform) (params : Params) where
  open platform use {flac, vorbis, lame, id3}

  module _ (libs : IsReliable platform) where
    -- The frames that a decoder has left.
    abbrev pub frames_left : AnyDecoder platform params → ℕ
    frames_left (flac_file dec) = elim dec.stream [ none ↦ 0 | some s ↦ libs.flac_frames s ]
    frames_left (vorbis_file dec) = elim dec.vf [ none ↦ 0 | some s ↦ libs.vorbis_frames s ]

    deliver_frame-more :
        (dec : FlacDecoder flac) (e : Target platform params)
        (read : flac.Stream × Option Frame × Bool)
        → (deliver_frame flac (encode platform params) dec e read).0 ≡ more
        → (read.2 ≡ true)
          × ((deliver_frame flac (encode platform params) dec e read).1.stream ≡ some read.0)
    unfolding deliver_frame write_callback
    deliver_frame-more dec e (stream, none, true) h = (refl, refl)
    deliver_frame-more dec e (stream, none, false) h = absurd (cc)
    deliver_frame-more dec e (stream, some frame, fine) h =
        elim (Option-cases
          (encode platform params e frame.buffer frame.blocksize frame.bits_per_sample)) [
            | inl failing ↦ absurd (ground arith)
            | inr (e', done) ↦ (ground arith, ground arith)
          ]

    flac-more :
        (dec : FlacDecoder flac) (e : Target platform params)
        → (process_single_fr flac (encode platform params) dec e).0 ≡ more
        → frames_left (flac_file (process_single_fr flac (encode platform params) dec e).1)
          < frames_left (flac_file dec)
    unfolding process_single_fr
    flac-more dec e h = elim (Option-cases dec.stream) [
      | inl closed ↦ absurd (ground arith)
      | inr (s, has) ↦ elim (Bool-cases (ltb (flac.get_state s) flac.end_of_stream)) [
        | inr over ↦ absurd (ground arith)
        | inl reading ↦
            let (fine, taken) = deliver_frame-more dec e (flac.process_single s) (ground arith) in
            ground (arith, taken, libs.flac_lem s (ltb→lt _ _ reading) fine)
      ]
    ]

    -- A frame that goes on has at least one sample.
    send-more :
        (buf : List ℕ) (channels : ℕ) (rb : ReadBytes) (e e' : Target platform params)
        → VorbisDecoder.send (pass platform params) e (VorbisDecoder.frame_of buf channels rb)
          ≡ some (more, e')
        → (n : ℕ) × (rb ≡ got_bytes n) × (2 ≤ n)
    unfolding VorbisDecoder.send VorbisDecoder.frame_of
    send-more buf channels (bad_read n) e e' h = absurd (ground arith)
    send-more buf channels (got_bytes n) e e' h = (n, refl, ground arith)

    vorbis-more :
        (dec : VorbisDecoder vorbis) (e : Target platform params)
        → (process_frame vorbis (encode platform params) dec e).0 ≡ more
        → frames_left (vorbis_file (process_frame vorbis (encode platform params) dec e).1)
          < frames_left (vorbis_file dec)
    unfolding process_frame use_buffer VorbisDecoder.process_single_fr
    vorbis-more dec e h = elim (Option-cases dec.vf) [
      | inl closed ↦ absurd (ground arith)
      | inr (s, has) ↦ elim (Option-cases dec.vi) [
        | inl unknown ↦ absurd (ground arith)
        | inr (info, known) ↦
            let (s', buf, rb) = vorbis.ov_read s in
            elim (Option-cases (
              VorbisDecoder.send (pass platform params) e
                (VorbisDecoder.frame_of buf info.channels rb))) [
                  | inl out ↦ absurd (ground arith)
                  | inr ((status, e'), sent) ↦
                      let goes : status ≡ more = ground arith in
                      let (n, bytes, some_sample) =
                        send-more buf info.channels rb e e' (rw goes at sent) in
                      ground (arith, libs.vorbis_lem s n bytes some_sample)
                ]
      ]
    ]

    pub frame_of-more :
        (dec : AnyDecoder platform params) (e : Encoder platform params) (b : Buffer)
        → (frame_of platform params dec e b).0 ≡ more
        → frames_left (frame_of platform params dec e b).1 < frames_left dec
    unfolding frame_of
    frame_of-more (flac_file dec) e b h = flac-more dec (e, b) h
    frame_of-more (vorbis_file dec) e b h = vorbis-more dec (e, b) h

    -- The buffer is valid, and has room for what LAME flushes.
    abbrev pub Ready : Buffer → Type 0
    Ready b = IsValid b × (size b + buffer_slop < half)

    pub frame_of-Ready :
        (dec : AnyDecoder platform params) (e : Encoder platform params) (b : Buffer)
        → Ready b
        → Ready (frame_of platform params dec e b).3
    frame_of-Ready dec e b (v, room) =
        let (v', kept) = frame_of-Holds platform params dec e b v in (v', rw kept.same_size room)

    -- The codecs of the program do what a transcoder relies on.
    abbrev pub lawful : Laws (codecs platform params)
    lawful = record {
      frames_left = frames_left;
      more_lem = frame_of-more;
      IsReady = Ready;
      IsReady-IsValid = λ b ready. ready.0;
      process-IsReady = λ d e b ready _. frame_of-Ready d e b ready;
      finish-IsComplete = λ e b b' ready h.
          encode_finish-IsComplete lame id3 params e b b'
            (λ bytes out. libs.flush_lem e.lame_encoder buffer_slop bytes out) ready.0 ready.1
            (finished_of (encode_finish lame id3 params e b) b' h);
    }

    -- With a constant bit rate and no cache of sizes, they only write what was not known.
    pub stable : params.vbr ≡ 0 → params.statcachesize ≡ 0 → IsStable (codecs platform params)
    stable cbr uncached = record {
      process-Keeps = λ d e b v. (frame_of-Holds platform params d e b v).1;
      finish-Keeps = λ e b b' v h.
          encode_finish-Keeps lame id3 params e b b' cbr uncached v
            (finished_of (encode_finish lame id3 params e b) b' h);
      refused-Keeps = λ e b v h. refused-Keeps_lem lame id3 params e b cbr h;
    }
