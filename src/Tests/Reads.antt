-- ===== src/Tests/Reads.antt =====
-- src/transcode.cc: a session of reads of a file with a decoder that counts its frames down.
use mp3fs.Prelude.{
  false, true, ◌≤◌, ◌⊎◌, ℕ, zero, suc, ◌≡◌, refl, inr, List, [], ◌∷◌, some, arith, codes,
}
use mp3fs.Buffer.{Buffer, size, extend, valid_bytes}
use mp3fs.Buffer.View.{IsValid}
use mp3fs.Buffer.Keeps.{Keeps, Keeps-refl, write-Keeps, extend-Keeps}
use mp3fs.Transcoder.{Codecs, Result, eio, Transcoder, read}
use mp3fs.Transcoder.Loop.{Laws, Failure}
use mp3fs.Transcoder.Whole.{IsSettled, Rereads, read-whole}
use mp3fs.Transcoder.Stays.{IsStable}
use mp3fs.Transcoder.Sessions.{session, Serves, session-Serves}
use mp3fs.Tests.Codecs.{
  counting, counting_laws, next_frame, next_frame-more, next_frame-IsValid, extend-IsComplete,
  no_lookup, no_put, half_read, half_read-IsValid,
}

pub next_frame-Keeps : (d : ℕ) (b : Buffer) → IsValid b → Keeps b (next_frame d b).3
unfolding next_frame
next_frame-Keeps zero b v = Keeps-refl b
next_frame-Keeps (suc n) b v = write-Keeps b (7 ∷ 8 ∷ []) v

abbrev pub counting_stable : IsStable counting
counting_stable = record {
  process-Keeps = λ d e b v. next_frame-Keeps d b v;
  finish-Keeps = λ e b b' v h. extend-Keeps b b' v h;
  refused-Keeps = λ e b v h. Keeps-refl b;
}

session-Serves_example :
    (t' : Transcoder counting) × (results : List Result) × (session counting no_lookup no_put
        (codes "mp3")
        0
        4
        half_read
        ((1, 3) ∷ (0, 2) ∷ [])
      ≡ some (t', results))
    × (size t'.buffer ≡ size half_read.buffer)
    × Serves counting counting_laws counting_stable no_lookup no_put
        (codes "mp3")
        0
        half_read
        t'.buffer
        ((1, 3) ∷ (0, 2) ∷ [])
        results
session-Serves_example =
    session-Serves counting counting_laws counting_stable no_lookup no_put (codes "mp3") 0 4
      half_read ((1, 3) ∷ (0, 2) ∷ []) (inr (half_read-IsValid, (2, refl), (tt, refl)))
      (omega arith, (omega arith, tt)) (omega arith)

-- The same codecs, where the file has to be encoded as a whole.
abbrev whole_counting : Codecs
whole_counting = record {
  Decoder = ℕ;
  Encoder = Unit {0};
  create_decoder = λ _. some 2;
  create_encoder = λ _. some tt;
  open_file = λ d _. some d;
  mtime = λ _. 10;
  process_metadata = λ d e. some (d, e);
  render_tag = λ e n b. some (e, b);
  process_single_fr = λ d e b. next_frame d b;
  encode_finish = λ e b. extend b;
  refused_buffer = λ e b. b;
  no_partial_encode = λ _. true;
}

abbrev whole_laws : Laws whole_counting
whole_laws = record {
  frames_left = λ d. d;
  more_lem = λ d e b h. next_frame-more d b h;
  IsReady = IsValid;
  IsReady-IsValid = λ b v. v;
  process-IsReady = λ d e b v _. next_frame-IsValid d b v;
  finish-IsComplete = λ e b b' v h. extend-IsComplete b b' v h;
}

abbrev started : Transcoder whole_counting
started = record {
  buffer = record { main_data = 1 ∷ []; end_data = 9 ∷ []; end_offset = 4 };
  filename = codes "a.ogg";
  encoder = some tt;
  decoder = some 2;
  stats_cache = [];
}

started-IsValid : IsValid started.buffer
started-IsValid = omega arith

started_short : valid_bytes started.buffer 1 3 ≡ false
unfolding valid_bytes size
started_short = refl

started_fits : 1 ≤ size started.buffer
unfolding size
started_fits = omega arith

read-whole_example :
    (t' : Transcoder whole_counting) × (result : Result) × (read whole_counting no_lookup no_put
        (codes "mp3")
        0
        4
        started
        1
        3
      ≡ some (t', result))
    × (((result ≡ eio)
          × Failure whole_counting whole_laws no_lookup no_put (codes "mp3") 0 started 1 3)
        ⊎ (IsSettled whole_counting whole_laws no_lookup no_put (codes "mp3") 0 t'
            × Rereads whole_counting whole_laws no_lookup no_put (codes "mp3") 0 1 t' 2 5))
read-whole_example =
    read-whole whole_counting whole_laws no_lookup no_put (codes "mp3") 0 4 0 started 1 3 2 5
      (λ e. refl) (inr (started-IsValid, (2, refl), (tt, refl))) (omega arith) (omega arith)
      (omega arith) started_fits started_short
