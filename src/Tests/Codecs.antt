-- ===== src/Tests/Codecs.antt =====
-- src/transcode.cc with a decoder that counts its frames down and an encoder that writes two bytes
-- for each; src/codecs/mp3_encoder.cc with a LAME that gives one byte.
use mp3fs.Prelude.{
  ◌↔◌, take, true, Bool, ℕ, zero, suc, ◌+◌, ◌-◌, ◌≤◌, ◌<◌, ◌≡◌, ◌≢◌, refl, subst, inr, false, ◌&&◌,
  List, [], ◌∷◌, Option, none, some, arith, ltb, leb, if◌then◌else◌, length, get_elem?, Text,
  text_eq, codes,
}
use mp3fs.Params.{Params}
use mp3fs.Buffer.{Buffer, write, extend, resize, tell, size}
use mp3fs.Buffer.View.{IsValid, at}
use mp3fs.Buffer.Writes.{IsComplete, write_bounded, extend_lem, length-resize}
use mp3fs.StatsCache.{Cache}
use mp3fs.Transcoder.{Codecs, Status, more, ended, Result, Transcoder, read}
use mp3fs.Transcoder.Loop.{Laws}
use mp3fs.Transcoder.Serves.{Answer, read-Answer}
use mp3fs.Mp3Encoder.{
  finished, outside, buffer_slop, Id3, Lame, Mp3Encoder, max_vbr_frame_size, final_size,
  encode_pcm_data, write_audio, encode_finish, close_file, write_end_of_file, write_vbr_tag,
}
use mp3fs.Mp3Encoder.Size.{size-encode_finish}
use mp3fs.Mp3Encoder.VbrTag.{write_vbr_tag_lem, encode_finish_outside}

unfoldable pub next_frame : ℕ → Buffer → Status × ℕ × Unit {0} × Buffer
next_frame zero b = (ended, 0, tt, b)
next_frame (suc n) b = (more, n, tt, write b (7 ∷ 8 ∷ []) false)

abbrev pub counting : Codecs
counting = record {
  Decoder = ℕ;
  Encoder = Unit {0};
  create_decoder = λ _. some 2;
  create_encoder = λ _. some tt;
  open_file = λ d _. some d;
  mtime = λ _. 10;
  process_metadata = λ d e. some (d, e);
  render_tag = λ e n b. some (e, b);
  process_single_fr = λ d e b. next_frame d b;
  encode_finish = λ e b. extend b;
  refused_buffer = λ e b. b;
  no_partial_encode = λ _. false;
}

pub next_frame-more : (d : ℕ) (b : Buffer) → (next_frame d b).0 ≡ more → (next_frame d b).1 < d
unfolding next_frame
next_frame-more zero b h = cc
next_frame-more (suc n) b h = omega arith

pub next_frame-IsValid : (d : ℕ) (b : Buffer) → IsValid b → IsValid (next_frame d b).3
unfolding next_frame
next_frame-IsValid zero b v = v
next_frame-IsValid (suc n) b v = (write_bounded b (7 ∷ 8 ∷ []) v).0

pub extend-IsComplete : (b b' : Buffer) → IsValid b → extend b ≡ some b' → IsComplete b'
extend-IsComplete b b' v h =
    let (c, extended, whole, _, _) = extend_lem b 0 v in
    let same : c ≡ b' = ground (arith, extended) in subst IsComplete same whole

abbrev pub counting_laws : Laws counting
counting_laws = record {
  frames_left = λ d. d;
  more_lem = λ d e b h. next_frame-more d b h;
  IsReady = IsValid;
  IsReady-IsValid = λ b v. v;
  process-IsReady = λ d e b v _. next_frame-IsValid d b v;
  finish-IsComplete = λ e b b' v h. extend-IsComplete b b' v h;
}

abbrev pub no_lookup : Cache → Text → ℕ → Cache × Option ℕ
no_lookup c _ _ = (c, none)

abbrev pub no_put : Cache → Text → ℕ → ℕ → Cache
no_put c _ _ _ = c

abbrev pub half_read : Transcoder counting
half_read = record {
  buffer = record { main_data = 1 ∷ []; end_data = 9 ∷ []; end_offset = 4 };
  filename = codes "a.ogg";
  encoder = some tt;
  decoder = some 2;
  stats_cache = [];
}

pub half_read-IsValid : IsValid half_read.buffer
half_read-IsValid = omega arith

read-Answer_example :
    (t' : Transcoder counting) × (r : Result) × (read counting no_lookup no_put
        (codes "mp3")
        0
        4
        half_read
        1
        3
      ≡ some (t', r))
    × Answer counting counting_laws no_lookup no_put (codes "mp3") 0 half_read t' 1 3 r
read-Answer_example =
    read-Answer counting counting_laws no_lookup no_put (codes "mp3") 0 4 half_read 1 3
      (inr (half_read-IsValid, (2, refl), (tt, refl))) (omega arith) (omega arith)

-- A LAME that gives one byte for each call, and a tag of two bytes.
abbrev pub one_byte : Lame
one_byte = record {
  State = Unit {0};
  Scale = ℕ;
  init = tt;
  set_vbr_mt = λ s. s;
  set_vbr_q = λ s _. s;
  set_vbr_max_bitrate_kbps = λ s _. s;
  set_quality = λ s _. s;
  set_brate = λ s _. s;
  set_write_vbr_tag = λ s _. s;
  set_num_samples = λ s _. s;
  set_in_samplerate = λ s _. s;
  set_num_channels = λ s _. s;
  init_params = λ s. some s;
  set_scale = λ s _. s;
  totalframes = λ _. 2;
  in_samplerate = λ _. 44100;
  out_samplerate = λ _. 44100;
  num_channels = λ _. 2;
  encode_buffer_int = λ s _ _ _. (s, some (5 ∷ []));
  encode_flush = λ s size. (s, some (take size (6 ∷ [])));
  lametag_frame = λ _ _. (3 ∷ 4 ∷ [], 2);
}

-- The texts of a frame in a list of frames, the empty text if there is none.
unfoldable pub text_of : List (Text × Text) → Text → Text
text_of [] name = []
text_of ((n, t) ∷ tag) name = if text_eq n name then t else text_of tag name

unfoldable pub has_name : List (Text × Text) → Text → Bool
has_name [] name = false
has_name ((n, t) ∷ tag) name = if text_eq n name then true else has_name tag name

-- A tag as the list of what was set, the last in front, which is rendered as two bytes and one.
abbrev pub no_tags : Id3
no_tags = record {
  Tag = List (Text × Text);
  Ucs4 = Text;
  new_tag = [];
  has_frame = has_name;
  attach = λ tag name. (name, []) ∷ tag;
  getstring = text_of;
  addstring = λ tag name s. (name, s) ∷ tag;
  setstring = λ tag name s. (name, s) ∷ tag;
  attach_picture = λ tag _ _ _ _. (codes "APIC", []) ∷ tag;
  utf8_ucs4 = λ s. s;
  latin1_ucs4 = λ s. s;
  ucs4_latin1 = λ s. s;
  render_v2 = λ _. 1 ∷ 2 ∷ [];
  render_v1 = λ _. 7 ∷ [];
}

-- The default parameters, with this size of the cache and VBR on or off.
abbrev pub defaults : ℕ → ℕ → Params
defaults statcachesize vbr = record {
  basepath = none;
  bitrate = 128;
  debug = 0;
  desttype = codes "mp3";
  gainmode = 1;
  gainref = 1118961664;
  log_format = [];
  log_maxlevel = [];
  log_stderr = 0;
  log_syslog = 0;
  logfile = [];
  quality = 5;
  statcachesize = statcachesize;
  vbr = vbr;
}

abbrev encoder : (params : Params) → Mp3Encoder one_byte no_tags params
encoder params = record { lame_encoder = tt; id3tag = []; id3size = 2 }

cached_size : final_size one_byte no_tags (defaults 0 0) (encoder (defaults 0 0)) 1000 ≡ some 1000
unfolding final_size
cached_size = refl

abbrev opened : Buffer
opened = record { main_data = 1 ∷ 2 ∷ []; end_data = 9 ∷ []; end_offset = 5 }

opened-IsValid : IsValid opened
opened-IsValid = omega arith

one_frame :
    encode_pcm_data one_byte no_tags
      (defaults 0 0)
      (encoder (defaults 0 0))
      opened
      (4 ∷ [])
      (4 ∷ [])
      16
    ≡ some (encoder (defaults 0 0), write opened (5 ∷ []) false)
unfolding encode_pcm_data write_audio
one_frame = refl

abbrev closed : Buffer
closed = record { main_data = 1 ∷ 2 ∷ 6 ∷ 0 ∷ 0 ∷ []; end_data = 9 ∷ []; end_offset = 5 }

ended_well :
    encode_finish one_byte no_tags (defaults 0 0) (encoder (defaults 0 0)) opened ≡ finished closed
unfolding encode_finish write_end_of_file close_file write_vbr_tag write extend resize
ended_well = refl

size-encode_finish_example :
    IsComplete closed × (size closed ≡ size opened) × (closed.end_data ≡ 9 ∷ [])
size-encode_finish_example =
    size-encode_finish one_byte no_tags (defaults 0 0) (encoder (defaults 0 0)) opened closed refl
      refl opened-IsValid ended_well

-- A file with 3000 bytes of audio.
abbrev long_file : Buffer
long_file = record { main_data = resize 3000 []; end_data = []; end_offset = 3000 }

long_file_room : 2 + max_vbr_frame_size ≤ tell long_file
unfolding tell
long_file_room = omega (arith, length-resize 3000 [])

opened_short : tell opened < 2 + max_vbr_frame_size
unfolding tell
opened_short = omega arith

vbr_on : (defaults 0 1).vbr ≢ 0
vbr_on = omega arith

write_vbr_tag_lem_example :
    (b' : Buffer) × (write_vbr_tag one_byte no_tags
        (defaults 0 1)
        (encoder (defaults 0 1))
        long_file
      ≡ finished b')
    × (at b' 4 ≡ (
        if leb 2 4 && ltb 4 (2 + max_vbr_frame_size)
        then (if ltb (4 - 2) (length {A = ℕ} (3 ∷ 4 ∷ []))
            then get_elem? (3 ∷ 4 ∷ []) (4 - 2)
            else some 0)
        else at long_file 4))
    × (size b' ≡ size long_file)
write_vbr_tag_lem_example =
    write_vbr_tag_lem one_byte no_tags (defaults 0 1) (encoder (defaults 0 1)) long_file
      (3 ∷ 4 ∷ []) 2 vbr_on refl (omega arith) 4 long_file_room

one_flushed : one_byte.encode_flush tt buffer_slop ≡ (tt, some (6 ∷ []))
one_flushed = refl

encode_finish_outside_example :
    ((encode_finish one_byte no_tags (defaults 1 1) (encoder (defaults 1 1)) opened ≡ outside)
      ↔ (tell opened + 1 < 2 + max_vbr_frame_size))
    × (((b' : Buffer) × (encode_finish one_byte no_tags
              (defaults 1 1)
              (encoder (defaults 1 1))
              opened
            ≡ finished b'))
        ↔ (2 + max_vbr_frame_size ≤ tell opened + 1))
encode_finish_outside_example =
    encode_finish_outside one_byte no_tags (defaults 1 1) (encoder (defaults 1 1)) opened tt
      (6 ∷ []) (3 ∷ 4 ∷ []) 2 vbr_on (omega arith) one_flushed refl (omega arith)
