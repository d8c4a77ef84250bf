-- ===== src/Mp3Encoder.antt =====
-- src/codecs/mp3_encoder.h and src/codecs/mp3_encoder.cc: the encoder's use of the buffer. LAME
-- and libid3tag are parameters.
pub mod Size
pub mod VbrTag
pub mod Tags
pub mod FrameTexts
pub mod Numbers
pub mod Keeps
use mp3fs.Prelude.{
  ℕ, ◌+◌, ◌-◌, ◌*◌, ◌/◌, ◌%◌, ◌^◌, ◌<◌, Bool, true, false, List, [], ◌++◌, Option, none, some, ltb,
  ◌==◌, if◌then◌else◌, add64, sub64, word, length, take, replicate, map, Text,
}
use mp3fs.Params.{Params}
use mp3fs.Buffer.{Buffer, write, write_to, write_end, truncate, extend, resize}

abbrev pub id3v1_tag_length : ℕ
id3v1_tag_length = 128

abbrev pub max_vbr_frame_size : ℕ
max_vbr_frame_size = 2880

abbrev pub conversion_factor : ℕ
conversion_factor = 144000

-- `kBufferSlop`.
abbrev pub buffer_slop : ℕ
buffer_slop = 7200

-- What the encoder asks of LAME. The getters return an `int` as its 64-bit pattern, which is what
-- the arithmetic of `calculate_size` converts it to. The encoding functions return the bytes that
-- they wrote to the buffer of the given size, or fail with a negative length; `lametag_frame`
-- returns those and its result.
pub record Lame : Type 1 where
  pub State : Type 0
  pub Scale : Type 0
  pub init : State
  pub set_vbr_mt : State → State
  pub set_vbr_q : State → ℕ → State
  pub set_vbr_max_bitrate_kbps : State → ℕ → State
  pub set_quality : State → ℕ → State
  pub set_brate : State → ℕ → State
  pub set_write_vbr_tag : State → Bool → State
  pub set_num_samples : State → ℕ → State
  pub set_in_samplerate : State → ℕ → State
  pub set_num_channels : State → ℕ → State
  pub init_params : State → Option State
  pub set_scale : State → Scale → State
  pub totalframes : State → ℕ
  pub in_samplerate : State → ℕ
  pub out_samplerate : State → ℕ
  pub num_channels : State → ℕ
  pub encode_buffer_int : State → List ℕ → List ℕ → ℕ → State × Option (List ℕ)
  pub encode_flush : State → ℕ → State × Option (List ℕ)
  pub lametag_frame : State → ℕ → List ℕ × ℕ

-- libid3tag, whose memory does not run out. A tag has frames by their names; `has_frame` finds the
-- first of a name, and `attach` adds one with UTF-8 strings. `getstring` is the first string of
-- that frame, `addstring` adds one, `setstring` leaves it one only. A picture frame has a MIME
-- type, a type, a description and data. `render_v2` is uncompressed with 12 bytes of padding, and
-- `render_v1` is the other format.
pub record Id3 : Type 1 where
  pub Tag : Type 0
  pub Ucs4 : Type 0
  pub new_tag : Tag
  pub has_frame : Tag → Text → Bool
  pub attach : Tag → Text → Tag
  pub getstring : Tag → Text → Ucs4
  pub addstring : Tag → Text → Ucs4 → Tag
  pub setstring : Tag → Text → Ucs4 → Tag
  pub attach_picture : Tag → Text → ℕ → Ucs4 → List ℕ → Tag
  pub utf8_ucs4 : Text → Ucs4
  pub latin1_ucs4 : Text → Ucs4
  pub ucs4_latin1 : Ucs4 → Text
  pub render_v2 : Tag → List ℕ
  pub render_v1 : Tag → List ℕ

-- How `encode_finish` ends, with the buffer that it leaves: `finished`, or `refused` with -1. `thrown`:
-- the exception of a vector that is too long; `outside`: the write of the VBR tag data leaves the
-- vector, which has no defined outcome.
pub data Finish : Type 0 where
  finished refused : Buffer → Finish
  thrown outside : Finish

-- The conversion of an `int` to `uint64_t`.
unfoldable pub int_to_uint64 : ℕ → ℕ
int_to_uint64 x = if ltb x (2 ^ 31) then x else x + word - 2 ^ 32

module _ (lame : Lame) (id3 : Id3) (params : Params) where
  -- The members of the encoder; the buffer is passed on beside them.
  pub record Mp3Encoder : Type 0 where
    pub lame_encoder : lame.State
    pub id3tag : id3.Tag
    pub id3size : ℕ

  -- `none`: a division by a sample rate of 0.
  unfoldable pub divide : ℕ → ℕ → Option ℕ
  divide a b = if b == 0 then none else some (a / b)

  unfoldable pub calculate_size : Mp3Encoder → Option ℕ
  unfolding divide int_to_uint64
  calculate_size e =
      let bits =
        ((lame.totalframes e.lame_encoder * conversion_factor)
          % word
          * int_to_uint64 params.bitrate)
        % word in
      if params.vbr == 0
      then elim (divide bits (lame.out_samplerate e.lame_encoder)) [
        | none ↦ none
        | some n ↦ some ((e.id3size + id3v1_tag_length + n) % word)
      ]
      else elim (divide bits (lame.in_samplerate e.lame_encoder)) [
        | none ↦ none
        | some n ↦ some ((e.id3size + id3v1_tag_length + max_vbr_frame_size + n) % word)
      ]

  -- The size that `render_tag` places the end of the file at.
  unfoldable pub final_size : Mp3Encoder → ℕ → Option ℕ
  final_size e file_size = if file_size == 0 then calculate_size e else some file_size

  -- The ID3v2 tag is written at the front and the ID3v1 tag at the end.
  unfoldable pub render_tag : Mp3Encoder → Buffer → ℕ → Option (Mp3Encoder × Buffer)
  render_tag e buffer file_size =
      let e' : Mp3Encoder = record e { id3size = length (id3.render_v2 e.id3tag) } in
      let fronted = write buffer (id3.render_v2 e.id3tag) true in
      elim (final_size e' file_size) [
        | none ↦ none
        | some n ↦ some (
          e',
          write_end fronted (resize id3v1_tag_length (id3.render_v1 e.id3tag))
              (sub64 n id3v1_tag_length),
        )
      ]

  -- `x << (32 - sample_size)` on an `int`, by its 32-bit pattern.
  unfoldable pub left_align : ℕ → ℕ → ℕ
  left_align sample_size x = (x * 2 ^ (32 - sample_size)) % 2 ^ 32

  -- The size of the output buffer, in the arithmetic of `unsigned int`.
  unfoldable pub output_size : ℕ → ℕ
  output_size numsamples = ((5 * numsamples) % 2 ^ 32 / 4 + buffer_slop) % 2 ^ 32

  -- What LAME has encoded is written to the buffer.
  unfoldable pub write_audio :
      Mp3Encoder → Buffer → lame.State × Option (List ℕ) → Option (Mp3Encoder × Buffer)
  write_audio e buffer (state, none) = none
  write_audio e buffer (state, some vbuffer) =
      some (record e { lame_encoder = state }, write buffer vbuffer false)

  -- The samples of the left and of the right channel; a mono file has no right one, and LAME is
  -- given zeros.
  unfoldable pub encode_pcm_data :
      Mp3Encoder → Buffer → List ℕ → List ℕ → ℕ → Option (Mp3Encoder × Buffer)
  unfolding left_align output_size
  encode_pcm_data e buffer left right sample_size =
      let lbuf = map (left_align sample_size) left in
      let rbuf =
        if ltb 1 (lame.num_channels e.lame_encoder)
        then map (left_align sample_size) right
        else replicate (length left) 0 in
      write_audio e buffer
        (lame.encode_buffer_int e.lame_encoder lbuf rbuf (output_size (length left)))

  -- The VBR tag data is written behind the ID3v2 tag; it may be too large.
  unfoldable pub write_vbr_tag : Mp3Encoder → Buffer → Finish
  write_vbr_tag e buffer =
      if params.vbr == 0
      then finished buffer
      else (let (tail, vbr_tag_size) = lame.lametag_frame e.lame_encoder max_vbr_frame_size in
          if ltb max_vbr_frame_size vbr_tag_size
          then refused buffer
          else elim (write_to buffer (resize max_vbr_frame_size tail) e.id3size) [
            | none ↦ outside
            | some tagged ↦ finished tagged
          ])

  -- The last bytes are written and the two segments are joined.
  unfoldable pub close_file : Buffer → List ℕ → Option Buffer
  close_file buffer vbuffer =
      let cached = ltb 0 params.statcachesize in
      let flushed = write buffer vbuffer cached in
      if cached then some (truncate flushed) else extend flushed

  unfoldable pub write_end_of_file : Mp3Encoder → Buffer → lame.State × Option (List ℕ) → Finish
  write_end_of_file e buffer (state, none) = refused buffer
  write_end_of_file e buffer (state, some vbuffer) = elim (close_file buffer vbuffer) [
    | none ↦ thrown
    | some closed ↦ write_vbr_tag (record e { lame_encoder = state }) closed
  ]

  unfoldable pub encode_finish : Mp3Encoder → Buffer → Finish
  encode_finish e buffer = write_end_of_file e buffer (lame.encode_flush e.lame_encoder buffer_slop)
