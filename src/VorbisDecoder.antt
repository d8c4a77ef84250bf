-- ===== src/VorbisDecoder.antt =====
-- src/codecs/vorbis_decoder.cc: the samples that a frame gives to the encoder. libvorbisfile is a
-- parameter.
pub mod Samples
pub mod Comments
pub mod SameTags
pub mod Frames
use mp3fs.Prelude.{
  ℕ, zero, suc, ◌+◌, ◌*◌, ◌/◌, Bool, true, false, List, [], ◌∷◌, Option, none, some, ltb, ◌==◌,
  if◌then◌else◌, get_elem?,
}
use mp3fs.Transcoder.{Status, more, ended, failed}

-- `ov_read`: the bytes that it has written to the front of the buffer, or minus the result.
pub data ReadBytes : Type 0 where
  got_bytes : ℕ → ReadBytes
  bad_read : ℕ → ReadBytes

-- The samples of a channel from `i` on, `count` of them. `none`: one lies outside the buffer.
unfoldable pub channel_samples : List ℕ → ℕ → ℕ → ℕ → ℕ → Option (List ℕ)
channel_samples decode_buffer channels channel i zero = some []
channel_samples decode_buffer channels channel i (suc count) =
    let rest = channel_samples decode_buffer channels channel (suc i) count in
    elim (get_elem? decode_buffer (i * channels + channel)) [
      | none ↦ none
      | some sample ↦ elim rest [ none ↦ none | some samples ↦ some (sample ∷ samples) ]
    ]

-- The channels from `channel` on, `left` of them.
unfoldable pub all_channels : List ℕ → ℕ → ℕ → ℕ → ℕ → Option (List (List ℕ))
all_channels decode_buffer channels samples_per_channel channel zero = some []
all_channels decode_buffer channels samples_per_channel channel (suc left) =
    let rest = all_channels decode_buffer channels samples_per_channel (suc channel) left in
    elim (channel_samples decode_buffer channels channel 0 samples_per_channel) [
      | none ↦ none
      | some samples ↦ elim rest [ none ↦ none | some others ↦ some (samples ∷ others) ]
    ]

-- What a frame is: the data for `encode_pcm_data`, or a status at once; `overrun`: a sample is read
-- outside the buffer, or the stream has no channels.
pub data Frame : Type 0 where
  encode : List (List ℕ) → ℕ → Frame
  over : Status → Frame
  overrun : Frame

-- The first part of `process_single_fr`, on the buffer that `ov_read` has filled.
unfoldable pub frame_of : List ℕ → ℕ → ReadBytes → Frame
frame_of decode_buffer channels (bad_read n) = if n / 2 == 0 then over ended else over failed
frame_of decode_buffer channels (got_bytes n) =
    if n / 2 == 0
    then over ended
    else (if channels == 0
        then overrun
        else (if n / 2 / channels == 0
            then over failed
            else elim (all_channels decode_buffer channels (n / 2 / channels) 0 channels) [
              | none ↦ overrun
              | some encode_buffer ↦ encode encode_buffer (n / 2 / channels)
            ]))

-- `encode_pcm_data` takes the channels, their length and the sample size, and returns a negative
-- number by `none`.
module _ {Encoder : Type 0}
    (encode_pcm_data : List (List ℕ) → ℕ → ℕ → Encoder → Option Encoder) where
  -- The end of `process_single_fr`; `none`: as `overrun`.
  unfoldable pub send : Encoder → Frame → Option (Status × Encoder)
  send encoder (over status) = some (status, encoder)
  send encoder overrun = none
  send encoder (encode encode_buffer samples_per_channel) =
      elim (encode_pcm_data encode_buffer samples_per_channel 16 encoder) [
        | none ↦ some (failed, encoder)
        | some encoder' ↦ some (more, encoder')
      ]

  unfoldable pub process_single_fr : List ℕ → ℕ → ReadBytes → Encoder → Option (Status × Encoder)
  unfolding send frame_of
  process_single_fr decode_buffer channels read_bytes encoder =
      send encoder (frame_of decode_buffer channels read_bytes)
