-- ===== src/VorbisDecoder/Samples.antt =====
-- src/codecs/vorbis_decoder.cc: the channels hold the samples of the buffer, and no other is read.
use mp3fs.Prelude.{
  ℕ, zero, suc, ◌+◌, ◌*◌, ◌/◌, ◌≤◌, ◌<◌, ◌≡◌, refl, ap, ◌⊎◌, inl, inr, List, [], ◌∷◌, some, arith,
  length, get_elem?,
}
use native.Mathlib.Decide.{dec_lt}
use native.Mathlib.Nat.{div-mul-le_self}
use mp3fs.Transcoder.{ended, failed}
use mp3fs.VorbisDecoder.{got_bytes, channel_samples, all_channels, Frame, encode, over, frame_of}

-- The samples are those of the channel, in order.
abbrev pub IsChannel : List ℕ → ℕ → ℕ → ℕ → List ℕ → Type 0
IsChannel buf channels channel i [] = Unit
IsChannel buf channels channel i (x ∷ xs) =
    (get_elem? buf (i * channels + channel) ≡ some x) × IsChannel buf channels channel (suc i) xs

-- Each list holds the samples of its channel, `count` of them.
abbrev pub AreChannels : List ℕ → ℕ → ℕ → ℕ → List (List ℕ) → Type 0
AreChannels buf channels count channel [] = Unit
AreChannels buf channels count channel (xs ∷ rest) =
    ((length xs ≡ count) × IsChannel buf channels channel 0 xs)
    × AreChannels buf channels count (suc channel) rest

get_elem?-total : (xs : List ℕ) (i : ℕ) → i < length xs → (x : ℕ) × (get_elem? xs i ≡ some x)
get_elem?-total [] i h = absurd (omega arith)
get_elem?-total (x ∷ xs) zero h = (x, refl)
get_elem?-total (x ∷ xs) (suc i) h = get_elem?-total xs i (omega arith)

module _ (buf : List ℕ) (channels : ℕ) where
  channel_samples_lem :
      (channel i count : ℕ)
      → channel < channels
      → (i + count) * channels ≤ length buf
      → (xs : List ℕ) × (channel_samples buf channels channel i count ≡ some xs)
        × (length xs ≡ count)
        × IsChannel buf channels channel i xs
  unfolding channel_samples
  channel_samples_lem channel i zero c room = ([], refl, refl, tt)
  channel_samples_lem channel i (suc count) c room =
      let (x, here) = get_elem?-total buf (i * channels + channel) (omega arith) in
      let (xs, rest, long, is) = channel_samples_lem channel (suc i) count c (omega arith) in
      (x ∷ xs, ground (arith, here, rest), ap suc long, (here, is))

  all_channels_lem :
      (count channel left : ℕ)
      → channel + left ≤ channels
      → count * channels ≤ length buf
      → (xss : List (List ℕ)) × (all_channels buf channels count channel left ≡ some xss)
        × (length xss ≡ left)
        × AreChannels buf channels count channel xss
  unfolding all_channels
  all_channels_lem count channel zero c room = ([], refl, refl, tt)
  all_channels_lem count channel (suc left) c room =
      let (xs, first, long, is) = channel_samples_lem channel 0 count (omega arith) (omega arith) in
      let (xss, rest, wide, are) = all_channels_lem count (suc channel) left (omega arith) room in
      (xs ∷ xss, ground (arith, first, rest), ap suc wide, ((long, is), are))

-- What a read of `n` bytes is to the encoder: the end, an error, or channels with their samples.
abbrev pub IsFrame : List ℕ → ℕ → ℕ → Frame → Type 0
IsFrame buf channels n frame =
    ((n / 2 ≡ 0) × (frame ≡ over ended))
    ⊎ ((0 < n / 2) × (n / 2 / channels ≡ 0) × (frame ≡ over failed))
    ⊎ ((0 < n / 2 / channels)
        × ((xss : List (List ℕ)) × (frame ≡ encode xss (n / 2 / channels))
            × (length xss ≡ channels)
            × AreChannels buf channels (n / 2 / channels) 0 xss))

-- A read of bytes that fit in the buffer, of a stream that has a channel, never makes
-- `process_single_fr` read outside the buffer: it is the end of the file without a sample, an
-- error with fewer samples than channels, and otherwise every channel, with each of its samples
-- from its place in the buffer.
pub frame_of-IsFrame :
    (buf : List ℕ) (channels n : ℕ)
    → 0 < channels
    → n ≤ 2 * length buf
    → IsFrame buf channels n (frame_of buf channels (got_bytes n))
unfolding frame_of
frame_of-IsFrame buf channels n some_channel inside = elim (dec_lt 0 (n / 2)) [
  | no no_sample ↦ inl (omega arith, ground arith)
  | yes samples ↦ elim (dec_lt 0 (n / 2 / channels)) [
    | no too_few ↦ inr (inl (samples, omega arith, ground arith))
    | yes enough ↦
        let room : n / 2 / channels * channels ≤ length buf =
          omega (arith, div-mul-le_self (n / 2) channels) in
        let (xss, e, wide, are) =
          all_channels_lem buf channels (n / 2 / channels) 0 channels (omega arith) room in
        inr (inr (enough, (xss, ground (arith, e), wide, are)))
  ]
]
