-- ===== src/Mp3Encoder/Keeps.antt =====
-- src/codecs/mp3_encoder.cc: what encoding and its end leave of the file.
use mp3fs.Prelude.{
  ◌≢◌, ◌+◌, ◌≤◌, ◌<◌, true, half, length, length-append, ℕ, ◌≡◌, subst, inl, inr, false, List,
  Option, none, some, arith, ltb, ◌==◌, Option-cases, Bool-cases,
}
use mp3fs.Params.{Params}
use mp3fs.Buffer.{extend, Buffer, size, truncate, write, resize}
use mp3fs.Buffer.View.{IsValid}
use mp3fs.Buffer.Writes.{truncate_lem, IsComplete, write_bounded, write_to-IsComplete}
use mp3fs.Buffer.Keeps.{Keeps, Keeps-trans, write-Keeps, extend-Keeps}
use mp3fs.Mp3Encoder.{
  thrown, outside, finished, outside, buffer_slop, Lame, Id3, max_vbr_frame_size, Mp3Encoder,
  write_audio, encode_pcm_data, close_file, write_end_of_file, write_vbr_tag, encode_finish,
}
use mp3fs.Mp3Encoder.Size.{close_file_lem}

module _ (lame : Lame) (id3 : Id3) (params : Params) where
  write_audio-Keeps :
      (e e' : Mp3Encoder lame id3 params) (b b' : Buffer) (encoded : lame.State × Option (List ℕ))
      → IsValid b
      → write_audio lame id3 params e b encoded ≡ some (e', b')
      → IsValid b' × Keeps b b'
  unfolding write_audio
  write_audio-Keeps e e' b b' (state, none) v done = absurd (cc)
  write_audio-Keeps e e' b b' (state, some vbuffer) v done =
      let same : write b vbuffer false ≡ b' = ground arith in
      subst (λ x. IsValid x × Keeps b x) same
        ((write_bounded b vbuffer v).0, write-Keeps b vbuffer v)

  pub encode_pcm_data-Keeps :
      (e e' : Mp3Encoder lame id3 params) (b b' : Buffer) (left right : List ℕ) (sample_size : ℕ)
      → IsValid b
      → encode_pcm_data lame id3 params e b left right sample_size ≡ some (e', b')
      → IsValid b' × Keeps b b'
  unfolding encode_pcm_data
  encode_pcm_data-Keeps e e' b b' left right sample_size v done =
      write_audio-Keeps e e' b b' _ v done

  close_file-Keeps :
      (b b' : Buffer) (vbuffer : List ℕ)
      → params.statcachesize ≡ 0
      → IsValid b
      → close_file lame id3 params b vbuffer ≡ some b'
      → Keeps b b'
  unfolding close_file
  close_file-Keeps b b' vbuffer uncached v ends =
      Keeps-trans (write-Keeps b vbuffer v)
        (extend-Keeps (write b vbuffer false) b' (write_bounded b vbuffer v).0 (ground arith))

  write_vbr_tag-IsComplete :
      (e : Mp3Encoder lame id3 params) (b b' : Buffer)
      → IsComplete b
      → write_vbr_tag lame id3 params e b ≡ finished b'
      → IsComplete b'
  unfolding write_vbr_tag
  write_vbr_tag-IsComplete e b b' whole written =
      let (tail, vbr_tag_size) = lame.lametag_frame e.lame_encoder max_vbr_frame_size in
      elim (Bool-cases (params.vbr == 0)) [
        | inl cbr ↦ let same : b ≡ b' = ground arith in subst IsComplete same whole
        | inr vbr ↦ elim (Bool-cases (ltb max_vbr_frame_size vbr_tag_size)) [
          | inl too_large ↦ absurd (ground arith)
          | inr fits ↦
              write_to-IsComplete b b' (resize max_vbr_frame_size tail) e.id3size whole
                (ground arith)
        ]
      ]

  closed :
      (e : Mp3Encoder lame id3 params) (b b' : Buffer) (vbuffer : List ℕ) (state : lame.State)
      → write_end_of_file lame id3 params e b (state, some vbuffer) ≡ finished b'
      → (c : Buffer) × (close_file lame id3 params b vbuffer ≡ some c)
        × (write_vbr_tag lame id3 params (record e { lame_encoder = state }) c ≡ finished b')
  unfolding write_end_of_file
  closed e b b' vbuffer state ends = elim (Option-cases (close_file lame id3 params b vbuffer)) [
    | inl broken ↦ absurd (ground arith)
    | inr (c, done) ↦ (c, done, ground arith)
  ]

  -- A write that moves the end segment.
  write-IsValid :
      (b : Buffer) (bytes : List ℕ)
      → IsValid b
      → size b + length bytes < half
      → IsValid (write b bytes true)
  unfolding write size
  write-IsValid b bytes v room = ground (arith, length-append b.main_data bytes, v.ordered)

  close_file-IsComplete :
      (b c : Buffer) (vbuffer : List ℕ)
      → IsValid b
      → size b + length vbuffer < half
      → close_file lame id3 params b vbuffer ≡ some c
      → IsComplete c
  unfolding close_file
  close_file-IsComplete b c vbuffer v room done = elim (Bool-cases (ltb 0 params.statcachesize)) [
    | inr off ↦ (close_file_lem lame id3 params b c vbuffer (ground arith) v done).0
    | inl on ↦
        let same : truncate (write b vbuffer true) ≡ c = ground arith in
        subst IsComplete same
          (truncate_lem (write b vbuffer true) 0 (write-IsValid b vbuffer v room)).0
  ]

  write_end_of_file-IsComplete :
      (e : Mp3Encoder lame id3 params) (b b' : Buffer) (state : lame.State) (vbuffer : List ℕ)
      → IsValid b
      → size b + length vbuffer < half
      → write_end_of_file lame id3 params e b (state, some vbuffer) ≡ finished b'
      → IsComplete b'
  unfolding write_end_of_file
  write_end_of_file-IsComplete e b b' state vbuffer v room ends =
      let (c, done, tagged) = closed e b b' vbuffer state ends in
      write_vbr_tag-IsComplete (record e { lame_encoder = state }) c b'
        (close_file-IsComplete b c vbuffer v room done) tagged

  -- Where LAME flushes no more than fits in the buffer that it is given, and the size leaves room
  -- for that, an `encode_finish` that returns no error leaves no gap in a valid buffer.
  pub encode_finish-IsComplete :
      (e : Mp3Encoder lame id3 params) (b b' : Buffer)
      → ((bytes : List ℕ)
          → (lame.encode_flush e.lame_encoder buffer_slop).1 ≡ some bytes
          → length bytes ≤ buffer_slop)
      → IsValid b
      → size b + buffer_slop < half
      → encode_finish lame id3 params e b ≡ finished b'
      → IsComplete b'
  unfolding encode_finish write_end_of_file
  encode_finish-IsComplete e b b' flushed v room ends =
      elim (Option-cases (lame.encode_flush e.lame_encoder buffer_slop).1) [
        | inl broken ↦ absurd (ground arith)
        | inr (vbuffer, out) ↦
            write_end_of_file-IsComplete e b b' (lame.encode_flush e.lame_encoder buffer_slop).0
              vbuffer v (omega (arith, flushed vbuffer out)) (ground (arith, out))
      ]

  write_end_of_file-Keeps :
      (e : Mp3Encoder lame id3 params) (b b' : Buffer) (out : lame.State × Option (List ℕ))
      → params.vbr ≡ 0
      → params.statcachesize ≡ 0
      → IsValid b
      → write_end_of_file lame id3 params e b out ≡ finished b'
      → Keeps b b'
  unfolding write_end_of_file write_vbr_tag
  write_end_of_file-Keeps e b b' (state, none) cbr uncached v ends = absurd (cc)
  write_end_of_file-Keeps e b b' (state, some vbuffer) cbr uncached v ends =
      let (c, done, tagged) = closed e b b' vbuffer state ends in
      let same : c ≡ b' = ground arith in
      subst (Keeps b) same (close_file-Keeps b c vbuffer uncached v done)

  pub encode_finish-Keeps :
      (e : Mp3Encoder lame id3 params) (b b' : Buffer)
      → params.vbr ≡ 0
      → params.statcachesize ≡ 0
      → IsValid b
      → encode_finish lame id3 params e b ≡ finished b'
      → Keeps b b'
  unfolding encode_finish
  encode_finish-Keeps e b b' cbr uncached v ends =
      write_end_of_file-Keeps e b b' _ cbr uncached v ends

  -- At a constant bit rate, on a valid buffer, it neither throws nor writes outside the vector.
  encode_finish_defined :
      (e : Mp3Encoder lame id3 params) (b : Buffer)
      → params.vbr ≡ 0
      → IsValid b
      → (encode_finish lame id3 params e b ≢ thrown) × (encode_finish lame id3 params e b ≢ outside)
  unfolding encode_finish write_end_of_file write_vbr_tag close_file extend
  encode_finish_defined e b cbr v =
      elim (Option-cases (lame.encode_flush e.lame_encoder buffer_slop).1) [
        | inl broken ↦ (λ h. ground (arith, broken), λ h. ground (arith, broken))
        | inr (bytes, out) ↦
            let low = (write_bounded b bytes v).0 in
            (
              λ h. ground (arith, out, low.fits, low.ordered, cbr),
              λ h. ground (arith, out, low.fits, low.ordered, cbr),
            )
      ]
