-- ===== src/Mp3Encoder/Size.antt =====
-- src/codecs/mp3_encoder.cc: the size of the file, from the opening to the end of the encoding.
use mp3fs.Prelude.{
  ℕ, ◌+◌, ◌-◌, ◌≤◌, ◌<◌, ◌≡◌, refl, ◌∙◌, subst, inl, inr, true, false, List, [], ◌∷◌, Option, none,
  some, arith, ltb, if◌then◌else◌, sub64, half, length, get_elem?, Option-cases,
}
use mp3fs.Params.{Params}
use mp3fs.Buffer.{Buffer, init, write, write_end, resize, tell, size}
use mp3fs.Buffer.View.{IsValid, at}
use mp3fs.Buffer.Writes.{IsComplete, write_bounded, extend_lem, extend-end_data, length-resize}
use mp3fs.Mp3Encoder.{
  finished, Lame, Id3, Mp3Encoder, id3v1_tag_length, final_size, render_tag, write_audio,
  encode_pcm_data, close_file, write_end_of_file, write_vbr_tag, encode_finish,
}

pub write_front :
    (xs : List ℕ)
    → write init xs true ≡ record { main_data = xs; end_data = []; end_offset = length xs }
unfolding write
write_front [] = ground arith
write_front (x ∷ xs) = ground arith

module _ (lame : Lame) (id3 : Id3) (params : Params) where
  -- `render_tag` on an empty buffer, where the tags fit in the size, succeeds: the file has that
  -- size, its first bytes are the ID3v2 tag, its last 128 are the ID3v1 tag, and nothing between
  -- them is known.
  render_tag_lem :
      (e : Mp3Encoder lame id3 params) (file_size n i : ℕ)
      → final_size lame id3 params
          (record e { id3size = length (id3.render_v2 e.id3tag) })
          file_size
        ≡ some n
      → length (id3.render_v2 e.id3tag) + id3v1_tag_length ≤ n
      → n < half
      → (e' : Mp3Encoder lame id3 params) × (b : Buffer) × (render_tag lame id3 params e init
            file_size
          ≡ some (e', b))
        × IsValid b
        × (tell b ≡ length (id3.render_v2 e.id3tag))
        × (size b ≡ n)
        × (at b i ≡ (
            if ltb i (length (id3.render_v2 e.id3tag))
            then get_elem? (id3.render_v2 e.id3tag) i
            else (if ltb i (n - id3v1_tag_length)
                then none
                else get_elem?
                    (resize id3v1_tag_length (id3.render_v1 e.id3tag))
                    (i - (n - id3v1_tag_length)))))
  unfolding render_tag write_end at tell size
  render_tag_lem e file_size n i sized fits small = (
    record e { id3size = length id3v2 },
    b,
    ground (arith, sized, write_front id3v2, offset),
    record { ordered = omega arith; fits = omega (arith, long) },
    refl,
    ground (arith, long),
    refl,
  )
    where
      id3v2 : List ℕ
      id3v2 = id3.render_v2 e.id3tag

      id3v1 : List ℕ
      id3v1 = id3.render_v1 e.id3tag

      b : Buffer
      b = record {
        main_data = id3v2;
        end_data = resize id3v1_tag_length id3v1;
        end_offset = n - id3v1_tag_length;
      }

      long : length (resize id3v1_tag_length id3v1) ≡ id3v1_tag_length
      long = length-resize id3v1_tag_length id3v1

      offset : sub64 n id3v1_tag_length ≡ n - id3v1_tag_length
      offset = omega arith

  write_audio_lem :
      (e e' : Mp3Encoder lame id3 params) (b b' : Buffer) (encoded : lame.State × Option (List ℕ))
      → IsValid b
      → write_audio lame id3 params e b encoded ≡ some (e', b')
      → IsValid b' × (size b' ≡ size b) × (b'.end_data ≡ b.end_data)
  unfolding write_audio
  write_audio_lem e e' b b' (state, none) v done = absurd (cc)
  write_audio_lem e e' b b' (state, some vbuffer) v done =
      let same : write b vbuffer false ≡ b' = ground arith in
      subst (λ x. IsValid x × (size x ≡ size b) × (x.end_data ≡ b.end_data)) same
        (write_bounded b vbuffer v)

  -- A call of `encode_pcm_data` that returns no error keeps a valid buffer valid, its size, and the
  -- tag at its end.
  pub size-encode_pcm_data :
      (e e' : Mp3Encoder lame id3 params) (b b' : Buffer) (left right : List ℕ) (sample_size : ℕ)
      → IsValid b
      → encode_pcm_data lame id3 params e b left right sample_size ≡ some (e', b')
      → IsValid b' × (size b' ≡ size b) × (b'.end_data ≡ b.end_data)
  unfolding encode_pcm_data
  size-encode_pcm_data e e' b b' left right sample_size v done = write_audio_lem e e' b b' _ v done

  pub close_file_lem :
      (b b' : Buffer) (vbuffer : List ℕ)
      → params.statcachesize ≡ 0
      → IsValid b
      → close_file lame id3 params b vbuffer ≡ some b'
      → IsComplete b' × (size b' ≡ size b) × (b'.end_data ≡ b.end_data)
  unfolding close_file
  close_file_lem b b' vbuffer uncached v ends =
      let (v', same_size, same_end) = write_bounded b vbuffer v in
      let (c, extended, whole, size_kept, _) = extend_lem (write b vbuffer false) 0 v' in
      let same : c ≡ b' = ground (arith, extended) in
      let ends_kept = extend-end_data (write b vbuffer false) c extended in
      subst (λ x. IsComplete x × (size x ≡ size b) × (x.end_data ≡ b.end_data)) same
        (whole, size_kept ∙ same_size, ends_kept ∙ same_end)

  write_end_of_file_lem :
      (e : Mp3Encoder lame id3 params) (b b' : Buffer) (out : lame.State × Option (List ℕ))
      → params.vbr ≡ 0
      → params.statcachesize ≡ 0
      → IsValid b
      → write_end_of_file lame id3 params e b out ≡ finished b'
      → IsComplete b' × (size b' ≡ size b) × (b'.end_data ≡ b.end_data)
  unfolding write_end_of_file write_vbr_tag
  write_end_of_file_lem e b b' (state, none) cbr uncached v ends = absurd (cc)
  write_end_of_file_lem e b b' (state, some vbuffer) cbr uncached v ends =
      elim (Option-cases (close_file lame id3 params b vbuffer)) [
        | inl broken ↦ absurd (ground arith)
        | inr (c, closed) ↦ close_file_lem b b' vbuffer uncached v (ground arith)
      ]

  -- With no cache of sizes and a constant bit rate, an `encode_finish` that returns no error leaves
  -- no gap in a valid buffer, and keeps its size and the tag at its end.
  pub size-encode_finish :
      (e : Mp3Encoder lame id3 params) (b b' : Buffer)
      → params.vbr ≡ 0
      → params.statcachesize ≡ 0
      → IsValid b
      → encode_finish lame id3 params e b ≡ finished b'
      → IsComplete b' × (size b' ≡ size b) × (b'.end_data ≡ b.end_data)
  unfolding encode_finish
  size-encode_finish e b b' cbr uncached v ends = write_end_of_file_lem e b b' _ cbr uncached v ends
