-- ===== src/Mp3Encoder/VbrTag.antt =====
-- src/codecs/mp3_encoder.cc: the VBR tag data that `encode_finish` puts over the start of the audio.
use mp3fs.Prelude.{
  ◌↔◌, ◌⊎◌, inl, inr, sym, true, length-append, ℕ, ◌+◌, ◌-◌, ◌≤◌, ◌<◌, ◌≡◌, ◌≢◌, ◌∙◌, ◌&&◌, List,
  none, some, arith, ltb, leb, if◌then◌else◌, length, get_elem?,
}
use mp3fs.Params.{Params}
use mp3fs.Buffer.{write, truncate, Buffer, write_to, resize, tell, size}
use mp3fs.Buffer.View.{at}
use mp3fs.Buffer.Writes.{write_to_lem, length-resize, get_elem?-resize}
use mp3fs.Mp3Encoder.{
  finished, outside, buffer_slop, close_file, write_end_of_file, encode_finish, Lame, Id3,
  Mp3Encoder, max_vbr_frame_size, write_vbr_tag,
}

le_or_lt : (m n : ℕ) → (m ≤ n) ⊎ (n < m)
le_or_lt m n = (omega arith)

module _ (lame : Lame) (id3 : Id3) (params : Params) (e : Mp3Encoder lame id3 params) (b : Buffer)
    (tail : List ℕ) (vbr_tag_size : ℕ) (is_vbr : params.vbr ≢ 0)
    (tag : lame.lametag_frame e.lame_encoder max_vbr_frame_size ≡ (tail, vbr_tag_size))
    (fits : vbr_tag_size ≤ max_vbr_frame_size) where
  written :
      write_vbr_tag lame id3 params e b
      ≡ (elim (write_to b (resize max_vbr_frame_size tail) e.id3size) [
        | none ↦ outside
        | some b' ↦ finished b'
      ])
  unfolding write_vbr_tag
  written = ground (arith, tag)

  -- With VBR, where 2880 bytes follow the ID3v2 tag in the main segment, the tag data of LAME is
  -- written there and zeros follow it up to those 2880 bytes, however short the data is. No other
  -- byte changes, and the size stays.
  pub write_vbr_tag_lem :
      (i : ℕ)
      → e.id3size + max_vbr_frame_size ≤ tell b
      → (b' : Buffer) × (write_vbr_tag lame id3 params e b ≡ finished b')
        × (at b' i ≡ (
            if leb e.id3size i && ltb i (e.id3size + max_vbr_frame_size)
            then (if ltb (i - e.id3size) (length tail)
                then get_elem? tail (i - e.id3size)
                else some 0)
            else at b i))
        × (size b' ≡ size b)
  write_vbr_tag_lem i room =
      let long = length-resize max_vbr_frame_size tail in
      let (b', done, placed, _, same_size) =
        write_to_lem b (resize max_vbr_frame_size tail) e.id3size i (omega (arith, long)) in
      (b', written ∙ ground (arith, done), placed ∙ overwritten long, same_size)
    where
      overwritten :
          length (resize max_vbr_frame_size tail) ≡ max_vbr_frame_size
          → (if leb e.id3size i && ltb i (e.id3size + length (resize max_vbr_frame_size tail))
              then get_elem? (resize max_vbr_frame_size tail) (i - e.id3size)
              else at b i)
            ≡ (if leb e.id3size i && ltb i (e.id3size + max_vbr_frame_size)
                then (if ltb (i - e.id3size) (length tail)
                    then get_elem? tail (i - e.id3size)
                    else some 0)
                else at b i)
      overwritten long =
          rw long (ground (arith, get_elem?-resize max_vbr_frame_size tail (i - e.id3size)))

  -- The write leaves the vector exactly where fewer than 2880 bytes follow the ID3v2 tag.
  pub write_vbr_tag_outside :
      (write_vbr_tag lame id3 params e b ≡ outside) ↔ (tell b < e.id3size + max_vbr_frame_size)
  unfolding write_to tell
  write_vbr_tag_outside =
      let long = length-resize max_vbr_frame_size tail in
      (λ h. ground (arith, written, long), λ short. written ∙ ground (arith, long))

module _ (lame : Lame) (id3 : Id3) (params : Params) where
  -- With a cache of sizes, the audio behind the ID3v2 tag is what the frames and the flush have left.
  close_file-tell :
      (b : Buffer) (vbuffer : List ℕ)
      → 0 < params.statcachesize
      → (c : Buffer) × (close_file lame id3 params b vbuffer ≡ some c)
        × (tell c ≡ tell b + length vbuffer)
  unfolding close_file tell write truncate
  close_file-tell b vbuffer cached = (
    truncate (write b vbuffer true),
    ground arith,
    ground (arith, length-append b.main_data vbuffer),
  )

  -- With VBR, a cache of sizes, and a tag that LAME holds to 2880 bytes, `encode_finish` writes
  -- outside the vector exactly where the ID3v2 tag and 2880 bytes are more than what was encoded and
  -- flushed, however short the tag data is. In every other file it succeeds.
  pub encode_finish_outside :
      (e : Mp3Encoder lame id3 params) (b : Buffer) (state : lame.State) (vbuffer tail : List ℕ)
      (vbr_tag_size : ℕ)
      → params.vbr ≢ 0
      → 0 < params.statcachesize
      → lame.encode_flush e.lame_encoder buffer_slop ≡ (state, some vbuffer)
      → lame.lametag_frame state max_vbr_frame_size ≡ (tail, vbr_tag_size)
      → vbr_tag_size ≤ max_vbr_frame_size
      → ((encode_finish lame id3 params e b ≡ outside)
          ↔ (tell b + length vbuffer < e.id3size + max_vbr_frame_size))
        × (((b' : Buffer) × (encode_finish lame id3 params e b ≡ finished b'))
            ↔ (e.id3size + max_vbr_frame_size ≤ tell b + length vbuffer))
  unfolding encode_finish write_end_of_file
  encode_finish_outside e b state vbuffer tail vbr_tag_size is_vbr cached flushed tag fits =
      let (c, closed, long) = close_file-tell b vbuffer cached in
      let e' : Mp3Encoder lame id3 params = record e { lame_encoder = state } in
      let ends : encode_finish lame id3 params e b ≡ write_vbr_tag lame id3 params e' c =
        ground (arith, flushed, closed) in
      let (leaves, back) =
        write_vbr_tag_outside lame id3 params e' c tail vbr_tag_size is_vbr tag fits in
      (
        (
          λ h. ground (arith, leaves (sym ends ∙ h), long),
          λ short. ends ∙ back (omega (arith, short, long)),
        ),
        (
          λ (b', done). elim (le_or_lt (e.id3size + max_vbr_frame_size) (tell b + length vbuffer)) [
            | inl room ↦ room
            | inr short ↦ absurd (ground (arith, done, ends, back (omega (arith, short, long))))
          ],
          λ room.
              let (b', done, _, _) =
                write_vbr_tag_lem lame id3 params e' c tail vbr_tag_size is_vbr tag fits 0
                  (omega (arith, room, long)) in
              (b', ends ∙ done),
        ),
      )
