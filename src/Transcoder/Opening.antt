-- ===== src/Transcoder/Opening.antt =====
-- src/transcode.cc: what `open` leaves when it succeeds.
use mp3fs.Prelude.{
  ℕ, ◌+◌, ◌≡◌, refl, true, inl, inr, Option, none, some, arith, ◌==◌, if◌then◌else◌, drop, Text,
  npos, rfind, Option-cases,
}
use mp3fs.StatsCache.{Cache}
use mp3fs.Transcoder.{Codecs, Transcoder, open_encoder, open_}

module _ (codecs : Codecs) (get_filesize : Cache → Text → ℕ → Cache × Option ℕ)
    (put_filesize : Cache → Text → ℕ → ℕ → Cache) (desttype : Text) (statcachesize : ℕ) where
  -- The size that the cache gives, and 0 where it has none.
  abbrev pub known : Option ℕ → ℕ
  known none = 0
  known (some n) = n

  -- A decoder and an encoder, which has rendered its tag into the buffer.
  pub record IsOpened (before t : Transcoder codecs) : Type 0 where
    pub decoder : codecs.Decoder
    pub first : codecs.Encoder
    pub encoder : codecs.Encoder
    pub file_size : ℕ
    pub decodes : t.decoder ≡ some decoder
    pub encodes : t.encoder ≡ some encoder
    pub looked :
        file_size ≡ known (get_filesize before.stats_cache before.filename (codecs.mtime decoder)).1
    pub renamed : t.filename ≡ before.filename
    pub rendered : codecs.render_tag first file_size before.buffer ≡ some (encoder, t.buffer)

  open_encoder-IsOpened :
      (before t : Transcoder codecs) (decoder : codecs.Decoder)
      → open_encoder codecs get_filesize put_filesize desttype statcachesize before decoder
        ≡ (t, true)
      → IsOpened before t
  unfolding open_encoder
  open_encoder-IsOpened before t decoder h = elim (Option-cases (codecs.create_encoder desttype)) [
    | inl lost ↦ absurd (ground arith)
    | inr (e, made) ↦ elim (Option-cases (codecs.process_metadata decoder e)) [
      | inl lost ↦ absurd (ground arith)
      | inr ((d', e'), read) ↦
          let cached = (get_filesize before.stats_cache before.filename (codecs.mtime d')).1 in
          let file_size : ℕ = known cached in
          elim (Option-cases (codecs.render_tag e' file_size before.buffer)) [
            | inl lost ↦ absurd (ground arith)
            | inr ((e'', b), done) ↦ record {
              decoder = d';
              first = e';
              encoder = e'';
              file_size = file_size;
              decodes = ground arith;
              encodes = ground arith;
              looked = refl;
              renamed = ground arith;
              rendered = ground arith;
            }
          ]
    ]
  ]

  -- An `open` that succeeds leaves a decoder and an encoder, and the tag in the buffer.
  pub open_-IsOpened :
      (before t : Transcoder codecs)
      → open_ codecs get_filesize put_filesize desttype statcachesize before ≡ (t, true)
      → IsOpened before t
  unfolding open_
  open_-IsOpened before t h =
      let dot_idx = rfind b'.' before.filename in
      let created : Option codecs.Decoder =
        if dot_idx == npos
        then none
        else codecs.create_decoder (drop (dot_idx + 1) before.filename) in
      elim (Option-cases created) [
        | inl lost ↦ absurd (ground arith)
        | inr (decoder, made) ↦ elim (Option-cases (codecs.open_file decoder before.filename)) [
          | inl lost ↦ absurd (ground arith)
          | inr (decoder', opened) ↦ open_encoder-IsOpened before t decoder' (ground arith)
        ]
      ]
