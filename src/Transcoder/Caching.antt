-- ===== src/Transcoder/Caching.antt =====
-- src/transcode.cc: what the calls of the cache of sizes keep, a transcoder keeps.
use mp3fs.Prelude.{
  ℕ, zero, suc, ◌+◌, ◌≡◌, subst, inl, inr, Bool, ◌||◌, Option, none, some, arith, ltb, ◌==◌,
  if◌then◌else◌, drop, Text, npos, rfind, Option-cases, Bool-cases,
}
use mp3fs.Buffer.{size, valid_bytes}
use mp3fs.StatsCache.{Cache}
use mp3fs.Transcoder.{
  Codecs, Transcoder, Result, Status, more, ended, failed, get_size, open_encoder, open_, remember,
  finish_encoder, finish, after_frame, round, turn, loop, read,
}

module _ (codecs : Codecs) (get_filesize : Cache → Text → ℕ → Cache × Option ℕ)
    (put_filesize : Cache → Text → ℕ → ℕ → Cache) (desttype : Text) (statcachesize : ℕ)
    (IsFine : Cache → Type 0)
    (get-IsFine : (c : Cache) (filename : Text) (mtime : ℕ)
      → IsFine c
      → IsFine (get_filesize c filename mtime).0)
    (put-IsFine : (c : Cache) (filename : Text) (n mtime : ℕ)
      → IsFine c
      → IsFine (put_filesize c filename n mtime)) where
  open_encoder-IsFine :
      (t : Transcoder codecs) (d : codecs.Decoder)
      → IsFine t.stats_cache
      → IsFine
          (open_encoder codecs get_filesize put_filesize desttype statcachesize t d).0.stats_cache
  unfolding open_encoder
  open_encoder-IsFine t d fine = elim (Option-cases (codecs.create_encoder desttype)) [
    | inl lost ↦ ground (arith, fine, lost)
    | inr (e, made) ↦ elim (Option-cases (codecs.process_metadata d e)) [
      | inl lost ↦ ground (arith, fine, made, lost)
      | inr ((d', e'), read) ↦
          ground (arith, made, read, get-IsFine t.stats_cache t.filename (codecs.mtime d') fine)
    ]
  ]

  pub open_-IsFine :
      (t : Transcoder codecs)
      → IsFine t.stats_cache
      → IsFine (open_ codecs get_filesize put_filesize desttype statcachesize t).0.stats_cache
  unfolding open_
  open_-IsFine t fine =
      let dot_idx = rfind b'.' t.filename in
      let created : Option codecs.Decoder =
        if dot_idx == npos then none else codecs.create_decoder (drop (dot_idx + 1) t.filename) in
      elim (Option-cases created) [
        | inl lost ↦ ground (arith, fine, lost)
        | inr (d, made) ↦ elim (Option-cases (codecs.open_file d t.filename)) [
          | inl lost ↦ ground (arith, fine, made, lost)
          | inr (d', opened) ↦ ground (arith, made, opened, open_encoder-IsFine t d' fine)
        ]
      ]

  remember-IsFine :
      (t : Transcoder codecs) (mtime : ℕ)
      → IsFine t.stats_cache
      → IsFine
          (remember codecs get_filesize put_filesize desttype statcachesize t mtime).stats_cache
  unfolding remember
  remember-IsFine t mtime fine =
      ground (arith, fine, put-IsFine t.stats_cache t.filename (size t.buffer) mtime fine)

  finish_encoder-IsFine :
      (t : Transcoder codecs) (mtime : ℕ) (o : Option codecs.Encoder)
      → IsFine t.stats_cache
      → IsFine
          (finish_encoder codecs get_filesize put_filesize desttype statcachesize t mtime
            o).0.stats_cache
  unfolding finish_encoder
  finish_encoder-IsFine t mtime none fine = remember-IsFine t mtime fine
  finish_encoder-IsFine t mtime (some e) fine =
      elim (Option-cases (codecs.encode_finish e t.buffer)) [
        | inl broken ↦ ground (arith, fine, broken)
        | inr (b, ends) ↦
            ground
              (arith, ends, remember-IsFine (record t { buffer = b; encoder = none }) mtime fine)
      ]

  after_frame-IsFine :
      (t : Transcoder codecs) (status : Status)
      → IsFine t.stats_cache
      → IsFine
          (after_frame codecs get_filesize put_filesize desttype statcachesize t
            status).0.stats_cache
  unfolding after_frame finish
  after_frame-IsFine t more fine = fine
  after_frame-IsFine t ended fine =
      finish_encoder-IsFine (record t { decoder = none }) _ t.encoder fine
  after_frame-IsFine t failed fine = fine

  turn-IsFine :
      (t u : Transcoder codecs) (offset len : ℕ) (goes : Bool)
      → IsFine t.stats_cache
      → turn codecs get_filesize put_filesize desttype statcachesize t offset len ≡ some (u, goes)
      → IsFine u.stats_cache
  unfolding turn round
  turn-IsFine t u offset len goes fine h = elim (Option-cases t.decoder) [
    | inl over ↦ absurd (ground arith)
    | inr (d, decodes) ↦ elim (Option-cases t.encoder) [
      | inl lost ↦ absurd (ground arith)
      | inr (e, encodes) ↦
          let (status, d', e', b) = codecs.process_single_fr d e t.buffer in
          let t' : Transcoder codecs = record t {
            decoder = some d';
            encoder = some e';
            buffer = b;
          } in
          let same : (after_frame codecs get_filesize put_filesize desttype statcachesize t'
                status).0
              ≡ u =
            ground (arith, decodes, encodes) in
          subst (λ (x : Transcoder codecs). IsFine x.stats_cache) same
            (after_frame-IsFine t' status fine)
    ]
  ]

  loop-IsFine :
      (fuel : ℕ) (t u : Transcoder codecs) (offset len : ℕ) (goes : Bool)
      → IsFine t.stats_cache
      → loop codecs get_filesize put_filesize desttype statcachesize fuel t offset len
        ≡ some (u, goes)
      → IsFine u.stats_cache
  unfolding loop
  loop-IsFine zero t u offset len goes fine h = absurd (cc)
  loop-IsFine (suc fuel) t u offset len goes fine h =
      elim (Option-cases
        (turn codecs get_filesize put_filesize desttype statcachesize t offset len)) [
          | inl over ↦
              let same : t ≡ u = ground arith in
              subst (λ (x : Transcoder codecs). IsFine x.stats_cache) same fine
          | inr ((v, goes_on), turned) ↦
              let fine' = turn-IsFine t v offset len goes_on fine turned in
              elim (Bool-cases goes_on) [
                | inl goes_round ↦ loop-IsFine fuel v u offset len goes fine' (ground arith)
                | inr stops ↦
                    let same : v ≡ u = ground arith in
                    subst (λ (x : Transcoder codecs). IsFine x.stats_cache) same fine'
              ]
        ]

  pub read-IsFine :
      (fuel : ℕ) (t u : Transcoder codecs) (offset len : ℕ) (result : Result)
      → IsFine t.stats_cache
      → read codecs get_filesize put_filesize desttype statcachesize fuel t offset len
        ≡ some (u, result)
      → IsFine u.stats_cache
  unfolding read
  read-IsFine fuel t u offset len result fine h =
      elim (Bool-cases (ltb (get_size codecs t) offset || valid_bytes t.buffer offset len)) [
        | inl ready ↦
            let same : t ≡ u = ground arith in
            subst (λ (x : Transcoder codecs). IsFine x.stats_cache) same fine
        | inr missing ↦
            elim (Option-cases
              (loop codecs get_filesize put_filesize desttype statcachesize fuel t offset len)) [
                | inl out_of_fuel ↦ absurd (ground arith)
                | inr ((v, goes), ran) ↦
                    let same : v ≡ u = ground arith in
                    subst (λ (x : Transcoder codecs). IsFine x.stats_cache) same
                      (loop-IsFine fuel t v offset len goes fine ran)
              ]
      ]
