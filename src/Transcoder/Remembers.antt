-- ===== src/Transcoder/Remembers.antt =====
-- src/transcode.cc: what the end of an encoding leaves in the cache of sizes.
use mp3fs.Prelude.{
  ℕ, zero, suc, ◌≡◌, refl, subst, ◌⊎◌, inl, inr, Bool, List, [], ◌∷◌, Option, none, some, arith,
  if◌then◌else◌, ◌&&◌, ◌||◌, not, ltb, ◌==◌, Text, Option-cases, Bool-cases,
}
use mp3fs.Buffer.{Buffer, size, valid_bytes}
use mp3fs.StatsCache.{Cache}
use mp3fs.Transcoder.{
  Codecs, Transcoder, Result, got, eio, Status, more, ended, failed, get_size, remember,
  finish_encoder, finish, after_frame, round, turn, loop, read,
}
use mp3fs.Transcoder.Sessions.{session}

module _ (codecs : Codecs) (get_filesize : Cache → Text → ℕ → Cache × Option ℕ)
    (put_filesize : Cache → Text → ℕ → ℕ → Cache) (desttype : Text) (statcachesize : ℕ)
    (mtime-process : (d : codecs.Decoder) (e : codecs.Encoder) (b : Buffer)
      → codecs.mtime (codecs.process_single_fr d e b).1 ≡ codecs.mtime d) where
  -- The cache after the size of the file is put, if there is a cache and the file is not empty.
  abbrev pub put_of : Cache → Text → ℕ → ℕ → Cache
  put_of cache filename mtime n =
      if ltb 0 statcachesize && not (n == 0) then put_filesize cache filename n mtime else cache

  -- The file is being encoded, or its encoding has failed at its end, or it has ended and its size
  -- was put with the modified time that the decoder had.
  abbrev pub IsOnTheWay : Text → ℕ → Cache → Transcoder codecs → Type 0
  IsOnTheWay filename mtime cache t =
      (((d : codecs.Decoder) × (t.decoder ≡ some d) × (codecs.mtime d ≡ mtime))
        × ((e : codecs.Encoder) × (t.encoder ≡ some e))
        × (t.filename ≡ filename)
        × (t.stats_cache ≡ cache))
      ⊎ ((t.decoder ≡ none) × ((e : codecs.Encoder) × (t.encoder ≡ some e)))
      ⊎ ((t.decoder ≡ none)
          × (t.encoder ≡ none)
          × (t.stats_cache ≡ put_of cache filename mtime (size t.buffer)))

  finish-IsOnTheWay :
      (t : Transcoder codecs) (d : codecs.Decoder) (e : codecs.Encoder)
      → t.decoder ≡ some d
      → t.encoder ≡ some e
      → IsOnTheWay t.filename
          (codecs.mtime d)
          t.stats_cache
          (finish codecs get_filesize put_filesize desttype statcachesize t).0
  unfolding finish finish_encoder remember
  finish-IsOnTheWay t d e decodes encodes = elim (Option-cases (codecs.encode_finish e t.buffer)) [
    | inl broken ↦ inr (inl (ground (arith, encodes, broken), (e, ground (arith, encodes, broken))))
    | inr (b, ends) ↦ inr (
        inr (
          ground (arith, encodes, ends),
          ground (arith, encodes, ends),
          ground (arith, encodes, ends, decodes),
        ))
  ]

  after_frame-IsOnTheWay :
      (t : Transcoder codecs) (d : codecs.Decoder) (e : codecs.Encoder) (s : Status)
      → t.decoder ≡ some d
      → t.encoder ≡ some e
      → IsOnTheWay t.filename
          (codecs.mtime d)
          t.stats_cache
          (after_frame codecs get_filesize put_filesize desttype statcachesize t s).0
  unfolding after_frame
  after_frame-IsOnTheWay t d e more decodes encodes =
      inl ((d, decodes, refl), (e, encodes), refl, refl)
  after_frame-IsOnTheWay t d e ended decodes encodes = finish-IsOnTheWay t d e decodes encodes
  after_frame-IsOnTheWay t d e failed decodes encodes =
      inl ((d, decodes, refl), (e, encodes), refl, refl)

  round-IsOnTheWay :
      (t : Transcoder codecs) (d : codecs.Decoder) (e : codecs.Encoder)
      → IsOnTheWay t.filename
          (codecs.mtime d)
          t.stats_cache
          (round codecs get_filesize put_filesize desttype statcachesize t d e).0
  unfolding round
  round-IsOnTheWay t d e =
      let (s, d', e', b) = codecs.process_single_fr d e t.buffer in
      subst
        (λ m.
          IsOnTheWay t.filename m t.stats_cache
            (round codecs get_filesize put_filesize desttype statcachesize t d e).0)
        (mtime-process d e t.buffer)
        (after_frame-IsOnTheWay (record t { decoder = some d'; encoder = some e'; buffer = b }) d'
          e' s refl refl)

  turn-IsOnTheWay :
      (filename : Text) (mtime : ℕ) (cache : Cache) (t t' : Transcoder codecs) (offset len : ℕ)
      (fine : Bool)
      → IsOnTheWay filename mtime cache t
      → turn codecs get_filesize put_filesize desttype statcachesize t offset len ≡ some (t', fine)
      → IsOnTheWay filename mtime cache t'
  unfolding turn
  turn-IsOnTheWay filename mtime cache t t' offset len fine
        (inl ((d, decodes, dated), (e, encodes), named, same_cache)) goes =
      let next = round codecs get_filesize put_filesize desttype statcachesize t d e in
      let same : next.0 ≡ t' = ground (arith, decodes, encodes) in
      subst (λ (x : Transcoder codecs). IsOnTheWay filename mtime cache x) same
        (subst (λ (n : Text). IsOnTheWay n mtime cache next.0) named
          (subst (λ (m : ℕ). IsOnTheWay t.filename m cache next.0) dated
            (subst (λ (c : Cache). IsOnTheWay t.filename (codecs.mtime d) c next.0) same_cache
              (round-IsOnTheWay t d e))))
  turn-IsOnTheWay filename mtime cache t t' offset len fine (inr (inl (over, stays))) goes =
      absurd (ground (arith, over))
  turn-IsOnTheWay filename mtime cache t t' offset len fine (inr (inr (over, stays, put))) goes =
      absurd (ground (arith, over))

  loop-IsOnTheWay :
      (filename : Text) (mtime : ℕ) (cache : Cache) (fuel : ℕ) (t t' : Transcoder codecs)
      (offset len : ℕ) (fine : Bool)
      → IsOnTheWay filename mtime cache t
      → loop codecs get_filesize put_filesize desttype statcachesize fuel t offset len
        ≡ some (t', fine)
      → IsOnTheWay filename mtime cache t'
  unfolding loop
  loop-IsOnTheWay filename mtime cache zero t t' offset len fine way h = absurd (cc)
  loop-IsOnTheWay filename mtime cache (suc fuel) t t' offset len fine way h =
      elim (Option-cases
        (turn codecs get_filesize put_filesize desttype statcachesize t offset len)) [
          | inl over ↦
              let same : t ≡ t' = ground arith in
              subst (λ (x : Transcoder codecs). IsOnTheWay filename mtime cache x) same way
          | inr ((u, goes_on), goes) ↦
              let way' = turn-IsOnTheWay filename mtime cache t u offset len goes_on way goes in
              elim (Bool-cases goes_on) [
                | inl goes_round ↦
                    loop-IsOnTheWay filename mtime cache fuel u t' offset len fine way'
                      (ground arith)
                | inr stops ↦
                    let same : u ≡ t' = ground arith in
                    subst (λ (x : Transcoder codecs). IsOnTheWay filename mtime cache x) same way'
              ]
        ]

  read-IsOnTheWay :
      (filename : Text) (mtime : ℕ) (cache : Cache) (fuel : ℕ) (t t' : Transcoder codecs)
      (offset len : ℕ) (result : Result)
      → IsOnTheWay filename mtime cache t
      → read codecs get_filesize put_filesize desttype statcachesize fuel t offset len
        ≡ some (t', result)
      → IsOnTheWay filename mtime cache t'
  unfolding read
  read-IsOnTheWay filename mtime cache fuel t t' offset len result way h =
      elim (Bool-cases (ltb (get_size codecs t) offset || valid_bytes t.buffer offset len)) [
        | inl ready ↦
            let same : t ≡ t' = ground arith in
            subst (λ (x : Transcoder codecs). IsOnTheWay filename mtime cache x) same way
        | inr missing ↦
            elim (Option-cases
              (loop codecs get_filesize put_filesize desttype statcachesize fuel t offset len)) [
                | inl out_of_fuel ↦ absurd (ground arith)
                | inr ((u, fine), ran) ↦
                    let same : u ≡ t' = ground arith in
                    subst (λ (x : Transcoder codecs). IsOnTheWay filename mtime cache x) same
                      (loop-IsOnTheWay filename mtime cache fuel t u offset len fine way ran)
              ]
      ]

  pub session-IsOnTheWay :
      (filename : Text) (mtime : ℕ) (cache : Cache) (fuel : ℕ) (t t' : Transcoder codecs)
      (requests : List (ℕ × ℕ)) (results : List Result)
      → IsOnTheWay filename mtime cache t
      → session codecs get_filesize put_filesize desttype statcachesize fuel t requests
        ≡ some (t', results)
      → IsOnTheWay filename mtime cache t'
  unfolding session
  session-IsOnTheWay filename mtime cache fuel t t' [] results way h =
      let same : t ≡ t' = ground arith in
      subst (λ (x : Transcoder codecs). IsOnTheWay filename mtime cache x) same way
  session-IsOnTheWay filename mtime cache fuel t t' ((offset, len) ∷ requests) results way h =
      elim (Option-cases
        (read codecs get_filesize put_filesize desttype statcachesize fuel t offset len)) [
          | inl out_of_fuel ↦ absurd (ground arith)
          | inr ((u, eio), answers) ↦
              let same : u ≡ t' = ground arith in
              subst (λ (x : Transcoder codecs). IsOnTheWay filename mtime cache x) same
                (read-IsOnTheWay filename mtime cache fuel t u offset len eio way answers)
          | inr ((u, got c n), answers) ↦
              let way' =
                read-IsOnTheWay filename mtime cache fuel t u offset len (got c n) way answers in
              elim (Option-cases
                (session codecs get_filesize put_filesize desttype statcachesize fuel u requests)) [
                  | inl out_of_fuel ↦ absurd (ground arith)
                  | inr ((v, rest), goes) ↦
                      let same : v ≡ t' = ground arith in
                      subst (λ (x : Transcoder codecs). IsOnTheWay filename mtime cache x) same
                        (session-IsOnTheWay filename mtime cache fuel u v requests rest way' goes)
                ]
        ]
