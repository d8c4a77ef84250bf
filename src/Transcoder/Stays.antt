-- ===== src/Transcoder/Stays.antt =====
-- src/transcode.cc: what has been read of a file stays.
use mp3fs.Prelude.{
  ℕ, zero, suc, ◌≡◌, ◌≢◌, refl, ap₂, sym, subst, inl, inr, Bool, true, false, List, [], ◌∷◌, map,
  Option, none, some, arith, ltb, Text, Option-cases, Bool-cases,
}
use mp3fs.Buffer.{Buffer, Copy, size, valid_bytes}
use mp3fs.Buffer.View.{IsValid, at, window}
use mp3fs.Buffer.Keeps.{Keeps, Keeps-refl, Keeps-trans}
use mp3fs.StatsCache.{Cache}
use mp3fs.Transcoder.{
  Codecs, Transcoder, Status, more, ended, failed, Result, get_size, remember, finish_encoder,
  finish, after_frame, round, turn, loop, read,
}
use mp3fs.Transcoder.Loop.{Laws, IsReadable, turn_goes}
use mp3fs.Transcoder.Serves.{Gives}

-- The codecs only write what was not known: a frame, and the end of the encoding.
pub record IsStable (codecs : Codecs) : Type 0 where
  pub process-Keeps :
      (d : codecs.Decoder) (e : codecs.Encoder) (b : Buffer)
      → IsValid b
      → Keeps b (codecs.process_single_fr d e b).3
  pub finish-Keeps :
      (e : codecs.Encoder) (b b' : Buffer)
      → IsValid b
      → codecs.encode_finish e b ≡ some b'
      → Keeps b b'
  pub refused-Keeps :
      (e : codecs.Encoder) (b : Buffer)
      → IsValid b
      → codecs.encode_finish e b ≡ none
      → Keeps b (codecs.refused_buffer e b)

-- The same positions are known, with the same bytes.
window-Keeps :
    (b b' : Buffer) (offset n : ℕ) (out : List ℕ)
    → Keeps b b'
    → map some out ≡ window b offset n
    → map some out ≡ window b' offset n
unfolding window
window-Keeps b b' offset zero [] k h = refl
window-Keeps b b' offset (suc n) [] k h = cc
window-Keeps b b' offset zero (x ∷ out) k h = cc
window-Keeps b b' offset (suc n) (x ∷ out) k h =
    let here : at b offset ≡ some x = ground arith in
    let rest : map some out ≡ window b (suc offset) n = ground arith in
    ap₂ ◌∷◌ (sym (k.kept offset x here)) (window-Keeps b b' (suc offset) n out k rest)

pub Gives-Keeps :
    (b b' : Buffer) (offset n : ℕ) (c : Copy)
    → Keeps b b'
    → Gives b offset n c
    → Gives b' offset n c
Gives-Keeps b b' offset n c k g = record {
  out = g.out;
  long = g.long;
  same = window-Keeps b b' offset n g.out k g.same;
  what = g.what;
}

module _ (codecs : Codecs) (laws : Laws codecs) (stable : IsStable codecs)
    (get_filesize : Cache → Text → ℕ → Cache × Option ℕ)
    (put_filesize : Cache → Text → ℕ → ℕ → Cache) (desttype : Text) (statcachesize : ℕ) where
  abbrev pub Readable : Transcoder codecs → Type 0
  Readable = IsReadable codecs laws get_filesize put_filesize desttype statcachesize

  after_frame-Keeps :
      (t : Transcoder codecs) (s : Status) (e : codecs.Encoder)
      → t.encoder ≡ some e
      → (s ≢ failed → laws.IsReady t.buffer)
      → Keeps t.buffer
          (after_frame codecs get_filesize put_filesize desttype statcachesize t s).0.buffer
  unfolding after_frame finish finish_encoder remember
  after_frame-Keeps t more e he v = Keeps-refl t.buffer
  after_frame-Keeps t failed e he v = Keeps-refl t.buffer
  after_frame-Keeps t ended e he v = elim (Option-cases (codecs.encode_finish e t.buffer)) [
    | inl broken ↦ ground (
      arith,
      stable.refused-Keeps e t.buffer (laws.IsReady-IsValid t.buffer (v (λ q. cc))) broken,
    )
    | inr (b, ends) ↦
        ground (
          arith,
          stable.finish-Keeps e t.buffer b (laws.IsReady-IsValid t.buffer (v (λ q. cc))) ends,
        )
  ]

  round-Keeps :
      (t : Transcoder codecs) (d : codecs.Decoder) (e : codecs.Encoder)
      → laws.IsReady t.buffer
      → Keeps t.buffer
          (round codecs get_filesize put_filesize desttype statcachesize t d e).0.buffer
  unfolding round
  round-Keeps t d e v =
      let r = codecs.process_single_fr d e t.buffer in
      Keeps-trans (stable.process-Keeps d e t.buffer (laws.IsReady-IsValid t.buffer v)) (
        after_frame-Keeps (record t { decoder = some r.1; encoder = some r.2; buffer = r.3 }) r.0
          r.2 refl (laws.process-IsReady d e t.buffer v))

  pub turn-Keeps :
      (t t' : Transcoder codecs) (offset len : ℕ) (fine : Bool)
      → Readable t
      → turn codecs get_filesize put_filesize desttype statcachesize t offset len ≡ some (t', fine)
      → Keeps t.buffer t'.buffer
  unfolding turn
  turn-Keeps t t' offset len fine (inl (whole, over)) goes = absurd (ground arith)
  turn-Keeps t t' offset len fine (inr (v, _, _)) goes = elim (Option-cases t.decoder) [
    | inl lost ↦ absurd (ground arith)
    | inr (d, hd) ↦ elim (Option-cases t.encoder) [
      | inl lost ↦ absurd (ground arith)
      | inr (e, he) ↦
          let same : round codecs get_filesize put_filesize desttype statcachesize t d e
              ≡ (t', fine) =
            ground arith in
          subst (λ (x : Transcoder codecs × Bool). Keeps t.buffer x.0.buffer) same
            (round-Keeps t d e v)
    ]
  ]

  loop-Keeps :
      (fuel : ℕ) (t t' : Transcoder codecs) (offset len : ℕ) (fine : Bool)
      → Readable t
      → loop codecs get_filesize put_filesize desttype statcachesize fuel t offset len
        ≡ some (t', fine)
      → Keeps t.buffer t'.buffer
  unfolding loop
  loop-Keeps zero t t' offset len fine r h = absurd (cc)
  loop-Keeps (suc fuel) t t' offset len fine r h =
      elim (Option-cases
        (turn codecs get_filesize put_filesize desttype statcachesize t offset len)) [
          | inl stop ↦
              let same : t ≡ t' = ground arith in
              subst (λ (x : Transcoder codecs). Keeps t.buffer x.buffer) same (Keeps-refl t.buffer)
          | inr ((u, false), goes) ↦
              let same : u ≡ t' = ground arith in
              subst (λ (x : Transcoder codecs). Keeps t.buffer x.buffer) same
                (turn-Keeps t u offset len false r goes)
          | inr ((u, true), goes) ↦
              let (r', _) =
                turn_goes codecs laws get_filesize put_filesize desttype statcachesize t u offset
                  len r goes in
              Keeps-trans (turn-Keeps t u offset len true r goes)
                (loop-Keeps fuel u t' offset len fine r' (ground arith))
        ]

  pub read-Keeps :
      (fuel : ℕ) (t t' : Transcoder codecs) (offset len : ℕ) (result : Result)
      → Readable t
      → read codecs get_filesize put_filesize desttype statcachesize fuel t offset len
        ≡ some (t', result)
      → Keeps t.buffer t'.buffer
  unfolding read get_size
  read-Keeps fuel t t' offset len result r h = elim (Bool-cases (ltb (size t.buffer) offset)) [
    | inl beyond ↦ there t (ground arith) (Keeps-refl t.buffer)
    | inr inside ↦ elim (Bool-cases (valid_bytes t.buffer offset len)) [
      | inl ok ↦ there t (ground arith) (Keeps-refl t.buffer)
      | inr missing ↦
          elim (Option-cases
            (loop codecs get_filesize put_filesize desttype statcachesize fuel t offset len)) [
              | inl out_of_fuel ↦ absurd (ground arith)
              | inr ((u, fine), goes) ↦
                  there u (ground arith) (loop-Keeps fuel t u offset len fine r goes)
            ]
    ]
  ]
    where
      there : (u : Transcoder codecs) → u ≡ t' → Keeps t.buffer u.buffer → Keeps t.buffer t'.buffer
      there u same k = subst (λ (x : Transcoder codecs). Keeps t.buffer x.buffer) same k

  -- What a readable file has given stays: after any later `read` that returns, whether it succeeds
  -- or fails, the file has the same size, and the same bytes at the same place.
  pub read-Gives :
      (fuel : ℕ) (t t' : Transcoder codecs) (offset n later len : ℕ) (c : Copy) (result : Result)
      → Readable t
      → Gives t.buffer offset n c
      → read codecs get_filesize put_filesize desttype statcachesize fuel t later len
        ≡ some (t', result)
      → Gives t'.buffer offset n c × (size t'.buffer ≡ size t.buffer)
  read-Gives fuel t t' offset n later len c result r g h =
      let keeps = read-Keeps fuel t t' later len result r h in
      (Gives-Keeps t.buffer t'.buffer offset n c keeps g, keeps.same_size)
