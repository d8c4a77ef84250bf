-- ===== src/Transcoder/Loop.antt =====
-- src/transcode.cc: the loop of `read` ends, and leaves the bytes that are asked for or the whole
-- file.
use mp3fs.Prelude.{
  ℕ, zero, suc, ◌+◌, ◌≤◌, ◌<◌, ◌≡◌, ◌≢◌, refl, subst, ap, ◌⊎◌, inl, inr, Bool, true, false, Option,
  none, some, arith, half, Text, Option-cases,
}
use mp3fs.Buffer.{Buffer, tell}
use mp3fs.Buffer.View.{IsValid}
use mp3fs.Buffer.Writes.{IsComplete}
use mp3fs.StatsCache.{Cache}
use mp3fs.Transcoder.{
  Codecs, Status, more, ended, failed, Transcoder, remember, finish_encoder, finish, after_frame,
  round, wanted, turn, loop,
}

-- What a decoder and an encoder do: a frame is taken from a finite number, a frame that is
-- processed leaves a buffer ready for the next one, which is a valid buffer, and the end of the
-- encoding leaves no gap.
pub record Laws (codecs : Codecs) : Type 1 where
  pub frames_left : codecs.Decoder → ℕ
  pub more_lem :
      (d : codecs.Decoder) (e : codecs.Encoder) (b : Buffer)
      → (codecs.process_single_fr d e b).0 ≡ more
      → frames_left (codecs.process_single_fr d e b).1 < frames_left d
  pub IsReady : Buffer → Type 0
  pub IsReady-IsValid : (b : Buffer) → IsReady b → IsValid b
  pub process-IsReady :
      (d : codecs.Decoder) (e : codecs.Encoder) (b : Buffer)
      → IsReady b
      → (codecs.process_single_fr d e b).0 ≢ failed
      → IsReady (codecs.process_single_fr d e b).3
  pub finish-IsComplete :
      (e : codecs.Encoder) (b b' : Buffer)
      → IsReady b
      → codecs.encode_finish e b ≡ some b'
      → IsComplete b'

module _ (codecs : Codecs) (laws : Laws codecs) (get_filesize : Cache → Text → ℕ → Cache × Option ℕ)
    (put_filesize : Cache → Text → ℕ → ℕ → Cache) (desttype : Text) (statcachesize : ℕ) where
  abbrev pub State : Type 0
  State = Transcoder codecs

  abbrev pub turn_of : State → ℕ → ℕ → Option (State × Bool)
  turn_of = turn codecs get_filesize put_filesize desttype statcachesize

  abbrev pub loop_of : ℕ → State → ℕ → ℕ → Option (State × Bool)
  loop_of = loop codecs get_filesize put_filesize desttype statcachesize

  -- The file is complete, or it is being encoded.
  abbrev pub IsReadable : State → Type 0
  IsReadable t =
      (IsComplete t.buffer × (t.decoder ≡ none))
      ⊎ (laws.IsReady t.buffer
          × ((d : codecs.Decoder) × (t.decoder ≡ some d))
          × ((e : codecs.Encoder) × (t.encoder ≡ some e)))

  -- The rounds that are left.
  abbrev pub rounds_left : State → ℕ
  rounds_left t = elim t.decoder [ none ↦ 0 | some d ↦ suc (laws.frames_left d) ]

  abbrev pub round_of : State → codecs.Decoder → codecs.Encoder → State × Bool
  round_of = round codecs get_filesize put_filesize desttype statcachesize

  finish-IsComplete_lem :
      (t : State) (e : codecs.Encoder)
      → laws.IsReady t.buffer
      → t.encoder ≡ some e
      → (finish codecs get_filesize put_filesize desttype statcachesize t).1 ≡ true
      → IsComplete (finish codecs get_filesize put_filesize desttype statcachesize t).0.buffer
        × ((finish codecs get_filesize put_filesize desttype statcachesize t).0.decoder ≡ none)
  unfolding finish finish_encoder remember
  finish-IsComplete_lem t e v has fine = elim (Option-cases (codecs.encode_finish e t.buffer)) [
    | inl broken ↦ ground arith
    | inr (b, ends) ↦
        let whole = laws.finish-IsComplete e t.buffer b v ends in ground (arith, whole)
  ]

  -- A frame that does not fail leaves a readable file and fewer rounds.
  after_frame_lem :
      (t : State) (s : Status) (d : codecs.Decoder) (e : codecs.Encoder) (n : ℕ)
      → t.decoder ≡ some d
      → t.encoder ≡ some e
      → (s ≢ failed → laws.IsReady t.buffer)
      → (s ≡ more → laws.frames_left d < n)
      → (after_frame codecs get_filesize put_filesize desttype statcachesize t s).1 ≡ true
      → IsReadable (after_frame codecs get_filesize put_filesize desttype statcachesize t s).0
        × (rounds_left (after_frame codecs get_filesize put_filesize desttype statcachesize t s).0
            < suc n)
  unfolding after_frame
  after_frame_lem t more d e n hd he v fewer fine =
      (inr (v (λ q. cc), (d, hd), (e, he)), rw hd (omega (arith, fewer refl)))
  after_frame_lem t ended d e n hd he v fewer fine =
      let (whole, over) = finish-IsComplete_lem t e (v (λ q. cc)) he fine in
      (inl (whole, over), ground (arith, over))
  after_frame_lem t failed d e n hd he v fewer fine = cc

  round_lem :
      (t : State) (d : codecs.Decoder) (e : codecs.Encoder)
      → laws.IsReady t.buffer
      → (round_of t d e).1 ≡ true
      → IsReadable (round_of t d e).0 × (rounds_left (round_of t d e).0 < suc (laws.frames_left d))
  unfolding round
  round_lem t d e v fine =
      after_frame_lem _ _ _ _ (laws.frames_left d) refl refl (laws.process-IsReady d e t.buffer v)
        (laws.more_lem d e t.buffer) fine

  -- A frame cannot be decoded or encoded here, or ends the file and the encoding cannot be ended.
  abbrev pub Fails : State → Type 0
  Fails u =
      (d : codecs.Decoder) × (e : codecs.Encoder) × (u.decoder ≡ some d)
      × (u.encoder ≡ some e)
      × (((codecs.process_single_fr d e u.buffer).0 ≡ failed)
          ⊎ (((codecs.process_single_fr d e u.buffer).0 ≡ ended)
              × (codecs.encode_finish (codecs.process_single_fr d e u.buffer).2
                    (codecs.process_single_fr d e u.buffer).3
                  ≡ none)))

  -- The rounds of the loop lead from one state to another.
  pub data Reaches (offset len : ℕ) : State → State → Type 0 where
    here : {t : State} → Reaches offset len t t
    next :
        {t u v : State}
        → turn_of t offset len ≡ some (u, true)
        → Reaches offset len u v
        → Reaches offset len t v

  -- The rounds lead to a state where the codecs fail.
  abbrev pub Failure : State → ℕ → ℕ → Type 0
  Failure t offset len = (u : State) × Reaches offset len t u × Fails u

  after_frame_fails :
      (t : State) (s : Status) (e : codecs.Encoder)
      → t.encoder ≡ some e
      → (after_frame codecs get_filesize put_filesize desttype statcachesize t s).1 ≡ false
      → (s ≡ failed) ⊎ ((s ≡ ended) × (codecs.encode_finish e t.buffer ≡ none))
  unfolding after_frame finish finish_encoder remember
  after_frame_fails t more e he bad = cc
  after_frame_fails t ended e he bad = elim (Option-cases (codecs.encode_finish e t.buffer)) [
    | inl broken ↦ inr (refl, broken)
    | inr (b, ends) ↦ absurd (ground arith)
  ]
  after_frame_fails t failed e he bad = inl refl

  round-Fails :
      (t : State) (d : codecs.Decoder) (e : codecs.Encoder)
      → t.decoder ≡ some d
      → t.encoder ≡ some e
      → (round_of t d e).1 ≡ false
      → Fails t
  unfolding round
  round-Fails t d e hd he bad =
      let r = codecs.process_single_fr d e t.buffer in
      (
        d,
        e,
        hd,
        he,
        after_frame_fails (record t { decoder = some r.1; encoder = some r.2; buffer = r.3 }) r.0
            r.2 refl bad,
      )

  turn-Fails : (t t' : State) (offset len : ℕ) → turn_of t offset len ≡ some (t', false) → Fails t
  unfolding turn
  turn-Fails t t' offset len bad = elim (Option-cases t.decoder) [
    | inl lost ↦ absurd (ground arith)
    | inr (d, hd) ↦ elim (Option-cases t.encoder) [
      | inl lost ↦ absurd (ground arith)
      | inr (e, he) ↦
          let same : round_of t d e ≡ (t', false) = ground arith in
          round-Fails t d e hd he (ap (λ (x : State × Bool). x.1) same)
    ]
  ]

  -- Where the loop stops, the file is complete or the bytes that are asked for are there.
  turn_stops :
      (t : State) (offset len : ℕ)
      → IsReadable t
      → offset + len < half
      → turn_of t offset len ≡ none
      → IsComplete t.buffer ⊎ (IsValid t.buffer × (offset + len ≤ tell t.buffer))
  unfolding turn wanted tell
  turn_stops t offset len (inl (whole, _)) small stop = inl whole
  turn_stops t offset len (inr (v, (d, hd), (e, he))) small stop =
      inr (laws.IsReady-IsValid t.buffer v, ground (arith, laws.IsReady-IsValid t.buffer v))

  pub turn_goes :
      (t t' : State) (offset len : ℕ)
      → IsReadable t
      → turn_of t offset len ≡ some (t', true)
      → IsReadable t' × (rounds_left t' < rounds_left t)
  unfolding turn
  turn_goes t t' offset len (inl (whole, over)) goes = absurd (ground arith)
  turn_goes t t' offset len (inr (v, _, _)) goes = elim (Option-cases t.decoder) [
    | inl lost ↦ ground arith
    | inr (d, hd) ↦ elim (Option-cases t.encoder) [
      | inl lost ↦ ground arith
      | inr (e, he) ↦
          let same : round_of t d e ≡ (t', true) = ground arith in
          let next = round_lem t d e v (ap (λ (x : State × Bool). x.1) same) in
          rw hd (
            subst
              (λ (x : State × Bool). IsReadable x.0 × (rounds_left x.0 < suc (laws.frames_left d)))
              same next)
    ]
  ]

  -- With more fuel than rounds are left the loop ends, by a failure of the codecs or with a
  -- readable file.
  pub loop_lem :
      (fuel : ℕ) (t : State) (offset len : ℕ)
      → IsReadable t
      → offset + len < half
      → rounds_left t < fuel
      → (t' : State) × (fine : Bool) × (loop_of fuel t offset len ≡ some (t', fine))
        × (((fine ≡ false) × Failure t offset len)
            ⊎ ((fine ≡ true)
                × IsReadable t'
                × (IsComplete t'.buffer ⊎ (IsValid t'.buffer × (offset + len ≤ tell t'.buffer)))))
  unfolding loop
  loop_lem zero t offset len r small enough = absurd (omega arith)
  loop_lem (suc fuel) t offset len r small enough = elim (Option-cases (turn_of t offset len)) [
    | inl stop ↦ (t, true, ground arith, inr (refl, r, turn_stops t offset len r small stop))
    | inr ((t', false), goes) ↦
        (t', false, ground arith, inl (refl, (t, here, turn-Fails t t' offset len goes)))
    | inr ((t', true), goes) ↦
        let (r', fewer) = turn_goes t t' offset len r goes in
        let (u, fine, e, post) = loop_lem fuel t' offset len r' small (omega arith) in
        (
          u,
          fine,
          ground (arith, e),
          elim post [
            | inl (bad, (w, reached, fails)) ↦ inl (bad, (w, next goes reached, fails))
            | inr good ↦ inr good
          ],
        )
  ]
