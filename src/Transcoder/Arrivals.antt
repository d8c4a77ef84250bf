-- ===== src/Transcoder/Arrivals.antt =====
-- src/transcode.cc: the states that the rounds of reads lead to, whatever happens to the cache of
-- sizes between them, come one after the other.
use mp3fs.Prelude.{
  ℕ, zero, suc, ◌≤◌, ◌≡◌, refl, sym, subst, ap, ◌∙◌, ◌⊎◌, inl, inr, true, Option, none, some, arith,
  Text, Option-cases,
}
use mp3fs.Buffer.{Buffer}
use mp3fs.Buffer.Keeps.{Keeps, Keeps-refl, Keeps-trans}
use mp3fs.StatsCache.{Cache}
use mp3fs.Transcoder.{
  Codecs, Transcoder, Status, more, ended, failed, remember, finish_encoder, finish, after_frame,
  round, turn,
}
use mp3fs.Transcoder.Loop.{Laws, IsReadable, turn_goes}
use mp3fs.Transcoder.Stays.{IsStable, turn-Keeps}
use mp3fs.Transcoder.Sessions.{Leads}

last_or_before : (j k : ℕ) → j ≤ suc k → (j ≡ suc k) ⊎ (j ≤ k)
last_or_before j k low = (omega arith)

le_or_le : (j k : ℕ) → (j ≤ k) ⊎ (k ≤ j)
le_or_le j k = (omega arith)

module _ (codecs : Codecs) (get_filesize : Cache → Text → ℕ → Cache × Option ℕ)
    (put_filesize : Cache → Text → ℕ → ℕ → Cache) (desttype : Text) (statcachesize : ℕ) where
  -- The rounds of reads lead from one state to another, with other caches of sizes between them.
  pub data Arrives (start : Transcoder codecs) : Transcoder codecs → Type 0 where
    here : Arrives start start
    goes :
        {t u : Transcoder codecs} (offset len : ℕ)
        → Arrives start t
        → turn codecs get_filesize put_filesize desttype statcachesize t offset len ≡ some (u, true)
        → Arrives start u
    recached :
        {t : Transcoder codecs} (c : Cache)
        → Arrives start t
        → Arrives start (record t { stats_cache = c })

  pub Arrives-trans :
      {start t u : Transcoder codecs} → Arrives start t → Arrives t u → Arrives start u
  Arrives-trans a here = a
  Arrives-trans a (goes offset len b h) = goes offset len (Arrives-trans a b) h
  Arrives-trans a (recached c b) = recached c (Arrives-trans a b)

  -- The same but for the cache of sizes and the name.
  abbrev Same : Transcoder codecs → Transcoder codecs → Type 0
  Same t s = (t.buffer ≡ s.buffer) × (t.decoder ≡ s.decoder) × (t.encoder ≡ s.encoder)

  finish-Same :
      (t s : Transcoder codecs)
      → Same t s
      → Same
          (finish codecs get_filesize put_filesize desttype statcachesize t).0
          (finish codecs get_filesize put_filesize desttype statcachesize s).0
  unfolding finish finish_encoder remember
  finish-Same t s (buffers, decoders, encoders) = elim (Option-cases t.encoder) [
    | inl lost ↦ ground (arith, lost, buffers, decoders, encoders)
    | inr (e, encodes) ↦ elim (Option-cases (codecs.encode_finish e t.buffer)) [
      | inl broken ↦ ground (arith, encodes, broken, buffers, decoders, encoders)
      | inr (b, ends) ↦ ground (arith, encodes, ends, buffers, decoders, encoders)
    ]
  ]

  after_frame-Same :
      (t s : Transcoder codecs) (status : Status)
      → Same t s
      → Same
          (after_frame codecs get_filesize put_filesize desttype statcachesize t status).0
          (after_frame codecs get_filesize put_filesize desttype statcachesize s status).0
  unfolding after_frame
  after_frame-Same t s more same = same
  after_frame-Same t s ended same = finish-Same t s same
  after_frame-Same t s failed same = same

  -- One round of the loop, where there is one.
  unfoldable step : Transcoder codecs → Transcoder codecs
  step t = elim t.decoder [
    | none ↦ t
    | some d ↦ elim t.encoder [
      | none ↦ t
      | some e ↦ (round codecs get_filesize put_filesize desttype statcachesize t d e).0
    ]
  ]

  round-Same :
      (t s : Transcoder codecs) (d : codecs.Decoder) (e : codecs.Encoder)
      → t.buffer ≡ s.buffer
      → Same
          (round codecs get_filesize put_filesize desttype statcachesize t d e).0
          (round codecs get_filesize put_filesize desttype statcachesize s d e).0
  unfolding round
  round-Same t s d e buffers =
      let r = codecs.process_single_fr d e t.buffer in
      subst
        (λ (b : Buffer).
          Same (round codecs get_filesize put_filesize desttype statcachesize t d e).0 (
            let (status, d', e', b') = codecs.process_single_fr d e b in
            (after_frame codecs get_filesize put_filesize desttype statcachesize
              (record s { decoder = some d'; encoder = some e'; buffer = b' }) status).0))
        buffers
        (after_frame-Same (record t { decoder = some r.1; encoder = some r.2; buffer = r.3 })
          (record s { decoder = some r.1; encoder = some r.2; buffer = r.3 }) r.0
          (refl, refl, refl))

  turn-step :
      (t u s : Transcoder codecs) (offset len : ℕ)
      → turn codecs get_filesize put_filesize desttype statcachesize t offset len ≡ some (u, true)
      → Same t s
      → Same u (step s)
  unfolding turn step
  turn-step t u s offset len h (buffers, decoders, encoders) = elim (Option-cases t.decoder) [
    | inl over ↦ absurd (ground (arith, over))
    | inr (d, decodes) ↦ elim (Option-cases t.encoder) [
      | inl lost ↦ absurd (ground (arith, decodes, lost))
      | inr (e, encodes) ↦
          ground (arith, decodes, encodes, decoders, encoders, round-Same t s d e buffers)
    ]
  ]

  unfoldable advance : ℕ → Transcoder codecs → Transcoder codecs
  advance zero start = start
  advance (suc k) start = step (advance k start)

  module _ (laws : Laws codecs) (stable : IsStable codecs) where
    pub Leads-Arrives :
        {start t u : Transcoder codecs}
        → Arrives start t
        → Leads codecs laws stable get_filesize put_filesize desttype statcachesize t u
        → Arrives start u
    Leads-Arrives a Leads.here = a
    Leads-Arrives a (Leads.next offset len h k) = Leads-Arrives (goes offset len a h) k

    abbrev ReadableOne : Transcoder codecs → Type 0
    ReadableOne = IsReadable codecs laws get_filesize put_filesize desttype statcachesize

    -- The state is that after some number of rounds, and knows what was known after fewer.
    abbrev IsAfter : Transcoder codecs → Transcoder codecs → Type 0
    IsAfter start t =
        (k : ℕ) × Same t (advance k start)
        × ReadableOne t
        × ((j : ℕ) → j ≤ k → Keeps (advance j start).buffer t.buffer)

    up_to :
        (start t u : Transcoder codecs) (k : ℕ)
        → Same u (advance (suc k) start)
        → Keeps t.buffer u.buffer
        → ((j : ℕ) → j ≤ k → Keeps (advance j start).buffer t.buffer)
        → (j : ℕ) → j ≤ suc k
        → Keeps (advance j start).buffer u.buffer
    up_to start t u k same kept before j low = elim (last_or_before j k low) [
      | inl last ↦
          subst (λ (b : Buffer). Keeps b u.buffer)
            (same.0 ∙ ap (λ n. (advance n start).buffer) (sym last)) (Keeps-refl u.buffer)
      | inr lower ↦ Keeps-trans (before j lower) kept
    ]

    at_first :
        (start : Transcoder codecs) (j : ℕ) → j ≤ 0 → Keeps (advance j start).buffer start.buffer
    unfolding advance
    at_first start zero low = Keeps-refl start.buffer
    at_first start (suc j) low = absurd (omega arith)

    Arrives-IsAfter :
        {start t : Transcoder codecs} → ReadableOne start → Arrives start t → IsAfter start t
    unfolding advance
    Arrives-IsAfter {start} r here = (0, (refl, refl, refl), r, at_first start)
    Arrives-IsAfter {start} r (goes {t} {u} offset len a h) =
        let (k, same, r', before) = Arrives-IsAfter r a in
        let kept =
          turn-Keeps codecs laws stable get_filesize put_filesize desttype statcachesize t u offset
            len true r' h in
        let same' = turn-step t u (advance k start) offset len h same in
        let (r'', _) =
          turn_goes codecs laws get_filesize put_filesize desttype statcachesize t u offset len r'
            h in
        (suc k, same', r'', up_to start t u k same' kept before)
    Arrives-IsAfter {start} r (recached c a) = Arrives-IsAfter r a

    -- Of two states that the rounds of reads lead to, one knows what the other knows.
    pub Arrives-Keeps :
        {start t u : Transcoder codecs}
        → ReadableOne start
        → Arrives start t
        → Arrives start u
        → Keeps t.buffer u.buffer ⊎ Keeps u.buffer t.buffer
    Arrives-Keeps {start} {t} {u} r a a' =
        let (k, same, _, before) = Arrives-IsAfter r a in
        let (k', same', _, before') = Arrives-IsAfter r a' in
        elim (le_or_le k k') [
          | inl low ↦ inl (subst (λ (b : Buffer). Keeps b u.buffer) (sym same.0) (before' k low))
          | inr high ↦ inr (subst (λ (b : Buffer). Keeps b t.buffer) (sym same'.0) (before k' high))
        ]
