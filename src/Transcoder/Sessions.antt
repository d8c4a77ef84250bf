-- ===== src/Transcoder/Sessions.antt =====
-- src/transcode.cc: the reads of one open file, one after the other.
use mp3fs.Prelude.{
  ℕ, zero, suc, ◌+◌, ◌-◌, ◌≤◌, ◌<◌, ◌≡◌, refl, ap, sym, subst, ◌∙◌, inl, inr, true, false, List, [],
  ◌∷◌, Option, none, some, arith, ltb, min, half, Text, Option-cases, Bool-cases,
}
use mp3fs.Buffer.{Buffer, Copy, size, valid_bytes}
use mp3fs.Buffer.Keeps.{Keeps, Keeps-refl, Keeps-trans}
use mp3fs.StatsCache.{Cache}
use mp3fs.Transcoder.{Codecs, Transcoder, Result, got, eio, get_size, turn, loop, read}
use mp3fs.Transcoder.Loop.{Laws, IsReadable, Reaches, Fails, rounds_left, turn_goes}
use mp3fs.Transcoder.Serves.{Gives, read-Answer}
use mp3fs.Transcoder.Stays.{IsStable, read-Keeps, Gives-Keeps}

module _ (codecs : Codecs) (get_filesize : Cache → Text → ℕ → Cache × Option ℕ)
    (put_filesize : Cache → Text → ℕ → ℕ → Cache) (desttype : Text) (statcachesize : ℕ) where
  -- Reads by offset and length, up to the first that fails.
  unfoldable pub session :
      ℕ → Transcoder codecs → List (ℕ × ℕ) → Option (Transcoder codecs × List Result)
  session fuel t [] = some (t, [])
  session fuel t ((offset, len) ∷ requests) =
      elim (read codecs get_filesize put_filesize desttype statcachesize fuel t offset len) [
        | none ↦ none
        | some (t', eio) ↦ some (t', eio ∷ [])
        | some (t', got c n) ↦ elim (session fuel t' requests) [
          | none ↦ none
          | some (t'', results) ↦ some (t'', got c n ∷ results)
        ]
      ]

-- The ranges are below 2 ^ 63.
abbrev pub AreSmall : List (ℕ × ℕ) → Type 0
AreSmall [] = Unit
AreSmall ((offset, len) ∷ requests) = (offset + len < half) × AreSmall requests

module _ (codecs : Codecs) (laws : Laws codecs) (stable : IsStable codecs)
    (get_filesize : Cache → Text → ℕ → Cache × Option ℕ)
    (put_filesize : Cache → Text → ℕ → ℕ → Cache) (desttype : Text) (statcachesize : ℕ) where
  abbrev pub Readable : Transcoder codecs → Type 0
  Readable = IsReadable codecs laws get_filesize put_filesize desttype statcachesize

  abbrev pub rounds : Transcoder codecs → ℕ
  rounds = rounds_left codecs laws get_filesize put_filesize desttype statcachesize

  -- The rounds of reads lead from one state to another.
  pub data Leads : Transcoder codecs → Transcoder codecs → Type 0 where
    here : {t : Transcoder codecs} → Leads t t
    next :
        {t u v : Transcoder codecs} (offset len : ℕ)
        → turn codecs get_filesize put_filesize desttype statcachesize t offset len ≡ some (u, true)
        → Leads u v
        → Leads t v

  Leads-trans : {t u v : Transcoder codecs} → Leads t u → Leads u v → Leads t v
  Leads-trans here l = l
  Leads-trans (next offset len goes k) l = next offset len goes (Leads-trans k l)

  pub Reaches-Leads :
      (offset len : ℕ) {t u : Transcoder codecs}
      → Reaches codecs laws get_filesize put_filesize desttype statcachesize offset len t u
      → Leads t u
  Reaches-Leads offset len Reaches.here = here
  Reaches-Leads offset len (Reaches.next goes k) = next offset len goes (Reaches-Leads offset len k)

  -- The rounds of reads lead to a state where the codecs fail.
  abbrev pub LeadsToFailure : Transcoder codecs → Type 0
  LeadsToFailure t =
      (u : Transcoder codecs) × Leads t u
      × Fails codecs laws get_filesize put_filesize desttype statcachesize u

  -- Every result is the part of one file that was asked for, cut short by its end. Only the last
  -- one may be -1, where the rounds lead from the first state to a failure of the codecs.
  abbrev pub Serves : Transcoder codecs → Buffer → List (ℕ × ℕ) → List Result → Type 0
  Serves start b [] [] = Unit
  Serves start b [] (_ ∷ _) = ⊥
  Serves start b (_ ∷ _) [] = ⊥
  Serves start b ((offset, len) ∷ requests) (got c n ∷ results) =
      (n ≡ min len (size b - offset)) × Gives b offset n c × Serves start b requests results
  Serves start b ((offset, len) ∷ requests) (eio ∷ []) = LeadsToFailure start
  Serves start b ((offset, len) ∷ requests) (eio ∷ _ ∷ _) = ⊥

  -- Where the loop ends well.
  abbrev pub Goes : Transcoder codecs → Transcoder codecs → Type 0
  Goes t u = Leads t u × (rounds u ≤ rounds t)

  loop-Goes :
      (fuel : ℕ) (t t' : Transcoder codecs) (offset len : ℕ)
      → Readable t
      → loop codecs get_filesize put_filesize desttype statcachesize fuel t offset len
        ≡ some (t', true)
      → Goes t t'
  unfolding loop
  loop-Goes zero t t' offset len r h = absurd (cc)
  loop-Goes (suc fuel) t t' offset len r h =
      elim (Option-cases
        (turn codecs get_filesize put_filesize desttype statcachesize t offset len)) [
          | inl stop ↦
              let same : t ≡ t' = ground arith in
              subst (λ (x : Transcoder codecs). Goes t x) same (here, omega arith)
          | inr ((u, false), goes) ↦ absurd (ground arith)
          | inr ((u, true), goes) ↦
              let (r', fewer) =
                turn_goes codecs laws get_filesize put_filesize desttype statcachesize t u offset
                  len r goes in
              let (k, later) = loop-Goes fuel u t' offset len r' (ground arith) in
              (next offset len goes k, omega (arith, fewer, later))
        ]

  -- A read that succeeds leaves no more rounds than there were.
  pub read-Goes :
      (fuel : ℕ) (t t' : Transcoder codecs) (offset len n : ℕ) (c : Copy)
      → Readable t
      → read codecs get_filesize put_filesize desttype statcachesize fuel t offset len
        ≡ some (t', got c n)
      → Goes t t'
  unfolding read get_size
  read-Goes fuel t t' offset len n c r h = elim (Bool-cases (ltb (size t.buffer) offset)) [
    | inl beyond ↦ stays t (ground arith) (here, omega arith)
    | inr inside ↦ elim (Bool-cases (valid_bytes t.buffer offset len)) [
      | inl ok ↦ stays t (ground arith) (here, omega arith)
      | inr missing ↦
          elim (Option-cases
            (loop codecs get_filesize put_filesize desttype statcachesize fuel t offset len)) [
              | inl out_of_fuel ↦ absurd (ground arith)
              | inr ((u, false), goes) ↦ absurd (ground arith)
              | inr ((u, true), goes) ↦
                  stays u (ground arith) (loop-Goes fuel t u offset len r goes)
            ]
    ]
  ]
    where
      stays : (u : Transcoder codecs) → u ≡ t' → Goes t u → Goes t t'
      stays u same k = subst (λ (x : Transcoder codecs). Goes t x) same k

  -- What a session of reads gives: the results, and that no byte that was known changes.
  abbrev Session : ℕ → Transcoder codecs → Transcoder codecs → List (ℕ × ℕ) → Type 0
  Session fuel start t requests =
      (t' : Transcoder codecs) × (results : List Result) × (session codecs get_filesize put_filesize
          desttype statcachesize fuel t requests
        ≡ some (t', results))
      × Keeps t.buffer t'.buffer
      × Serves start t'.buffer requests results

  session_lem :
      (fuel : ℕ) (start t : Transcoder codecs) (requests : List (ℕ × ℕ))
      → Leads start t
      → Readable t
      → AreSmall requests
      → rounds t < fuel
      → Session fuel start t requests
  unfolding session
  session_lem fuel start t [] k r small enough = (t, [], refl, Keeps-refl t.buffer, tt)
  session_lem fuel start t ((offset, len) ∷ requests) k r (small, all_small) enough =
      let (t', result, answers, answer) =
        read-Answer codecs laws get_filesize put_filesize desttype statcachesize fuel t offset len r
          small enough in
      let kept =
        read-Keeps codecs laws stable get_filesize put_filesize desttype statcachesize fuel t t'
          offset len result r answers in
      elim answer [
        | inl (failed, (u, reached, fails)) ↦ (
          t',
          eio ∷ [],
          ground (arith, answers, failed),
          kept,
          (u, Leads-trans k (Reaches-Leads offset len reached), fails),
        )
        | inr (c, given, gives, r') ↦
            let answers' = answers ∙ ap (λ x. some (t', x)) given in
            let (k', fewer) = read-Goes fuel t t' offset len _ c r answers' in
            let (u, results, rest, kept', served) =
              session_lem fuel start t' requests (Leads-trans k k') r' all_small
                (omega (arith, fewer)) in
            (
              u,
              got c (min len (size t'.buffer - offset)) ∷ results,
              ground (arith, answers', rest),
              Keeps-trans kept kept',
              (
                ap (λ n. min len (n - offset)) (sym kept'.same_size),
                Gives-Keeps t'.buffer u.buffer offset _ c kept' gives,
                served,
              ),
            )
      ]

  -- Reads of a readable file, below 2 ^ 63 and with more fuel than rounds are left, by codecs that
  -- change no byte that is known, all return. There is one file of bytes, in the buffer that the
  -- last of them leaves, of the size the file had at first, and each read gives its part of it from
  -- the offset on, as many bytes as are asked for or as there are to the end. Only the last may
  -- return -1 instead, and then rounds lead from the first state to a frame that cannot be decoded
  -- or encoded or to an encoding that cannot be ended.
  pub session-Serves :
      (fuel : ℕ) (t : Transcoder codecs) (requests : List (ℕ × ℕ))
      → Readable t
      → AreSmall requests
      → rounds t < fuel
      → (t' : Transcoder codecs) × (results : List Result) × (session codecs get_filesize
            put_filesize desttype statcachesize fuel t requests
          ≡ some (t', results))
        × (size t'.buffer ≡ size t.buffer)
        × Serves t t'.buffer requests results
  session-Serves fuel t requests r small enough =
      let (t', results, given, kept, served) = session_lem fuel t t requests here r small enough in
      (t', results, given, kept.same_size, served)
