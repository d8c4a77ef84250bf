-- ===== src/Transcoder/Whole.antt =====
-- src/transcode.cc: the reads of a file that is encoded as a whole.
use mp3fs.Prelude.{
  ℕ, zero, suc, ◌+◌, ◌-◌, ◌≤◌, ◌<◌, ◌≡◌, subst, ◌⊎◌, inl, inr, Bool, true, false, [], Option, none,
  some, arith, ltb, if◌then◌else◌, min, half, Text, Option-cases, Bool-cases,
}
use mp3fs.Buffer.{Copy, copied, copy_into, max_valid_bytes, tell, size, valid_bytes}
use mp3fs.Buffer.Writes.{IsComplete}
use mp3fs.StatsCache.{Cache}
use mp3fs.Transcoder.{
  Codecs, Transcoder, Result, got, eio, get_size, wanted, turn, loop, deliver, read,
}
use mp3fs.Transcoder.Loop.{Laws, IsReadable, Failure, rounds_left, turn_goes}
use mp3fs.Transcoder.Serves.{Gives, read-Answer}

module _ (codecs : Codecs) (laws : Laws codecs) (get_filesize : Cache → Text → ℕ → Cache × Option ℕ)
    (put_filesize : Cache → Text → ℕ → ℕ → Cache) (desttype : Text) (statcachesize : ℕ) where
  abbrev Readable : Transcoder codecs → Type 0
  Readable = IsReadable codecs laws get_filesize put_filesize desttype statcachesize

  -- The encoding has ended.
  abbrev pub IsSettled : Transcoder codecs → Type 0
  IsSettled t = IsComplete t.buffer × (t.decoder ≡ none)

  abbrev turn_of : Transcoder codecs → ℕ → ℕ → Option (Transcoder codecs × Bool)
  turn_of = turn codecs get_filesize put_filesize desttype statcachesize

  -- An encoder that has to encode the whole file stops at nothing but the end.
  turn_over :
      (t : Transcoder codecs) (offset len : ℕ)
      → ((e : codecs.Encoder) → codecs.no_partial_encode e ≡ true)
      → Readable t
      → turn_of t offset len ≡ none
      → IsSettled t
  unfolding turn wanted tell
  turn_over t offset len whole (inl settled) over = settled
  turn_over t offset len whole (inr (ready, (d, hd), (e, he))) over =
      let v = laws.IsReady-IsValid t.buffer ready in
      absurd (ground (arith, hd, he, whole e, v.ordered, v.fits))

  loop-IsSettled :
      (fuel : ℕ) (t t' : Transcoder codecs) (offset len : ℕ)
      → ((e : codecs.Encoder) → codecs.no_partial_encode e ≡ true)
      → Readable t
      → loop codecs get_filesize put_filesize desttype statcachesize fuel t offset len
        ≡ some (t', true)
      → IsSettled t'
  unfolding loop
  loop-IsSettled zero t t' offset len whole r h = absurd (cc)
  loop-IsSettled (suc fuel) t t' offset len whole r h = elim (Option-cases (turn_of t offset len)) [
    | inl over ↦
        let same : t ≡ t' = ground arith in
        subst (λ (x : Transcoder codecs). IsSettled x) same (turn_over t offset len whole r over)
    | inr ((u, false), goes) ↦ absurd (ground arith)
    | inr ((u, true), goes) ↦
        let (r', _) =
          turn_goes codecs laws get_filesize put_filesize desttype statcachesize t u offset len r
            goes in
        loop-IsSettled fuel u t' offset len whole r' (ground arith)
  ]

  -- A read of a settled file changes nothing.
  read-settled :
      (fuel : ℕ) (t : Transcoder codecs) (offset len : ℕ)
      → IsSettled t
      → (c : Copy) × (n : ℕ) × (read codecs get_filesize put_filesize desttype statcachesize
            (suc fuel)
            t
            offset
            len
          ≡ some (t, got c n))
  unfolding read loop turn deliver get_size
  read-settled fuel t offset len (whole, over) = elim (Bool-cases (ltb (size t.buffer) offset)) [
    | inl beyond ↦ (copied [], 0, ground arith)
    | inr inside ↦ elim (Bool-cases (valid_bytes t.buffer offset len)) [
      | inl ok ↦ (copy_into t.buffer offset len, len, ground arith)
      | inr missing ↦
          let max_len = max_valid_bytes t.buffer offset in
          let n = if ltb max_len len then max_len else len in
          (copy_into t.buffer offset n, n, ground (arith, over))
    ]
  ]

  -- The part of the file of `t` from `offset` on is read, and `t` stays.
  abbrev pub Rereads : ℕ → Transcoder codecs → ℕ → ℕ → Type 0
  Rereads fuel t offset len =
      (c : Copy) × (read codecs get_filesize put_filesize desttype statcachesize fuel t offset len
        ≡ some (t, got c (min len (size t.buffer - offset))))
      × Gives t.buffer offset (min len (size t.buffer - offset)) c

  answered-Rereads :
      (fuel : ℕ) (t t' : Transcoder codecs) (offset len n : ℕ) (c c' : Copy) (result : Result)
      → read codecs get_filesize put_filesize desttype statcachesize fuel t offset len
        ≡ some (t, got c n)
      → read codecs get_filesize put_filesize desttype statcachesize fuel t offset len
        ≡ some (t', result)
      → result ≡ got c' (min len (size t'.buffer - offset))
      → Gives t'.buffer offset (min len (size t'.buffer - offset)) c'
      → Rereads fuel t offset len
  answered-Rereads fuel t t' offset len n c c' result same answers given gives =
      let stays : t' ≡ t = ground arith in
      let given' =
        subst (λ (x : Transcoder codecs). result ≡ got c' (min len (size x.buffer - offset))) stays
          given in
      let gives' =
        subst
          (λ (x : Transcoder codecs). Gives x.buffer offset (min len (size x.buffer - offset)) c')
          stays gives in
      (c', ground (arith, answers, stays, given'), gives')

  settled-Rereads :
      (fuel : ℕ) (t : Transcoder codecs) (offset len : ℕ)
      → IsSettled t
      → offset + len < half
      → Rereads (suc fuel) t offset len
  settled-Rereads fuel t offset len (whole, over) small =
      let (c, n, same) = read-settled fuel t offset len (whole, over) in
      let (t', result, answers, answer) =
        read-Answer codecs laws get_filesize put_filesize desttype statcachesize (suc fuel) t offset
          len (inl (whole, over)) small (rw over (omega arith)) in
      elim answer [
        | inl (failed, _) ↦ absurd (ground (arith, same, answers, failed))
        | inr (c', given, gives, _) ↦
            answered-Rereads (suc fuel) t t' offset len n c c' result same answers given gives
      ]

  -- A file whose encoder has to encode the whole of it, such as with VBR: a `read` from inside the
  -- file that the buffer cannot answer, of a readable file, below 2 ^ 63 and with more fuel than
  -- rounds are left, returns. Either it returns -1, after a failure of the codecs, or it has encoded
  -- the file to its end, and then every later `read` below 2 ^ 63 leaves the file as it is, and
  -- gives the bytes of it from its offset on, as many as it asks for or as there are to the end.
  pub read-whole :
      (fuel later : ℕ) (t : Transcoder codecs) (offset len offset' len' : ℕ)
      → ((e : codecs.Encoder) → codecs.no_partial_encode e ≡ true)
      → Readable t
      → offset + len < half
      → offset' + len' < half
      → rounds_left codecs laws get_filesize put_filesize desttype statcachesize t < fuel
      → offset ≤ size t.buffer
      → valid_bytes t.buffer offset len ≡ false
      → (t' : Transcoder codecs) × (result : Result) × (read codecs get_filesize put_filesize
            desttype statcachesize fuel t offset len
          ≡ some (t', result))
        × (((result ≡ eio)
              × Failure codecs laws get_filesize put_filesize desttype statcachesize t offset len)
            ⊎ (IsSettled t' × Rereads (suc later) t' offset' len'))
  unfolding read get_size
  read-whole fuel later t offset len offset' len' whole r small small' enough inside missing =
      let (t', result, answers, answer) =
        read-Answer codecs laws get_filesize put_filesize desttype statcachesize fuel t offset len r
          small enough in
      elim answer [
        | inl failed ↦ (t', result, answers, inl failed)
        | inr (c, given, gives, _) ↦
            elim (Option-cases
              (loop codecs get_filesize put_filesize desttype statcachesize fuel t offset len)) [
                | inl out_of_fuel ↦ absurd (ground (arith, answers))
                | inr ((u, false), goes) ↦ absurd (ground (arith, answers, given))
                | inr ((u, true), goes) ↦
                    let same : u ≡ t' = ground (arith, answers) in
                    let settled =
                      subst (λ (x : Transcoder codecs). IsSettled x) same
                        (loop-IsSettled fuel t u offset len whole r goes) in
                    (
                      t',
                      result,
                      answers,
                      inr (settled, settled-Rereads later t' offset' len' settled small'),
                    )
              ]
      ]
