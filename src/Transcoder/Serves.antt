-- ===== src/Transcoder/Serves.antt =====
-- src/transcode.cc: the bytes that `read` gives.
use native.Mathlib.Decide.{dec_lt}
use mp3fs.Prelude.{
  ℕ, zero, suc, ◌+◌, ◌-◌, ◌≤◌, ◌<◌, ◌≡◌, refl, sym, subst, ap, ◌∙◌, ◌⊎◌, inl, inr, true, List, [],
  ◌∷◌, map, Option, some, arith, ltb, ltb→lt, if◌then◌else◌, min, half, length, Text, Bool-cases,
}
use mp3fs.Buffer.{
  Buffer, Copy, copied, invalid, tell, size, valid_bytes, copy_into, max_valid_bytes,
}
use mp3fs.Buffer.View.{IsValid, window}
use mp3fs.Buffer.Reads.{copy_into-window, copy_into-invalid}
use mp3fs.Buffer.Writes.{IsComplete, valid_bytes-IsComplete}
use mp3fs.StatsCache.{Cache}
use mp3fs.Transcoder.{Codecs, Transcoder, Result, got, eio, get_size, deliver, read}
use mp3fs.Transcoder.Loop.{Laws, IsReadable, Failure, rounds_left, loop_lem}

length-window : (b : Buffer) (offset n : ℕ) → length (window b offset n) ≡ n
unfolding window
length-window b offset zero = refl
length-window b offset (suc n) = ap suc (length-window b (suc offset) n)

length-map-some : (xs : List ℕ) → length (map some xs) ≡ length xs
length-map-some [] = refl
length-map-some (x ∷ xs) = ap suc (length-map-some xs)

-- `n` bytes are put out, and they are those of the file from `offset` on.
pub record Gives (b : Buffer) (offset n : ℕ) (c : Copy) : Type 0 where
  pub out : List ℕ
  pub long : length out ≡ n
  pub same : map some out ≡ window b offset n
  pub what : (c ≡ copied out) ⊎ ((c ≡ invalid) × (n ≡ 0))

pub copy_into-Gives :
    (b : Buffer) (offset n : ℕ)
    → IsValid b
    → offset + n < half
    → (valid_bytes b offset n ≡ true) ⊎ (n ≡ 0)
    → Gives b offset n (copy_into b offset n)
unfolding window
copy_into-Gives b offset n v small ok = elim (Bool-cases (valid_bytes b offset n)) [
  | inl valid ↦
      let (out, copy, same) = copy_into-window b offset n v small valid in
      record {
        out = out;
        long = sym (length-map-some out) ∙ (ap length same ∙ length-window b offset n);
        same = same;
        what = inl copy;
      }
  | inr bad ↦
      let empty : n ≡ 0 = elim ok [ inl valid ↦ cc | inr e ↦ e ] in
      record {
        out = [];
        long = sym empty;
        same = rw empty;
        what = inr (copy_into-invalid b offset n v small bad, empty);
      }
]

IsValid-of : {b : Buffer} {m n : ℕ} → IsComplete b ⊎ (IsValid b × (m ≤ n)) → IsValid b
IsValid-of (inl whole) = whole.1
IsValid-of (inr (v, _)) = v

tell-le-size : (b : Buffer) → IsValid b → tell b ≤ size b
unfolding tell size
tell-le-size b v = omega arith

valid_bytes-tell :
    (b : Buffer) (offset n : ℕ)
    → IsValid b
    → offset + n < half
    → offset + n ≤ tell b
    → valid_bytes b offset n ≡ true
unfolding valid_bytes tell size
valid_bytes-tell b offset n v small far = ground arith

valid_bytes-le :
    (b : Buffer) (offset n : ℕ)
    → offset + n < half
    → valid_bytes b offset n ≡ true
    → offset + n ≤ size b
unfolding valid_bytes
valid_bytes-le b offset n small ok = ground arith

-- What is left to read.
left_count :
    (b : Buffer) (offset len : ℕ)
    → offset + len < half
    → IsComplete b ⊎ (IsValid b × (offset + len ≤ tell b))
    → (if ltb (max_valid_bytes b offset) len then max_valid_bytes b offset else len)
      ≡ min len (size b - offset)
unfolding max_valid_bytes size tell
left_count b offset len small (inl (whole, v)) = ground arith
left_count b offset len small (inr (v, there)) = ground arith

-- And that it is there.
left_valid :
    (b : Buffer) (offset len : ℕ)
    → offset + len < half
    → IsComplete b ⊎ (IsValid b × (offset + len ≤ tell b))
    → (valid_bytes b offset (min len (size b - offset)) ≡ true) ⊎ (min len (size b - offset) ≡ 0)
left_valid b offset len small ready = elim (dec_lt 0 (min len (size b - offset))) [
  | no zero_left ↦ inr (omega arith)
  | yes some_left ↦ inl (there ready some_left)
]
  where
    there :
        IsComplete b ⊎ (IsValid b × (offset + len ≤ tell b))
        → 0 < min len (size b - offset)
        → valid_bytes b offset (min len (size b - offset)) ≡ true
    there (inl whole) p = (valid_bytes-IsComplete b offset _ whole (omega arith)).1 (omega arith)
    there (inr (v, far)) p =
        let whole_len = tell-le-size b v in
        let e : min len (size b - offset) ≡ len = omega arith in
        rw e (valid_bytes-tell b offset len v small far)

-- The end of `read`, on a complete file or where the bytes are there.
deliver-Gives :
    (codecs : Codecs) (t : Transcoder codecs) (offset len : ℕ)
    → offset + len < half
    → IsComplete t.buffer ⊎ (IsValid t.buffer × (offset + len ≤ tell t.buffer))
    → (c : Copy) × (deliver codecs t offset len ≡ got c (min len (size t.buffer - offset)))
      × Gives t.buffer offset (min len (size t.buffer - offset)) c
unfolding deliver
deliver-Gives codecs t offset len small ready = (
  _,
  ap (λ n. got (copy_into t.buffer offset n) n) (left_count t.buffer offset len small ready),
  copy_into-Gives t.buffer offset _ (IsValid-of ready) (omega arith)
      (left_valid t.buffer offset len small ready),
)

module _ (codecs : Codecs) (laws : Laws codecs) (get_filesize : Cache → Text → ℕ → Cache × Option ℕ)
    (put_filesize : Cache → Text → ℕ → ℕ → Cache) (desttype : Text) (statcachesize : ℕ) where
  abbrev IsReadableOf : Transcoder codecs → Type 0
  IsReadableOf = IsReadable codecs laws get_filesize put_filesize desttype statcachesize

  -- What a `read` of the first state answers that leaves the second: -1, where its rounds lead to a
  -- failure of the codecs, or the bytes of the file from the offset on, `len` of them or as many as
  -- there are to the end of the file.
  abbrev pub Answer : Transcoder codecs → Transcoder codecs → ℕ → ℕ → Result → Type 0
  Answer start t offset len r =
      ((r ≡ eio)
        × Failure codecs laws get_filesize put_filesize desttype statcachesize start offset len)
      ⊎ ((c : Copy) × (r ≡ got c (min len (size t.buffer - offset)))
          × Gives t.buffer offset (min len (size t.buffer - offset)) c
          × IsReadableOf t)

  Answer-beyond :
      (t : Transcoder codecs) (offset len : ℕ)
      → IsReadableOf t
      → size t.buffer < offset
      → Answer t t offset len (got (copied []) 0)
  unfolding window
  Answer-beyond t offset len r beyond =
      let none_left : min len (size t.buffer - offset) ≡ 0 = omega arith in
      inr (
        copied [],
        rw none_left,
        rw none_left (record { out = []; long = refl; same = refl; what = inl refl }),
        r,
      )

  readable-IsValid : (t : Transcoder codecs) → IsReadableOf t → IsValid t.buffer
  readable-IsValid t (inl (whole, _)) = whole.1
  readable-IsValid t (inr (v, _, _)) = laws.IsReady-IsValid t.buffer v

  Answer-filled :
      (t : Transcoder codecs) (offset len : ℕ)
      → IsReadableOf t
      → offset + len < half
      → valid_bytes t.buffer offset len ≡ true
      → Answer t t offset len (got (copy_into t.buffer offset len) len)
  Answer-filled t offset len r small ok =
      let v = readable-IsValid t r in
      let all_there : min len (size t.buffer - offset) ≡ len =
        omega (arith, valid_bytes-le t.buffer offset len small ok) in
      inr (
        copy_into t.buffer offset len,
        ap (got (copy_into t.buffer offset len)) (sym all_there),
        subst (λ n. Gives t.buffer offset n (copy_into t.buffer offset len)) (sym all_there)
            (copy_into-Gives t.buffer offset len v small (inl ok)),
        r,
      )

  -- A `read` of a readable file, below 2 ^ 63 and with more fuel than rounds are left, returns:
  -- either it returns -1, and its rounds have led to a frame that cannot be decoded or encoded or to
  -- an encoding that cannot be ended, or it gives exactly the bytes of the file that it leaves, from
  -- the offset on, `len` of them or as many as there are to the end of the file, and leaves a
  -- readable file.
  pub read-Answer :
      (fuel : ℕ) (t : Transcoder codecs) (offset len : ℕ)
      → IsReadableOf t
      → offset + len < half
      → rounds_left codecs laws get_filesize put_filesize desttype statcachesize t < fuel
      → (t' : Transcoder codecs) × (r : Result) × (read codecs get_filesize put_filesize desttype
            statcachesize fuel t offset len
          ≡ some (t', r))
        × Answer t t' offset len r
  unfolding read get_size
  read-Answer fuel t offset len r small enough = elim (Bool-cases (ltb (size t.buffer) offset)) [
    | inl beyond ↦ (t, _, ground arith, Answer-beyond t offset len r (ltb→lt _ _ beyond))
    | inr inside ↦ elim (Bool-cases (valid_bytes t.buffer offset len)) [
      | inl ok ↦ (t, _, ground arith, Answer-filled t offset len r small ok)
      | inr missing ↦
          let (t', fine, e, post) =
            loop_lem codecs laws get_filesize put_filesize desttype statcachesize fuel t offset len
              r small enough in
          elim post [
            | inl (bad, why) ↦ (t', eio, ground (arith, e), inl (refl, why))
            | inr (good, r', ready) ↦
                let (c, given, gives) = deliver-Gives codecs t' offset len small ready in
                (t', got c _, ground (arith, e, given), inr (c, refl, gives, r'))
          ]
    ]
  ]
