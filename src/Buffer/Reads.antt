-- ===== src/Buffer/Reads.antt =====
-- src/buffer.cc: what `copy_into`, `valid_bytes` and `max_valid_bytes` promise of the file.
use mathlib.Core.List.{map-append}
use native.Mathlib.Decide.{dec_lt}
use mp3fs.Prelude.{
  ℕ, ◌+◌, ◌-◌, ◌≤◌, ◌<◌, ◌≡◌, ap₂, ◌↔◌, ◌⊎◌, inl, inr, true, false, List, ◌++◌, map, some, arith,
  half, sub64, length, take, drop,
}
use mp3fs.Buffer.{Buffer, copied, invalid, size, valid_bytes, copy_into, max_valid_bytes}
use mp3fs.Buffer.View.{window, IsValid, window-main, window-end, window-append, window-at, at-some}

-- The cases in which a range is valid, as orders.
abbrev Range : Buffer → ℕ → ℕ → Type 0
Range b offset n =
    (offset + n ≤ length b.main_data)
    ⊎ ((length b.main_data < offset + n)
        × (offset + n ≤ b.end_offset + length b.end_data)
        × ((b.end_offset ≤ offset)
            ⊎ ((length b.main_data ≡ b.end_offset) × (offset < b.end_offset))))

module _ (b : Buffer) (offset n : ℕ) (v : IsValid b) (h : offset + n < half) where
  valid_bytes-Range : valid_bytes b offset n ≡ true → Range b offset n
  unfolding valid_bytes size
  valid_bytes-Range e = ground arith

  copy_into_main :
      valid_bytes b offset n ≡ true
      → offset + n ≤ length b.main_data
      → copy_into b offset n ≡ copied (take n (drop offset b.main_data))
  unfolding copy_into
  copy_into_main e r = ground arith

  copy_into_end :
      valid_bytes b offset n ≡ true
      → length b.main_data < offset + n
      → b.end_offset ≤ offset
      → offset + n ≤ b.end_offset + length b.end_data
      → copy_into b offset n ≡ copied (take n (drop (offset - b.end_offset) b.end_data))
  unfolding copy_into
  copy_into_end e m r s =
      let i : sub64 offset b.end_offset ≡ offset - b.end_offset = omega arith in
      rw (← i) (ground arith)

  copy_into_across :
      valid_bytes b offset n ≡ true
      → length b.main_data < offset + n
      → length b.main_data ≡ b.end_offset
      → offset < b.end_offset
      → offset + n ≤ b.end_offset + length b.end_data
      → copy_into b offset n
        ≡ copied (
            take (b.end_offset - offset) (drop offset b.main_data)
            ++ take (n - (b.end_offset - offset)) b.end_data)
  unfolding copy_into
  copy_into_across e m q r s =
      let i : sub64 (length b.main_data) offset ≡ b.end_offset - offset = omega arith in
      let j : sub64 n (sub64 (length b.main_data) offset) ≡ n - (b.end_offset - offset) =
        omega arith in
      rw (← j, ← i) (ground arith)

  Range-valid_bytes : Range b offset n → valid_bytes b offset n ≡ true
  unfolding valid_bytes size
  Range-valid_bytes r = ground arith

  window-Range : (out : List ℕ) → 0 < n → map some out ≡ window b offset n → Range b offset n
  window-Range out p e =
      let (x, first) = window-at b offset n 0 out e (omega arith) in
      let (y, last) = window-at b offset n (n - 1) out e (omega arith) in
      let i = at-some b (offset + 0) first in
      let j = at-some b (offset + (n - 1)) last in
      elim (dec_lt offset (length b.main_data)) [
        | yes m ↦ elim (dec_lt (length b.main_data - offset) n) [
          | yes l ↦
              let (z, mid) = window-at b offset n (length b.main_data - offset) out e l in
              let k = at-some b (offset + (length b.main_data - offset)) mid in omega arith
          | no l ↦ omega arith
        ]
        | no m ↦ omega arith
      ]

  -- `copy_into` on a valid range writes the bytes of the file that the range holds, in order.
  pub copy_into-window :
      valid_bytes b offset n ≡ true
      → (out : List ℕ) × (copy_into b offset n ≡ copied out) × (map some out ≡ window b offset n)
  copy_into-window e = elim (valid_bytes-Range e) [
    | inl m ↦ (_, copy_into_main e m, window-main b offset n m)
    | inr (m, s, inl r) ↦
        (_, copy_into_end e m r s, window-end b offset n v.ordered r (omega arith))
    | inr (m, s, inr (q, r)) ↦ (_, copy_into_across e m q r s, across m s q r)
  ]
    where
      across :
          length b.main_data < offset + n
          → offset + n ≤ b.end_offset + length b.end_data
          → length b.main_data ≡ b.end_offset
          → offset < b.end_offset
          → map some (
              take (b.end_offset - offset) (drop offset b.main_data)
              ++ take (n - (b.end_offset - offset)) b.end_data)
            ≡ window b offset n
      across m s q r =
          let k = b.end_offset - offset in
          let at_end : offset + k ≡ b.end_offset = omega arith in
          let zero_off : b.end_offset - b.end_offset ≡ 0 = omega arith in
          let tail = window-end b b.end_offset (n - k) v.ordered (omega arith) (omega arith) in
          rw (map-append, window-append b offset k (n - k) n (omega arith), at_end)
            (ap₂ ◌++◌ (window-main b offset k (omega arith)) (rw zero_off at tail))

  -- A range of at least one byte is valid exactly when every byte of it is known.
  pub valid_bytes_iff :
      0 < n
      → (valid_bytes b offset n ≡ true) ↔ ((out : List ℕ) × (map some out ≡ window b offset n))
  valid_bytes_iff p = (
    (λ e. let (out, _, w) = copy_into-window e in (out, w)),
    (λ (out, w). Range-valid_bytes (window-Range out p w)),
  )

  -- Outside a valid range `copy_into` writes nothing.
  pub copy_into-invalid : valid_bytes b offset n ≡ false → copy_into b offset n ≡ invalid
  unfolding copy_into
  copy_into-invalid e = rw e

-- For an offset in the file that is not in the gap between the segments, the sizes up to
-- `max_valid_bytes` are those that `valid_bytes` admits.
pub max_valid_bytes_lem :
    (b : Buffer) (offset n : ℕ)
    → IsValid b
    → offset ≤ size b
    → n < half
    → (offset ≤ length b.main_data) ⊎ (b.end_offset ≤ offset)
    → (valid_bytes b offset n ≡ true) ↔ (n ≤ max_valid_bytes b offset)
unfolding max_valid_bytes valid_bytes size
max_valid_bytes_lem b offset n v h k g = ground arith
