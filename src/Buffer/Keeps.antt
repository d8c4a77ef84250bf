-- ===== src/Buffer/Keeps.antt =====
-- src/buffer.cc: the operations that change no byte that is known, nor the size.
use native.Mathlib.Decide.{dec_lt}
use mp3fs.Prelude.{ℕ, ◌≤◌, ◌<◌, ◌≡◌, refl, ◌∙◌, false, List, some, arith, length}
use mp3fs.Buffer.{Buffer, tell, size, write, extend}
use mp3fs.Buffer.View.{at, IsValid}
use mp3fs.Buffer.Writes.{at-write, tell-write, write_bounded, extend_lem}

-- Every byte that is known stays, and the file has the same size.
pub record Keeps (b b' : Buffer) : Type 0 where
  pub kept : (i x : ℕ) → at b i ≡ some x → at b' i ≡ some x
  pub same_size : size b' ≡ size b

pub Keeps-refl : (b : Buffer) → Keeps b b
Keeps-refl b = record { kept = λ i x h. h; same_size = refl }

pub Keeps-trans : {b c e : Buffer} → Keeps b c → Keeps c e → Keeps b e
Keeps-trans k l = record {
  kept = λ i x h. l.kept i x (k.kept i x h);
  same_size = l.same_size ∙ k.same_size;
}

write_end_offset : (b : Buffer) (bytes : List ℕ) → (write b bytes false).end_offset ≡ b.end_offset
unfolding write
write_end_offset b bytes = ground arith

-- In the main segment the bytes that were there stay.
write-kept_main :
    (b : Buffer) (bytes : List ℕ) (i : ℕ)
    → IsValid b
    → i < tell b
    → at (write b bytes false) i ≡ at b i
unfolding tell
write-kept_main b bytes i v h =
    let grown = tell-write b bytes false v in
    let there : i < tell (write b bytes false) = ground (arith, grown, v.ordered, main_le b v) in
    ground (arith, at-write b bytes false v i there)
  where
    main_le : (b : Buffer) → IsValid b → tell b ≤ b.end_offset
    main_le b v = v.ordered

-- Behind the start of the end segment nothing changes.
write-kept_end :
    (b : Buffer) (bytes : List ℕ) (i : ℕ)
    → IsValid b
    → b.end_offset ≤ i
    → at (write b bytes false) i ≡ at b i
unfolding at
write-kept_end b bytes i v h =
    let (v', _, same_end) = write_bounded b bytes v in
    ground (arith, v'.ordered, v.ordered, same_end, write_end_offset b bytes)

-- A write without `extend_buffer` writes behind what is known in the main segment, and stops at the
-- end segment.
pub write-Keeps : (b : Buffer) (bytes : List ℕ) → IsValid b → Keeps b (write b bytes false)
unfolding at tell
write-Keeps b bytes v = record {
  kept = λ i x h. elim (dec_lt i (length b.main_data)) [
    | yes front ↦ write-kept_main b bytes i v front ∙ h
    | no behind ↦ write-kept_end b bytes i v (ground arith) ∙ h
  ];
  same_size = (write_bounded b bytes v).1;
}

-- `extend` writes to the gap only.
pub extend-Keeps : (b b' : Buffer) → IsValid b → extend b ≡ some b' → Keeps b b'
unfolding at tell extend
extend-Keeps b b' v h = record {
  kept = λ i x known.
      let (c, extended, _, _, there) = extend_lem b i v in ground (arith, extended, there);
  same_size =
      let (c, extended, _, same_size, _) = extend_lem b 0 v in ground (arith, extended, same_size);
}
