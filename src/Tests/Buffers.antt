-- ===== src/Tests/Buffers.antt =====
-- src/buffer.cc at a file of ten bytes with a tag of two.
use mp3fs.Prelude.{ℕ, ◌+◌, ◌≤◌, ◌≡◌, ◌↔◌, inl, refl, true, false, List, [], ◌∷◌, map, some, arith}
use mp3fs.Buffer.{
  Buffer, init, write, write_end, tell, size, valid_bytes, copy_into, copied, invalid,
  max_valid_bytes,
}
use mp3fs.Buffer.View.{window, IsValid}
use mp3fs.Buffer.Reads.{copy_into-window, valid_bytes_iff, max_valid_bytes_lem}
use mp3fs.Buffer.Writes.{valid_bytes-IsComplete, IsComplete}

-- Three bytes at the front, a gap of five, and two bytes at the end.
abbrev partial : Buffer
partial = record { main_data = 1 ∷ 2 ∷ 3 ∷ []; end_data = 8 ∷ 9 ∷ []; end_offset = 8 }

abbrev whole : Buffer
whole = record { main_data = 1 ∷ 2 ∷ 3 ∷ []; end_data = 8 ∷ 9 ∷ []; end_offset = 3 }

partial-IsValid : IsValid partial
partial-IsValid = omega arith

whole-IsComplete : IsComplete whole
unfolding tell
whole-IsComplete = omega arith

built : write_end (write init (1 ∷ 2 ∷ 3 ∷ []) true) (8 ∷ 9 ∷ []) 8 ≡ partial
unfolding write write_end
built = refl

across : copy_into whole 2 2 ≡ copied (3 ∷ 8 ∷ [])
unfolding copy_into valid_bytes size
across = refl

in_gap : copy_into partial 4 2 ≡ invalid
unfolding copy_into valid_bytes size
in_gap = refl

-- In the gap no size is valid, not even 0, for which `max_valid_bytes` stands.
gap_zero : (max_valid_bytes partial 5 ≡ 0) × (valid_bytes partial 5 0 ≡ false)
unfolding max_valid_bytes valid_bytes size
gap_zero = (refl, refl)

copy_into-window_example :
    (out : List ℕ) × (copy_into whole 2 2 ≡ copied out) × (map some out ≡ window whole 2 2)
unfolding valid_bytes size
copy_into-window_example = copy_into-window whole 2 2 (whole-IsComplete.1) (omega arith) refl

valid_bytes_iff_example :
    (valid_bytes partial 4 2 ≡ true) ↔ ((out : List ℕ) × (map some out ≡ window partial 4 2))
valid_bytes_iff_example = valid_bytes_iff partial 4 2 partial-IsValid (omega arith) (omega arith)

max_valid_bytes_lem_example : (valid_bytes partial 1 2 ≡ true) ↔ (2 ≤ max_valid_bytes partial 1)
unfolding size
max_valid_bytes_lem_example =
    max_valid_bytes_lem partial 1 2 partial-IsValid (omega arith) (omega arith) (inl (omega arith))

valid_bytes-IsComplete_example : (valid_bytes whole 1 4 ≡ true) ↔ (1 + 4 ≤ size whole)
valid_bytes-IsComplete_example = valid_bytes-IsComplete whole 1 4 whole-IsComplete (omega arith)
