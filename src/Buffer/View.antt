-- ===== src/Buffer/View.antt =====
-- src/buffer.h and src/buffer.cc: the buffer seen as a file of which some bytes are known.
use mp3fs.Prelude.{
  ℕ, zero, suc, ◌+◌, ◌-◌, ◌≤◌, ◌<◌, ◌≡◌, refl, ap, ap₂, List, [], ◌∷◌, ◌++◌, map, Option, none,
  some, arith, ltb, if◌then◌else◌, half, length, take, drop, get_elem?, drop_step, lt_of_get_elem?,
  ◌⊎◌,
}
use mp3fs.Buffer.{Buffer}

-- The byte at a position of the file; `none` where nothing has been written yet.
unfoldable pub at : Buffer → ℕ → Option ℕ
at b i =
    if ltb i (length b.main_data)
    then get_elem? b.main_data i
    else (if ltb i b.end_offset then none else get_elem? b.end_data (i - b.end_offset))

-- The `n` positions from `offset` on.
unfoldable pub window : Buffer → ℕ → ℕ → List (Option ℕ)
window b offset zero = []
window b offset (suc n) = at b offset ∷ window b (suc offset) n

-- The main segment stays in front of the end segment, and the whole file has a signed size.
pub record IsValid (b : Buffer) : Type 0 where
  pub ordered : length b.main_data ≤ b.end_offset
  pub fits : b.end_offset + length b.end_data < half

pub window-main :
    (b : Buffer) (offset n : ℕ)
    → offset + n ≤ length b.main_data
    → map some (take n (drop offset b.main_data)) ≡ window b offset n
unfolding at window
window-main b offset zero h = refl
window-main b offset (suc n) h =
    let (x, here, rest) = drop_step offset b.main_data (omega arith) in
    rw rest (ap₂ ◌∷◌ (ground arith) (window-main b (suc offset) n (omega arith)))

pub window-end :
    (b : Buffer) (offset n : ℕ)
    → length b.main_data ≤ b.end_offset
    → b.end_offset ≤ offset
    → offset - b.end_offset + n ≤ length b.end_data
    → map some (take n (drop (offset - b.end_offset) b.end_data)) ≡ window b offset n
unfolding at window
window-end b offset zero o s h = refl
window-end b offset (suc n) o s h =
    let (x, here, rest) = drop_step (offset - b.end_offset) b.end_data (omega arith) in
    let next : suc offset - b.end_offset ≡ suc (offset - b.end_offset) = omega arith in
    let ih = window-end b (suc offset) n o (omega arith) (omega arith) in
    rw rest (ap₂ ◌∷◌ (ground arith) (rw next at ih))

pub window-append :
    (b : Buffer) (offset m n k : ℕ)
    → k ≡ m + n
    → window b offset k ≡ window b offset m ++ window b (offset + m) n
unfolding window
window-append b offset zero n k e =
    let e1 : k ≡ n = omega arith in let e2 : offset + 0 ≡ offset = omega arith in rw (e1, e2)
window-append b offset (suc m) n zero e = absurd (omega arith)
window-append b offset (suc m) n (suc k) e =
    let next : suc offset + m ≡ offset + suc m = omega arith in
    ap (◌∷◌ (at b offset)) (rw next at (window-append b (suc offset) m n k (omega arith)))

-- A window whose bytes are all known has each of them known.
pub window-at :
    (b : Buffer) (offset n i : ℕ) (out : List ℕ)
    → map some out ≡ window b offset n
    → i < n
    → (x : ℕ) × (at b (offset + i) ≡ some x)
unfolding window
window-at b offset zero i out e h = absurd (omega arith)
window-at b offset (suc n) i [] e h = cc
window-at b offset (suc n) zero (x ∷ out) e h =
    let z : offset + 0 ≡ offset = omega arith in (x, rw z (cc))
window-at b offset (suc n) (suc i) (x ∷ out) e h =
    let next : offset + suc i ≡ suc offset + i = omega arith in
    rw next (window-at b (suc offset) n i out (cc) (omega arith))

-- A known byte lies in one of the segments.
pub at-some :
    (b : Buffer) (i : ℕ) {x : ℕ}
    → at b i ≡ some x
    → (i < length b.main_data) ⊎ ((b.end_offset ≤ i) × (i < b.end_offset + length b.end_data))
unfolding at
at-some b i {x} h = ground (arith, lt_of_get_elem? b.end_data (i - b.end_offset) {x = x})
