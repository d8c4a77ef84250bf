-- ===== src/Buffer/Writes.antt =====
-- src/buffer.h and src/buffer.cc: what each write does to the file that the buffer stands for.
use native.Mathlib.Decide.{dec_lt}
use mp3fs.Prelude.{
  ℕ, ◌+◌, ◌-◌, ◌≤◌, ◌<◌, ◌≡◌, ◌↔◌, refl, Bool, true, false, ◌&&◌, List, ◌++◌, none, some, arith,
  min, ltb, leb, leb→le, subst, inl, inr, Bool-cases, if◌then◌else◌, half, length, take, drop,
  get_elem?, replicate, length-append, length-take, length-drop, length-replicate, get_elem?-take,
  get_elem?-drop, get_elem?-append_left, get_elem?-append, get_elem?-replicate,
}
use mp3fs.Buffer.{
  Buffer, resize, tell, size, write, write_to, write_end, extend, truncate, valid_bytes, init,
}
use mp3fs.Buffer.View.{at, IsValid}

pub length-resize : (n : ℕ) (xs : List ℕ) → length (resize n xs) ≡ n
unfolding resize
length-resize n xs = omega (
  arith,
  length-append (take n xs) (replicate (n - length xs) 0),
  length-take n xs,
  length-replicate {A = ℕ} (n - length xs) 0,
)

pub get_elem?-resize :
    (n : ℕ) (xs : List ℕ) (i : ℕ)
    → i < n
    → get_elem? (resize n xs) i ≡ (if ltb i (length xs) then get_elem? xs i else some 0)
unfolding resize
get_elem?-resize n xs i h = elim (dec_lt i (length xs)) [
  | yes l ↦ ground (
    arith,
    get_elem?-append_left (take n xs) (replicate (n - length xs) 0) i,
    length-take n xs,
    get_elem?-take n xs i h,
  )
  | no l ↦ ground (
    arith,
    get_elem?-append (take n xs) (replicate (n - length xs) 0) i (i - length xs),
    length-take n xs,
    get_elem?-replicate {A = ℕ} (n - length xs) 0 (i - length xs),
  )
]

module _ (b : Buffer) (bytes : List ℕ) (extend_buffer : Bool) (v : IsValid b) where
  -- On a valid buffer the main segment grows by the bytes; without `extend_buffer` it stops at the
  -- end segment.
  pub tell-write :
      tell (write b bytes extend_buffer)
      ≡ (if extend_buffer then tell b + length bytes else min (tell b + length bytes) b.end_offset)
  unfolding write tell
  tell-write =
      ground
        (arith, length-append b.main_data bytes, length-resize b.end_offset (b.main_data ++ bytes))

  -- On a valid buffer, what was written before stays and the bytes follow it, as far as the main
  -- segment reaches.
  pub at-write :
      (i : ℕ)
      → i < tell (write b bytes extend_buffer)
      → at (write b bytes extend_buffer) i
        ≡ (if ltb i (tell b) then at b i else get_elem? bytes (i - tell b))
  unfolding at write tell
  at-write i h = ground (
    arith,
    length-append b.main_data bytes,
    length-resize b.end_offset (b.main_data ++ bytes),
    get_elem?-resize b.end_offset (b.main_data ++ bytes) i,
    get_elem?-append_left b.main_data bytes i,
    get_elem?-append b.main_data bytes i (i - length b.main_data),
  )

  -- A write keeps the buffer valid, as long as the sizes stay signed numbers.
  pub write-IsValid :
      length b.main_data + length bytes + length b.end_data < half
      → IsValid (write b bytes extend_buffer)
  unfolding write
  write-IsValid s =
      ground
        (arith, length-append b.main_data bytes, length-resize b.end_offset (b.main_data ++ bytes))

-- A write without `extend_buffer` changes neither the size nor the end segment.
pub write_bounded :
    (b : Buffer) (bytes : List ℕ)
    → IsValid b
    → IsValid (write b bytes false)
      × (size (write b bytes false) ≡ size b)
      × ((write b bytes false).end_data ≡ b.end_data)
unfolding write size
write_bounded b bytes v =
    let long = length-append b.main_data bytes in
    let cut = length-resize b.end_offset (b.main_data ++ bytes) in
    (ground (arith, long, cut), ground arith, ground arith)

-- `write_to` at a place inside the main segment changes the bytes at that place and no other, and
-- neither segment moves.
pub write_to_lem :
    (b : Buffer) (bytes : List ℕ) (offset i : ℕ)
    → offset + length bytes ≤ tell b
    → (b' : Buffer) × (write_to b bytes offset ≡ some b')
      × (at b' i ≡ (
          if leb offset i && ltb i (offset + length bytes)
          then get_elem? bytes (i - offset)
          else at b i))
      × (tell b' ≡ tell b)
      × (size b' ≡ size b)
unfolding write_to at tell size
write_to_lem b bytes offset i h = (_, ground arith, placed, long, ground (arith, long))
  where
    open b use {main_data}

    rest : List ℕ
    rest = drop (offset + length bytes) main_data

    long : length (take offset main_data ++ (bytes ++ rest)) ≡ length main_data
    long = ground (
      arith,
      length-append (take offset main_data) (bytes ++ rest),
      length-append bytes rest,
      length-take offset main_data,
      length-drop (offset + length bytes) main_data,
    )

    placed : at (record b { main_data = take offset main_data ++ (bytes ++ rest) }) i ≡ (
        if leb offset i && ltb i (offset + length bytes)
        then get_elem? bytes (i - offset)
        else at b i)
    placed = ground (
      arith,
      long,
      length-take offset main_data,
      get_elem?-append_left (take offset main_data) (bytes ++ rest) i,
      get_elem?-append (take offset main_data) (bytes ++ rest) i (i - offset),
      get_elem?-append_left bytes rest (i - offset),
      get_elem?-append bytes rest (i - offset) (i - offset - length bytes),
      get_elem?-take offset main_data i,
      get_elem?-drop (offset + length bytes) main_data (i - offset - length bytes) i,
    )

-- `write_end` behind the main segment places the bytes at the offset, keeps the main segment, and
-- leaves nothing known between the two; the file ends behind the bytes.
pub write_end_lem :
    (b : Buffer) (bytes : List ℕ) (offset i : ℕ)
    → tell b ≤ offset
    → offset + length bytes < half
    → IsValid (write_end b bytes offset)
      × (size (write_end b bytes offset) ≡ offset + length bytes)
      × (at (write_end b bytes offset) i ≡ (
          if ltb i (tell b)
          then at b i
          else (if ltb i offset then none else get_elem? bytes (i - offset))))
unfolding write_end at tell size
write_end_lem b bytes offset i h s = (ground arith, ground arith, ground arith)

-- No byte is missing.
abbrev pub IsComplete : Buffer → Type 0
IsComplete b = (tell b ≡ b.end_offset) × IsValid b

-- `extend` on a valid buffer succeeds, fills the gap with zeros and changes nothing else.
pub extend_lem :
    (b : Buffer) (i : ℕ)
    → IsValid b
    → (b' : Buffer) × (extend b ≡ some b')
      × IsComplete b'
      × (size b' ≡ size b)
      × (at b' i ≡ (if leb (tell b) i && ltb i b.end_offset then some 0 else at b i))
unfolding extend at tell size
extend_lem b i v = (
  record b { main_data = resize b.end_offset b.main_data },
  ground arith,
  (length-resize b.end_offset b.main_data, ground (arith, length-resize b.end_offset b.main_data)),
  refl,
  ground
      (arith, length-resize b.end_offset b.main_data, get_elem?-resize b.end_offset b.main_data i),
)

pub extend-end_data : (b b' : Buffer) → extend b ≡ some b' → b'.end_data ≡ b.end_data
unfolding extend
extend-end_data b b' h = ground arith

-- `truncate` on a valid buffer closes the gap by moving the end segment up.
pub truncate_lem :
    (b : Buffer) (i : ℕ)
    → IsValid b
    → IsComplete (truncate b)
      × (size (truncate b) ≡ tell b + length b.end_data)
      × (at (truncate b) i ≡ (if ltb i (tell b) then at b i else get_elem? b.end_data (i - tell b)))
unfolding truncate at tell size
truncate_lem b i v = ((refl, ground arith), ground arith, ground arith)

-- In a complete buffer a range is valid exactly when it lies within the size.
pub valid_bytes-IsComplete :
    (b : Buffer) (offset n : ℕ)
    → IsComplete b
    → offset + n < half
    → (valid_bytes b offset n ≡ true) ↔ (offset + n ≤ size b)
unfolding valid_bytes size tell
valid_bytes-IsComplete b offset n (c, v) h = ground arith

pub init-IsValid : IsValid init
init-IsValid = omega arith

-- `write_to` keeps a complete buffer complete.
pub write_to-IsComplete :
    (b b' : Buffer) (bytes : List ℕ) (offset : ℕ)
    → IsComplete b
    → write_to b bytes offset ≡ some b'
    → IsComplete b'
unfolding write_to tell
write_to-IsComplete b b' bytes offset (at_end, v) h =
    elim (Bool-cases (leb (offset + length bytes) (length b.main_data))) [
      | inr out ↦ absurd (ground arith)
      | inl inside ↦
          let (c, done, _, same, _) = write_to_lem b bytes offset 0 (leb→le _ _ inside) in
          let there : record b {
            main_data =
                take offset b.main_data ++ (bytes ++ drop (offset + length bytes) b.main_data);
          }
              ≡ b' =
            ground arith in
          subst IsComplete there
            (ground (arith, done), record { ordered = ground (arith, done); fits = v.fits })
    ]
