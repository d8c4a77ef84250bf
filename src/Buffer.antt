-- ===== src/Buffer.antt =====
-- src/buffer.h and src/buffer.cc: the bytes of one transcoded file, in two segments.
pub mod View
pub mod Reads
pub mod Writes
pub mod Keeps
use mp3fs.Prelude.{
  ℕ, ◌+◌, ◌-◌, Bool, ◌&&◌, ◌||◌, List, [], ◌++◌, Option, none, some, ltb, leb, ◌==◌, if◌then◌else◌,
  add64, sub64, half, signed_leb, length, take, drop, replicate,
}

-- `end_offset` is a `ptrdiff_t`, kept as its 64-bit pattern.
pub record Buffer : Type 0 where
  pub main_data : List ℕ
  pub end_data : List ℕ
  pub end_offset : ℕ

-- The constructor.
abbrev pub init : Buffer
init = record { main_data = []; end_data = []; end_offset = 0 }

-- `std::vector::resize`: cut, or fill with zeros.
unfoldable pub resize : ℕ → List ℕ → List ℕ
resize n xs = take n xs ++ replicate (n - length xs) 0

unfoldable pub tell : Buffer → ℕ
tell b = length b.main_data

unfoldable pub size : Buffer → ℕ
size b = add64 b.end_offset (length b.end_data)

unfoldable pub write : Buffer → List ℕ → Bool → Buffer
write b bytes extend_buffer =
    let main = b.main_data ++ bytes in
    if ltb b.end_offset (length main)
    then (if extend_buffer
        then record b { main_data = main; end_offset = length main }
        else record b { main_data = resize b.end_offset main })
    else record b { main_data = main }

-- `none`: the copy would leave the vector.
unfoldable pub write_to : Buffer → List ℕ → ℕ → Option Buffer
write_to b bytes offset =
    if leb (offset + length bytes) (length b.main_data)
    then some (record b {
      main_data = take offset b.main_data ++ (bytes ++ drop (offset + length bytes) b.main_data);
    })
    else none

unfoldable pub write_end : Buffer → List ℕ → ℕ → Buffer
write_end b bytes offset = record b { end_data = bytes; end_offset = offset }

unfoldable pub valid_bytes : Buffer → ℕ → ℕ → Bool
valid_bytes b offset n =
    let end = add64 offset n in
    ltb offset half
    && (leb end (size b)
        && (leb end (length b.main_data)
            || (signed_leb b.end_offset offset || length b.main_data == b.end_offset)))

-- What `copy_into` does: it logs an error and writes nothing, writes the bytes, or reads outside
-- one of the vectors.
pub data Copy : Type 0 where
  invalid : Copy
  copied : List ℕ → Copy
  fault : Copy

-- `std::copy_n(xs.begin() + offset, n, out)`.
unfoldable pub copy_n : List ℕ → ℕ → ℕ → Copy
copy_n xs offset n =
    if leb (offset + n) (length xs) then copied (take n (drop offset xs)) else fault

-- Two copies one behind the other.
abbrev pub join : Copy → Copy → Copy
join (copied xs) (copied ys) = copied (xs ++ ys)
join (copied xs) _ = fault
join _ _ = fault

unfoldable pub copy_into : Buffer → ℕ → ℕ → Copy
unfolding copy_n
copy_into b offset n =
    let start_size = sub64 (length b.main_data) offset in
    if valid_bytes b offset n
    then (if leb (add64 offset n) (length b.main_data)
        then copy_n b.main_data offset n
        else (if signed_leb b.end_offset offset
            then copy_n b.end_data (sub64 offset b.end_offset) n
            else join (copy_n b.main_data offset start_size)
                (copy_n b.end_data 0 (sub64 n start_size))))
    else invalid

unfoldable pub max_valid_bytes : Buffer → ℕ → ℕ
max_valid_bytes b offset =
    if ltb (size b) offset
    then 0
    else (if length b.main_data == b.end_offset || signed_leb b.end_offset offset
        then sub64 (size b) offset
        else (if leb offset (length b.main_data) then sub64 (length b.main_data) offset else 0))

-- `none`: `std::length_error`, since the size is beyond `max_size()`.
unfoldable pub extend : Buffer → Option Buffer
unfolding resize
extend b =
    if ltb b.end_offset half
    then some (record b { main_data = resize b.end_offset b.main_data })
    else none

unfoldable pub truncate : Buffer → Buffer
truncate b = record b { end_offset = length b.main_data }
