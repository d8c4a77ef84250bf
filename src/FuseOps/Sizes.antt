-- ===== src/FuseOps/Sizes.antt =====
-- src/fuseops.cc: the sizes that the handlers compute, and the bytes that a read returns.
use mp3fs.Prelude.{
  ℕ, ◌+◌, ◌*◌, ◌≤◌, ◌<◌, ◌≡◌, ap, inl, inr, some, arith, sub64, half, word, length, take,
  length-take, Text, Option-cases,
}
use mp3fs.Coders.{Build}
use mp3fs.FilePath.{FilePath, convert_extension}
use mp3fs.FuseOps.{
  success, System, signed_div, block_count, bytes_per_block, source_of, mp3fs_readlink,
  Answered-cases,
}

-- The blocks of `getattr` hold the file, and less than one block is left over.
pub block_count_lem :
    (n : ℕ)
    → n + bytes_per_block < half
    → (n ≤ bytes_per_block * block_count n)
      × (bytes_per_block * block_count n < n + bytes_per_block)
unfolding block_count signed_div
block_count_lem n small = (ground arith, ground arith)

module _ (system : System) (build : Build) (basepath desttype : Text) where
  -- The name that a `readlink` into a buffer of at least one byte leaves has room for the zero at
  -- its end.
  length-mp3fs_readlink-lt :
      (path : FilePath) (bufsize : ℕ) (text : Text)
      → 0 < bufsize
      → bufsize < word
      → mp3fs_readlink system build basepath desttype path bufsize ≡ some (success text)
      → length text < bufsize
  unfolding mp3fs_readlink
  length-mp3fs_readlink-lt path bufsize text p w done =
      elim (Option-cases (source_of system build basepath desttype path)) [
        | inl lost ↦ absurd (ground arith)
        | inr (source, found) ↦ elim (Answered-cases (system.readlink source (sub64 bufsize 2))) [
          | inl (link, there) ↦
              let cut : take (sub64 bufsize 1) (convert_extension build desttype link) ≡ text =
                ground arith in
              omega (
                arith,
                ap length cut,
                length-take (sub64 bufsize 1) (convert_extension build desttype link),
              )
          | inr (e, broken) ↦ absurd (ground arith)
        ]
      ]
