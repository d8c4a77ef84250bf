-- ===== src/FuseOps/Opening.antt =====
-- src/fuseops.cc: what `getattr`, `open` and `read` tell of the same file.
use mp3fs.Prelude.{
  ℕ, ◌+◌, ◌-◌, ◌^◌, ◌<◌, ◌≡◌, refl, ◌⊎◌, inl, inr, true, Option, some, arith, min, half, Text,
  Bool-cases,
}
use mp3fs.Buffer.{Copy, size}
use mp3fs.StatsCache.{Cache}
use mp3fs.Coders.{Build}
use mp3fs.FilePath.{FilePath, normal_source}
use mp3fs.Transcoder.{Codecs, Transcoder, get_size}
use mp3fs.Transcoder.Loop.{Laws, IsReadable, Failure, rounds_left}
use mp3fs.Transcoder.Serves.{Gives, read-Answer}
use mp3fs.FuseOps.{
  Answered, success, failure, Stat, System, block_count, source_of, Reader, transcoder,
  open_transcoder, encoded_stat, mp3fs_getattr, mp3fs_open, reply, mp3fs_read,
}

module _ (system : System) (build : Build) (basepath desttype : Text) (codecs : Codecs)
    (get_filesize : Cache → Text → ℕ → Cache × Option ℕ)
    (put_filesize : Cache → Text → ℕ → ℕ → Cache) (statcachesize : ℕ) where
  open system use {lstat, open_fd, s_isreg, enoent, eio_number}

  abbrev Handle : Type 0
  Handle = Reader system build basepath desttype codecs get_filesize put_filesize statcachesize

  -- Both fail with the same error, or the size that the one tells is that of the file that the
  -- other opens.
  abbrev pub Agree : Answered Stat → Answered Handle → Type 0
  Agree (success st) (success (transcoder trans)) =
      (st.st_size ≡ get_size codecs trans) × (st.st_blocks ≡ block_count (get_size codecs trans))
  Agree (failure e) (failure e') = e ≡ e'
  Agree _ _ = ⊥

  -- For a path that is no file of the music directory and has a plain file as its source, `getattr`
  -- and `open` leave the same cache of sizes; both fail with the same error, or `getattr` tells the
  -- size of the file that `open` leaves open.
  pub mp3fs_getattr-Agree :
      (path : FilePath) (flags e : ℕ) (source : Text) (st : Stat) (cache : Cache)
      → lstat (normal_source basepath path) ≡ failure e
      → open_fd (normal_source basepath path) flags ≡ failure enoent
      → source_of system build basepath desttype path ≡ some source
      → lstat source ≡ success st
      → s_isreg st.st_mode ≡ true
      → (cache' : Cache) × (a : Answered Stat) × (r : Answered Handle) × (mp3fs_getattr system build
            basepath desttype codecs get_filesize put_filesize statcachesize path cache
          ≡ some (cache', a))
        × (mp3fs_open system build basepath desttype codecs get_filesize put_filesize statcachesize
              path flags cache
            ≡ some (cache', r))
        × Agree a r
  unfolding mp3fs_getattr mp3fs_open encoded_stat
  mp3fs_getattr-Agree path flags e source st cache absent missing found there regular =
      let t =
        open_transcoder system build basepath desttype codecs get_filesize put_filesize
          statcachesize source cache in
      elim (Bool-cases t.1) [
        | inl fine ↦ (
          t.0.stats_cache,
          success (record st {
            st_size = get_size codecs t.0;
            st_blocks = block_count (get_size codecs t.0);
          }),
          success (transcoder t.0),
          ground (arith, absent, found, there),
          ground (arith, missing, found),
          (refl, refl),
        )
        | inr bad ↦ (
          t.0.stats_cache,
          failure eio_number,
          failure eio_number,
          ground (arith, absent, found, there),
          ground (arith, missing, found),
          refl,
        )
      ]

  module _ (laws : Laws codecs) where
    -- A `read` of fewer than 2 ^ 31 bytes of a readable file that is being encoded, below 2 ^ 63 and
    -- with more fuel than rounds are left, returns: either EIO, and its rounds have led to a failure
    -- of the codecs, or the count and the bytes of the file that it leaves, from the offset on, as many as
    -- asked for or as there are to the end of the file.
    mp3fs_read-Gives :
        (fuel : ℕ) (t : Transcoder codecs) (len offset : ℕ)
        → IsReadable codecs laws get_filesize put_filesize desttype statcachesize t
        → offset + len < half
        → len < 2 ^ 31
        → rounds_left codecs laws get_filesize put_filesize desttype statcachesize t < fuel
        → (t' : Transcoder codecs) × (a : Answered (Copy × ℕ)) × (mp3fs_read system build basepath
              desttype codecs get_filesize put_filesize statcachesize fuel
              (some (transcoder t))
              len
              offset
            ≡ some (some (transcoder t'), a))
          × (((a ≡ failure eio_number)
                × Failure codecs laws get_filesize put_filesize desttype statcachesize t offset len)
              ⊎ ((c : Copy) × (a ≡ success (c, min len (size t'.buffer - offset)))
                  × Gives t'.buffer offset (min len (size t'.buffer - offset)) c
                  × IsReadable codecs laws get_filesize put_filesize desttype statcachesize t'))
    unfolding mp3fs_read reply
    mp3fs_read-Gives fuel t len offset r small int enough =
        let (t', result, e, answer) =
          read-Answer codecs laws get_filesize put_filesize desttype statcachesize fuel t offset len
            r small enough in
        elim answer [
          | inl (bad, why) ↦ (t', failure eio_number, ground (arith, e, bad), inl (refl, why))
          | inr (c, given, gives, r') ↦ (
            t',
            success (c, min len (size t'.buffer - offset)),
            ground (arith, e, given),
            inr (c, refl, gives, r'),
          )
        ]
