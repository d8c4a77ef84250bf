-- ===== src/Mount.antt =====
-- src/fuseops.cc with the cache of sizes of src/transcode.cc: the calls that FUSE makes for all
-- files, one after the other. FUSE is a parameter as far as it keeps `fh` for each open file.
pub mod Held
pub mod Replies
pub mod Reads
pub mod Interleaved
pub mod Shared
pub mod Caching
pub mod Bounded
use mp3fs.Prelude.{
  ℕ, suc, Bool, true, false, List, [], ◌∷◌, Option, none, some, ◌==◌, if◌then◌else◌, Text,
}
use mp3fs.Buffer.{Copy}
use mp3fs.StatsCache.{Cache}
use mp3fs.Coders.{Build}
use mp3fs.FilePath.{FilePath}
use mp3fs.Transcoder.{Codecs, Transcoder}
use mp3fs.FuseOps.{
  Answered, success, failure, Stat, System, Reader, file_reader, transcoder, mp3fs_getattr,
  mp3fs_open, mp3fs_read, mp3fs_release,
}

-- A call of a handler that uses the cache or an open file. A file is named by its `fh`; a read has
-- the size and the offset.
pub data Call : Type 0 where
  getattr : FilePath → Call
  opens : FilePath → ℕ → Call
  reads : ℕ → ℕ → ℕ → Call
  releases : ℕ → Call

-- What it returns. `stuck`: it does not return, for want of fuel or as `source_of`.
pub data Reply : Type 0 where
  told : Answered Stat → Reply
  opened : Answered ℕ → Reply
  gave : Answered (Copy × ℕ) → Reply
  closed : List ℕ → Reply
  stuck : Reply

module _ (system : System) (build : Build) (basepath desttype : Text) (codecs : Codecs)
    (get_filesize : Cache → Text → ℕ → Cache × Option ℕ)
    (put_filesize : Cache → Text → ℕ → ℕ → Cache) (statcachesize : ℕ) where
  abbrev pub Handle : Type 0
  Handle = Reader system build basepath desttype codecs get_filesize put_filesize statcachesize

  -- The cache that all transcoders share, the open files, and a number that none of them has.
  pub record World : Type 0 where
    pub stats_cache : Cache
    pub handles : ℕ → Option Handle
    pub fresh : ℕ

  -- A transcoder with the shared cache, as it is when it is called.
  abbrev pub sees : Cache → Option Handle → Option Handle
  sees c none = none
  sees c (some (file_reader fd)) = some (file_reader fd)
  sees c (some (transcoder t)) = some (transcoder (record t { stats_cache = c }))

  -- And the cache that it leaves.
  abbrev pub leaves : Cache → Option Handle → Cache
  leaves c none = c
  leaves c (some (file_reader fd)) = c
  leaves c (some (transcoder t)) = t.stats_cache

  abbrev pub set_handle : (ℕ → Option Handle) → ℕ → Option Handle → ℕ → Option Handle
  set_handle handles fh r k = if fh == k then r else handles k

  unfoldable pub after_open : World → Option (Cache × Answered Handle) → World × Reply
  after_open w none = (w, stuck)
  after_open w (some (c, failure e)) = (record w { stats_cache = c }, opened (failure e))
  after_open w (some (c, success r)) = (
    record w {
      stats_cache = c;
      handles = set_handle w.handles w.fresh (some r);
      fresh = suc w.fresh;
    },
    opened (success w.fresh),
  )

  unfoldable pub after_read :
      World → ℕ → Option (Option Handle × Answered (Copy × ℕ)) → World × Reply
  after_read w fh none = (w, stuck)
  after_read w fh (some (r, answer)) = (
    record w { stats_cache = leaves w.stats_cache r; handles = set_handle w.handles fh r },
    gave answer,
  )

  unfoldable pub after_getattr : World → Option (Cache × Answered Stat) → World × Reply
  after_getattr w none = (w, stuck)
  after_getattr w (some (c, answer)) = (record w { stats_cache = c }, told answer)

  -- One call; the loop of a read has this fuel.
  unfoldable pub serve : ℕ → World → Call → World × Reply
  unfolding after_open after_read after_getattr
  serve fuel w (getattr path) = after_getattr w (
      mp3fs_getattr system build basepath desttype codecs get_filesize put_filesize statcachesize
        path w.stats_cache)
  serve fuel w (opens path flags) = after_open w (
      mp3fs_open system build basepath desttype codecs get_filesize put_filesize statcachesize path
        flags w.stats_cache)
  serve fuel w (reads fh size offset) = after_read w fh (
      mp3fs_read system build basepath desttype codecs get_filesize put_filesize statcachesize fuel
        (sees w.stats_cache (w.handles fh)) size offset)
  serve fuel w (releases fh) = (
    record w { handles = set_handle w.handles fh none },
    closed (
        mp3fs_release system build basepath desttype codecs get_filesize put_filesize statcachesize
          (w.handles fh)),
  )

  unfoldable pub serve_all : ℕ → World → List Call → World × List Reply
  serve_all fuel w [] = (w, [])
  serve_all fuel w (call ∷ calls) =
      let (w', reply) = serve fuel w call in
      let (w'', replies) = serve_all fuel w' calls in (w'', reply ∷ replies)
