-- ===== src/Mount/Bounded.antt =====
-- src/fuseops.cc with the cache of src/stats_cache.cc: the cache through the calls for all files.
use mp3fs.Prelude.{ℕ, ◌≤◌, inl, inr, List, Option, arith, length, Text, Option-cases}
use mp3fs.StatsCache
use mp3fs.StatsCache.{FileStat, Cache, Sorter, alone, find}
use mp3fs.StatsCache.Map.{IsMap, length-erase, length-assign}
use mp3fs.StatsCache.Lookup.{get_filesize-IsMap}
use mp3fs.StatsCache.Prune.{put_filesize-IsMap, length-put_filesize-le}
use mp3fs.Coders.{Build}
use mp3fs.Transcoder.{Codecs}
use mp3fs.FuseOps.{System}
use mp3fs.Mount.{Call, World, serve_all}
use mp3fs.Mount.Caching.{serve_all-IsFine}

-- A lookup adds no entry.
length-get_filesize-le :
    (c : Cache) (filename : Text) (mtime now : ℕ)
    → length (StatsCache.get_filesize c filename mtime now).0 ≤ length c
unfolding StatsCache.get_filesize
length-get_filesize-le c filename mtime now = elim (Option-cases (find filename c)) [
  | inl miss ↦ ground (arith, miss)
  | inr (s, hit) ↦ ground (
    arith,
    hit,
    length-erase filename c s hit,
    length-assign filename (record s { atime = now }) c,
  )
]

module _ (system : System) (build : Build) (basepath desttype : Text) (codecs : Codecs)
    (sorter : Sorter) (stat : Text → Option ℕ) (clock : Cache → Text → ℕ → ℕ)
    (statcachesize : ℕ) where
  -- The lookups and the puts, each at a time of its own.
  abbrev pub lookup : Cache → Text → ℕ → Cache × Option ℕ
  lookup c filename mtime = StatsCache.get_filesize c filename mtime (clock c filename mtime)

  abbrev pub put : Cache → Text → ℕ → ℕ → Cache
  put c filename filesize mtime =
      StatsCache.put_filesize sorter stat statcachesize alone c filename filesize mtime
        (clock c filename mtime)

  -- One entry for each name, and no more entries than were asked for.
  abbrev pub IsBounded : Cache → Type 0
  IsBounded c = IsMap c × (length c ≤ statcachesize)

  lookup-IsBounded :
      (c : Cache) (filename : Text) (mtime : ℕ)
      → IsBounded c
      → IsBounded (lookup c filename mtime).0
  lookup-IsBounded c filename mtime (m, few) =
      let now = clock c filename mtime in
      (
        get_filesize-IsMap c filename mtime now m,
        omega (arith, length-get_filesize-le c filename mtime now),
      )

  put-IsBounded :
      (c : Cache) (filename : Text) (filesize mtime : ℕ)
      → IsBounded c
      → IsBounded (put c filename filesize mtime)
  put-IsBounded c filename filesize mtime (m, few) =
      let now = clock c filename mtime in
      (
        put_filesize-IsMap sorter stat statcachesize alone c filename filesize mtime now m,
        length-put_filesize-le sorter stat statcachesize c filename filesize mtime now m,
      )

  -- Through any calls for any files, one after the other, the cache of sizes keeps one entry at
  -- most for each name, and no more entries than its configured size.
  pub serve_all-IsBounded :
      (fuel : ℕ) (w : World system build basepath desttype codecs lookup put statcachesize)
      (calls : List Call)
      → IsBounded w.stats_cache
      → IsBounded
          (serve_all system build basepath desttype codecs lookup put statcachesize fuel w
            calls).0.stats_cache
  serve_all-IsBounded fuel w calls bounded =
      serve_all-IsFine system build basepath desttype codecs lookup put statcachesize IsBounded
        lookup-IsBounded put-IsBounded fuel w calls bounded
