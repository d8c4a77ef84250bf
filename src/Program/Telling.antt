-- ===== src/Program/Telling.antt =====
-- src/fuseops.cc with the codecs of the program and the cache of src/stats_cache.cc: the size that
-- `getattr` tells of a file that was encoded.
use mp3fs.Prelude.{
  none, ℕ, ◌<◌, ◌≡◌, ◌≢◌, true, List, Option, some, arith, length, signed_leb, Text,
}
use mp3fs.Params.{Params}
use mp3fs.Buffer.{size}
use mp3fs.StatsCache.{FileStat, Cache, Others, Sorter, find}
use mp3fs.FilePath.{FilePath, normal_source}
use mp3fs.Transcoder
use mp3fs.Transcoder.{Result, get_size}
use mp3fs.FuseOps.{
  System, Stat, success, failure, source_of, block_count, open_transcoder, encoded_stat,
  mp3fs_getattr,
}
use mp3fs.Program.Codecs.{Platform, AnyDecoder, codecs}
use mp3fs.Program.Remembering.{
  Song, put, lookup, first_open, second_open, reads_of, date, open-session-open,
}

module _ (system : System) (basepath : Text) (platform : Platform) (params : Params)
    (first_lookup : Cache → Text → ℕ → Cache × Option ℕ) (sorter : Sorter) (stat : Text → Option ℕ)
    (others : Others) (now later : ℕ) where
  abbrev File : Type 0
  File = Song platform params first_lookup sorter stat others now later

  -- With a cache of sizes that has room for one more: a file is opened, and reads encode it to its
  -- end, to a size that is not 0. Where the cache had no size of a newer file under its name, a
  -- later `getattr` of a path that leads to it tells the size that the encoding has reached, and
  -- the blocks of that size, if the file can be opened again and is no newer.
  pub mp3fs_getattr-encoded :
      (path : FilePath) (filename : Text) (e : ℕ) (st : Stat) (cache : Cache) (t t' again : File)
      (d d' : AnyDecoder platform params) (fuel : ℕ) (requests : List (ℕ × ℕ))
      (results : List Result)
      → first_open platform params first_lookup sorter stat others now later
          (Transcoder.new (codecs platform params) filename cache)
        ≡ (t, true)
      → t.decoder ≡ some d
      → length t.stats_cache < params.statcachesize
      → ((old : FileStat)
          → find filename t.stats_cache ≡ some old
          → signed_leb old.mtime (date platform params first_lookup sorter stat others now later d)
            ≡ true)
      → reads_of platform params first_lookup sorter stat others now later fuel t requests
        ≡ some (t', results)
      → t'.encoder ≡ none
      → size t'.buffer ≢ 0
      → second_open platform params first_lookup sorter stat others now later
          (Transcoder.new (codecs platform params) filename t'.stats_cache)
        ≡ (again, true)
      → again.decoder ≡ some d'
      → signed_leb
          (date platform params first_lookup sorter stat others now later d')
          (date platform params first_lookup sorter stat others now later d)
        ≡ true
      → system.lstat (normal_source basepath path) ≡ failure e
      → source_of system platform.build basepath params.desttype path ≡ some filename
      → system.lstat filename ≡ success st
      → system.s_isreg st.st_mode ≡ true
      → mp3fs_getattr system platform.build basepath params.desttype
          (codecs platform params)
          (lookup platform params first_lookup sorter stat others now later)
          (put platform params first_lookup sorter stat others now later)
          params.statcachesize
          path
          t'.stats_cache
        ≡ some (
          again.stats_cache,
          success
              (record st { st_size = size t'.buffer; st_blocks = block_count (size t'.buffer) }),
        )
  unfolding mp3fs_getattr encoded_stat open_transcoder get_size
  mp3fs_getattr-encoded path filename e st cache t t' again d d' fuel requests results h decodes
        room fresh reads over some_size h' decodes' no_newer absent found there regular =
      let sized =
        open-session-open platform params first_lookup sorter stat others now later filename cache t
          t' again d d' fuel requests results h decodes room fresh reads over some_size h' decodes'
          no_newer in
      ground (arith, absent, found, there, regular, h', sized)
