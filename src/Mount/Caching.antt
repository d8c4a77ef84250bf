-- ===== src/Mount/Caching.antt =====
-- src/fuseops.cc: what the calls of the cache of sizes keep, the calls for all files keep.
use mp3fs.Prelude.{ℕ, inl, inr, List, [], ◌∷◌, Option, none, some, arith, Text, Option-cases}
use mp3fs.StatsCache.{Cache}
use mp3fs.Coders.{Build}
use mp3fs.FilePath.{FilePath, normal_source}
use mp3fs.Transcoder
use mp3fs.Transcoder.{Codecs, Transcoder, Result, read}
use mp3fs.Transcoder.Caching.{open_-IsFine, read-IsFine}
use mp3fs.FuseOps.{
  Answered-cases, System, file_reader, transcoder, source_of, open_transcoder, encoded_stat,
  mp3fs_getattr, mp3fs_open, mp3fs_read,
}
use mp3fs.Mount.{
  Call, getattr, opens, reads, releases, Handle, World, sees, after_open, after_read, after_getattr,
  serve, serve_all,
}

module _ (system : System) (build : Build) (basepath desttype : Text) (codecs : Codecs)
    (get_filesize : Cache → Text → ℕ → Cache × Option ℕ)
    (put_filesize : Cache → Text → ℕ → ℕ → Cache) (statcachesize : ℕ) (IsFine : Cache → Type 0)
    (get-IsFine : (c : Cache) (filename : Text) (mtime : ℕ)
      → IsFine c
      → IsFine (get_filesize c filename mtime).0)
    (put-IsFine : (c : Cache) (filename : Text) (n mtime : ℕ)
      → IsFine c
      → IsFine (put_filesize c filename n mtime)) where
  abbrev Mounted : Type 0
  Mounted = World system build basepath desttype codecs get_filesize put_filesize statcachesize

  abbrev Opened : Type 0
  Opened = Handle system build basepath desttype codecs get_filesize put_filesize statcachesize

  open_transcoder-IsFine :
      (source : Text) (c : Cache)
      → IsFine c
      → IsFine
          (open_transcoder system build basepath desttype codecs get_filesize put_filesize
            statcachesize source c).0.stats_cache
  unfolding open_transcoder Transcoder.new
  open_transcoder-IsFine source c fine =
      open_-IsFine codecs get_filesize put_filesize desttype statcachesize IsFine get-IsFine
        put-IsFine (Transcoder.new codecs source c) fine

  getattr-IsFine :
      (w : Mounted) (path : FilePath)
      → IsFine w.stats_cache
      → IsFine
          (after_getattr system build basepath desttype codecs get_filesize put_filesize
            statcachesize w
            (mp3fs_getattr system build basepath desttype codecs get_filesize put_filesize
              statcachesize path w.stats_cache)).0.stats_cache
  unfolding after_getattr mp3fs_getattr encoded_stat
  getattr-IsFine w path fine = elim (Answered-cases (system.lstat (normal_source basepath path))) [
    | inl (st, there) ↦ ground (arith, there, fine)
    | inr (e, missing) ↦ elim (Option-cases (source_of system build basepath desttype path)) [
      | inl stuck ↦ ground (arith, missing, stuck, fine)
      | inr (source, found) ↦ elim (Answered-cases (system.lstat source)) [
        | inl (st, there) ↦
            ground
              (arith, missing, found, there, fine, open_transcoder-IsFine source w.stats_cache fine)
        | inr (e', absent) ↦ ground (arith, missing, found, absent, fine)
      ]
    ]
  ]

  opens-IsFine :
      (w : Mounted) (path : FilePath) (flags : ℕ)
      → IsFine w.stats_cache
      → IsFine
          (after_open system build basepath desttype codecs get_filesize put_filesize statcachesize
            w
            (mp3fs_open system build basepath desttype codecs get_filesize put_filesize
              statcachesize path flags w.stats_cache)).0.stats_cache
  unfolding after_open mp3fs_open
  opens-IsFine w path flags fine =
      elim (Answered-cases (system.open_fd (normal_source basepath path) flags)) [
        | inl (fd, there) ↦ ground (arith, there, fine)
        | inr (e, missing) ↦ elim (Option-cases (source_of system build basepath desttype path)) [
          | inl stuck ↦ ground (arith, missing, stuck, fine)
          | inr (source, found) ↦
              ground (arith, missing, found, fine, open_transcoder-IsFine source w.stats_cache fine)
        ]
      ]

  reads-IsFine :
      (fuel : ℕ) (w : Mounted) (fh size offset : ℕ) (r : Option Opened)
      → IsFine w.stats_cache
      → IsFine
          (after_read system build basepath desttype codecs get_filesize put_filesize statcachesize
            w fh
            (mp3fs_read system build basepath desttype codecs get_filesize put_filesize
              statcachesize fuel
              (sees system build basepath desttype codecs get_filesize put_filesize statcachesize
                w.stats_cache r)
              size
              offset)).0.stats_cache
  unfolding after_read mp3fs_read
  reads-IsFine fuel w fh size offset none fine = fine
  reads-IsFine fuel w fh size offset (some (file_reader fd)) fine =
      elim (Answered-cases (system.pread fd size offset)) [
        | inl (out, given) ↦ ground (arith, given, fine)
        | inr (e, failed) ↦ ground (arith, failed, fine)
      ]
  reads-IsFine fuel w fh size offset (some (transcoder t)) fine =
      let seen : Transcoder codecs = record t { stats_cache = w.stats_cache } in
      elim (Option-cases
        (read codecs get_filesize put_filesize desttype statcachesize fuel seen offset size)) [
          | inl out_of_fuel ↦ ground (arith, out_of_fuel, fine)
          | inr ((t', result), answers) ↦ ground (
            arith,
            answers,
            read-IsFine codecs get_filesize put_filesize desttype statcachesize IsFine get-IsFine
                put-IsFine fuel seen t' offset size result fine answers,
          )
        ]

  serve-IsFine :
      (fuel : ℕ) (w : Mounted) (call : Call)
      → IsFine w.stats_cache
      → IsFine
          (serve system build basepath desttype codecs get_filesize put_filesize statcachesize fuel
            w call).0.stats_cache
  unfolding serve
  serve-IsFine fuel w (getattr path) fine = getattr-IsFine w path fine
  serve-IsFine fuel w (opens path flags) fine = opens-IsFine w path flags fine
  serve-IsFine fuel w (reads fh size offset) fine =
      reads-IsFine fuel w fh size offset (w.handles fh) fine
  serve-IsFine fuel w (releases fh) fine = fine

  -- What a lookup and a put of a size keep, any calls keep.
  pub serve_all-IsFine :
      (fuel : ℕ) (w : Mounted) (calls : List Call)
      → IsFine w.stats_cache
      → IsFine
          (serve_all system build basepath desttype codecs get_filesize put_filesize statcachesize
            fuel w calls).0.stats_cache
  unfolding serve_all
  serve_all-IsFine fuel w [] fine = fine
  serve_all-IsFine fuel w (call ∷ calls) fine =
      serve_all-IsFine fuel
        (serve system build basepath desttype codecs get_filesize put_filesize statcachesize fuel w
          call).0
        calls (serve-IsFine fuel w call fine)
