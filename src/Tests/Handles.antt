-- ===== src/Tests/Handles.antt =====
-- src/fuseops.cc: two open files among other calls.
use mp3fs.Prelude.{
  ℕ, Text, ◌≡◌, ◌==◌, if◌then◌else◌, refl, inr, List, [], ◌∷◌, none, some, arith, codes,
}
use mp3fs.Buffer.{Buffer, size}
use mp3fs.FuseOps.{transcoder}
use mp3fs.Mount.{Call, getattr, opens, reads, releases, World, serve_all}
use mp3fs.Mount.Held.{requests_of, replies_of, touch, AreSmall}
use mp3fs.Mount.Bounded.{lookup, put, IsBounded, serve_all-IsBounded}
use mp3fs.Tests.Caches.{sorter, unchanged}
use mp3fs.StatsCache.{Cache, find}
use mp3fs.StatsCache.Map.{IsMap}
use mp3fs.Mount.Shared.{serve_all-shared}
use mp3fs.Mount.Reads.{OneFile}
use mp3fs.Mount.Interleaved.{serve_all-OneFile}
use mp3fs.Tests.Codecs.{counting, counting_laws, no_lookup, no_put, half_read, half_read-IsValid}
use mp3fs.Tests.Reads.{counting_stable}
use mp3fs.Tests.Mounts.{disk, all_codecs, song}

abbrev both_open : World disk all_codecs (codes "m") (codes "mp3") counting no_lookup no_put 0
both_open = record {
  stats_cache = [];
  handles = λ fh.
      if fh == 1
      then some (transcoder half_read)
      else (if fh == 2 then some (transcoder half_read) else none);
  fresh = 3;
}

-- A read of each file, a new file, the other file closed, and a read past the end.
abbrev calls : List Call
calls =
    reads 1 3 1
    ∷ reads 2 2 0
    ∷ opens song 0
    ∷ releases 2
    ∷ getattr song
    ∷ reads 1 9 3
    ∷ releases 1
    ∷ []

calls-AreSmall : AreSmall (requests_of 1 calls)
unfolding requests_of touch
calls-AreSmall = (omega arith, omega arith, (omega arith, omega arith, tt))

serve_all-OneFile_example :
    (b : Buffer) × (size b ≡ size half_read.buffer)
    × OneFile disk all_codecs
        (codes "m")
        (codes "mp3")
        counting
        no_lookup
        no_put
        0
        counting_laws
        counting_stable
        half_read
        b
        (requests_of 1 calls)
        (replies_of 1 calls
          (serve_all disk all_codecs
            (codes "m")
            (codes "mp3")
            counting
            no_lookup
            no_put
            0
            4
            both_open
            calls).1)
serve_all-OneFile_example =
    serve_all-OneFile disk all_codecs (codes "m") (codes "mp3") counting no_lookup no_put 0
      counting_laws counting_stable 4 half_read both_open 1 calls (refl, omega arith)
      (inr (half_read-IsValid, (2, refl), (tt, refl))) calls-AreSmall (omega arith)

others-AreSmall : AreSmall (requests_of 2 calls)
unfolding requests_of touch
others-AreSmall = (omega arith, omega arith, tt)

serve_all-shared_example :
    (b : Buffer) × (size b ≡ size half_read.buffer)
    × OneFile disk all_codecs
        (codes "m")
        (codes "mp3")
        counting
        no_lookup
        no_put
        0
        counting_laws
        counting_stable
        half_read
        b
        (requests_of 1 calls)
        (replies_of 1 calls
          (serve_all disk all_codecs
            (codes "m")
            (codes "mp3")
            counting
            no_lookup
            no_put
            0
            4
            both_open
            calls).1)
    × OneFile disk all_codecs
        (codes "m")
        (codes "mp3")
        counting
        no_lookup
        no_put
        0
        counting_laws
        counting_stable
        half_read
        b
        (requests_of 2 calls)
        (replies_of 2 calls
          (serve_all disk all_codecs
            (codes "m")
            (codes "mp3")
            counting
            no_lookup
            no_put
            0
            4
            both_open
            calls).1)
serve_all-shared_example =
    serve_all-shared disk all_codecs (codes "m") (codes "mp3") counting no_lookup no_put 0
      counting_laws counting_stable 4 half_read [] both_open 1 2 calls (refl, omega arith)
      (refl, omega arith) (inr (half_read-IsValid, (2, refl), (tt, refl))) calls-AreSmall
      others-AreSmall (omega arith)

abbrev clock : Cache → Text → ℕ → ℕ
clock c filename mtime = 5

-- One file is open, and the cache is full.
abbrev caching :
    World disk all_codecs
      (codes "m")
      (codes "mp3")
      counting
      (lookup disk all_codecs (codes "m") (codes "mp3") counting sorter unchanged clock 1)
      (put disk all_codecs (codes "m") (codes "mp3") counting sorter unchanged clock 1)
      1
caching = record {
  stats_cache = (codes "b", record { size = 7; atime = 3; mtime = 2 }) ∷ [];
  handles = λ fh. if fh == 1 then some (transcoder half_read) else none;
  fresh = 2;
}

caching-IsMap : IsMap caching.stats_cache
unfolding find
caching-IsMap = (refl, tt)

caching-IsBounded :
    IsBounded disk all_codecs
      (codes "m")
      (codes "mp3")
      counting
      sorter
      unchanged
      clock
      1
      caching.stats_cache
caching-IsBounded = (caching-IsMap, omega arith)

serve_all-IsBounded_example :
    IsBounded disk all_codecs
      (codes "m")
      (codes "mp3")
      counting
      sorter
      unchanged
      clock
      1
      (serve_all disk all_codecs
        (codes "m")
        (codes "mp3")
        counting
        (lookup disk all_codecs (codes "m") (codes "mp3") counting sorter unchanged clock 1)
        (put disk all_codecs (codes "m") (codes "mp3") counting sorter unchanged clock 1)
        1
        4
        caching
        calls).0.stats_cache
serve_all-IsBounded_example =
    serve_all-IsBounded disk all_codecs (codes "m") (codes "mp3") counting sorter unchanged clock 1
      4 caching calls caching-IsBounded
