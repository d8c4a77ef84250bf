-- ===== src/Program/Serving.antt =====
-- src/fuseops.cc with the codecs of the program: a file is opened and read among the calls for all
-- files.
use mp3fs.Prelude.{
  suc, ℕ, ◌+◌, ◌≤◌, ◌<◌, ◌≡◌, inl, inr, true, List, ◌∷◌, Option, some, arith, half, Text,
  Option-cases,
}
use mp3fs.Params.{Params}
use mp3fs.Buffer.{Buffer, tell, size}
use mp3fs.StatsCache.{Cache}
use mp3fs.FilePath.{FilePath, normal_source}
use mp3fs.Mp3Encoder.{buffer_slop, id3v1_tag_length}
use mp3fs.Transcoder
use mp3fs.Transcoder.{Transcoder}
use mp3fs.FuseOps.{
  Answered, success, System, Reader, transcoder, source_of, open_transcoder, mp3fs_open,
  Answered-cases,
}
use mp3fs.Mount.{Call, opens, Reply, opened, World, set_handle, after_open, serve, serve_all}
use mp3fs.Mount.Held.{requests_of, replies_of, AreSmall, Holds}
use mp3fs.Mount.Reads.{OneFile}
use mp3fs.Mount.Interleaved.{serve_all-OneFile}
use mp3fs.Program.Codecs.{Platform, codecs}
use mp3fs.Program.Lawful.{IsReliable, lawful, stable}
use mp3fs.Program.Reading.{File, open_of, rounds_of, open_of-Readable}

module _ (system : System) (basepath : Text) (platform : Platform) (params : Params)
    (libs : IsReliable platform) (get_filesize : Cache → Text → ℕ → Cache × Option ℕ)
    (put_filesize : Cache → Text → ℕ → ℕ → Cache) where
  abbrev Song : Type 0
  Song = File platform params libs get_filesize put_filesize

  -- `mp3fs_open` with the codecs of the program.
  abbrev pub open_call :
      FilePath
      → ℕ
      → Cache
      → Option (
          Cache
          × Answered (
              Reader system platform.build basepath params.desttype
                (codecs platform params)
                get_filesize
                put_filesize
                params.statcachesize))
  open_call =
      mp3fs_open system platform.build basepath params.desttype (codecs platform params)
        get_filesize put_filesize params.statcachesize

  -- A transcoder that `mp3fs_open` gives was opened without an error.
  open_call-open_of :
      (path : FilePath) (flags : ℕ) (cache cache' : Cache) (t : Song)
      → open_call path flags cache ≡ some (cache', success (transcoder t))
      → (filename : Text) × (open_of platform params libs get_filesize put_filesize
            (Transcoder.new (codecs platform params) filename cache)
          ≡ (t, true))
  unfolding mp3fs_open open_transcoder
  open_call-open_of path flags cache cache' t h =
      elim (Answered-cases (system.open_fd (normal_source basepath path) flags)) [
        | inl (fd, found) ↦ absurd (ground arith)
        | inr (e, missing) ↦
            elim (Option-cases (source_of system platform.build basepath params.desttype path)) [
              | inl stuck ↦ absurd (ground arith)
              | inr (source, found) ↦ (source, ground arith)
            ]
      ]

  abbrev pub WorldOf : Type 0
  WorldOf =
      World system platform.build basepath params.desttype (codecs platform params) get_filesize
        put_filesize params.statcachesize

  abbrev pub serve_calls : ℕ → WorldOf → List Call → WorldOf × List Reply
  serve_calls =
      serve_all system platform.build basepath params.desttype (codecs platform params) get_filesize
        put_filesize params.statcachesize

  abbrev pub ServesOne :
      params.vbr ≡ 0 → params.statcachesize ≡ 0 → Song → Buffer → List (ℕ × ℕ) → List Reply → Type 0
  ServesOne cbr uncached =
      OneFile system platform.build basepath params.desttype (codecs platform params) get_filesize
        put_filesize params.statcachesize (lawful platform params libs)
        (stable platform params libs cbr uncached)

  -- The world after an `open` of a transcoder.
  after_opens :
      (fuel : ℕ) (w : WorldOf) (path : FilePath) (flags : ℕ) (cache : Cache) (t : Song)
      (calls : List Call)
      → open_call path flags w.stats_cache ≡ some (cache, success (transcoder t))
      → (w' : WorldOf) × (Holds system platform.build basepath params.desttype
          (codecs platform params)
          get_filesize
          put_filesize
          params.statcachesize
          w'
          w.fresh
          t)
        × ((serve_calls fuel w (opens path flags ∷ calls)).1
            ≡ opened (success w.fresh) ∷ (serve_calls fuel w' calls).1)
  unfolding serve_all serve after_open
  after_opens fuel w path flags cache t calls h = (
    record w {
      stats_cache = cache;
      handles =
          set_handle system platform.build basepath params.desttype (codecs platform params)
            get_filesize put_filesize params.statcachesize w.handles w.fresh (some (transcoder t));
      fresh = suc w.fresh;
    },
    (ground arith, omega arith),
    ground (arith, h),
  )

  module _ (cbr : params.vbr ≡ 0) (uncached : params.statcachesize ≡ 0) where
    -- With no cache of sizes, at a constant bit rate, and on libraries that read a finite number of
    -- frames and fill no more than the buffers that they are given: where `open` gives a
    -- transcoder, whose tags fit in the size that it has and whose size leaves room for one more
    -- flush, it answers with a number. Whatever calls for any files follow, up to the release of
    -- that number there is one file of bytes, of the size at the `open`. Every read by that number,
    -- below 2 ^ 63, shorter than 2 ^ 31 and with more fuel than frames are left, gives its part of
    -- the file, cut short by its end only, up to the first that fails with -EIO. Then rounds lead
    -- to a failure of the codecs.
    pub serve_all-opened :
        (fuel : ℕ) (w : WorldOf) (path : FilePath) (flags : ℕ) (cache : Cache) (t : Song)
        (calls : List Call)
        → open_call path flags w.stats_cache ≡ some (cache, success (transcoder t))
        → tell t.buffer + id3v1_tag_length ≤ size t.buffer
        → size t.buffer + buffer_slop < half
        → AreSmall (requests_of w.fresh calls)
        → rounds_of platform params libs get_filesize put_filesize t < fuel
        → (replies : List Reply) × (b : Buffer) × ((serve_calls fuel w (opens path flags ∷ calls)).1
            ≡ opened (success w.fresh) ∷ replies)
          × (size b ≡ size t.buffer)
          × ServesOne cbr uncached t b
              (requests_of w.fresh calls)
              (replies_of w.fresh calls replies)
    serve_all-opened fuel w path flags cache t calls h fits room small enough =
        let (w', holds, answers) = after_opens fuel w path flags cache t calls h in
        let (filename, opens_it) = open_call-open_of path flags w.stats_cache cache t h in
        let readable =
          open_of-Readable platform params libs get_filesize put_filesize filename w.stats_cache t
            opens_it fits room in
        let (b, same_size, served) =
          serve_all-OneFile system platform.build basepath params.desttype (codecs platform params)
            get_filesize put_filesize params.statcachesize (lawful platform params libs)
            (stable platform params libs cbr uncached) fuel t w' w.fresh calls holds readable small
            enough in
        ((serve_calls fuel w' calls).1, b, answers, same_size, served)
