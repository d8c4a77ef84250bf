-- ===== src/Mount/Interleaved.antt =====
-- src/fuseops.cc: the reads of one open file among the calls for all files.
use mp3fs.Prelude.{ℕ, ◌<◌, ◌≡◌, subst, inl, inr, List, [], ◌∷◌, Option, Text}
use mp3fs.Buffer.{Buffer, size}
use mp3fs.Buffer.Keeps.{Keeps-refl}
use mp3fs.StatsCache.{Cache}
use mp3fs.Coders.{Build}
use mp3fs.Transcoder.{Codecs, Transcoder}
use mp3fs.Transcoder.Loop.{Laws, IsReadable, rounds_left}
use mp3fs.Transcoder.Stays.{IsStable}
use mp3fs.FuseOps.{System}
use mp3fs.Mount.{Call, Reply, World, serve, serve_all}
use mp3fs.Mount.Replies.{
  requests-asks, requests-passes, replies-passes, requests-ends, replies-ends,
}
use mp3fs.Transcoder.Arrivals.{Arrives}
use mp3fs.Mount.Held.{touch, Touch-cases, requests_of, replies_of, AreSmall, Holds, serve-Holds}
use mp3fs.Mount.Reads.{OneFile, AllServed, Comes, own_read}
use mp3fs.Transcoder.Loop.{rounds_left}

module _ (system : System) (build : Build) (basepath desttype : Text) (codecs : Codecs)
    (get_filesize : Cache → Text → ℕ → Cache × Option ℕ)
    (put_filesize : Cache → Text → ℕ → ℕ → Cache) (statcachesize : ℕ) where
  abbrev Mounted : Type 0
  Mounted = World system build basepath desttype codecs get_filesize put_filesize statcachesize

  abbrev serve_of : ℕ → Mounted → Call → Mounted × Reply
  serve_of = serve system build basepath desttype codecs get_filesize put_filesize statcachesize

  abbrev HoldsIt : Mounted → ℕ → Transcoder codecs → Type 0
  HoldsIt = Holds system build basepath desttype codecs get_filesize put_filesize statcachesize

  abbrev Readable : Laws codecs → Transcoder codecs → Type 0
  Readable laws = IsReadable codecs laws get_filesize put_filesize desttype statcachesize

  module _ (laws : Laws codecs) (stable : IsStable codecs) where
    abbrev Served : ℕ → Transcoder codecs → Transcoder codecs → Mounted → ℕ → List Call → Type 0
    Served =
        AllServed system build basepath desttype codecs get_filesize put_filesize statcachesize laws
          stable

    pub all-AllServed :
        (fuel : ℕ) (start t : Transcoder codecs) (w : Mounted) (fh : ℕ) (calls : List Call)
        → Comes system build basepath desttype codecs get_filesize put_filesize statcachesize start
            t
        → HoldsIt w fh t
        → Readable laws t
        → AreSmall (requests_of fh calls)
        → rounds_left codecs laws get_filesize put_filesize desttype statcachesize t < fuel
        → Served fuel start t w fh calls
    unfolding requests_of replies_of serve_all
    all-AllServed fuel start t w fh [] arrives holds r small enough =
        (t, arrives, Keeps-refl t.buffer, tt)
    all-AllServed fuel start t w fh (call ∷ calls) arrives holds r small enough =
        elim (Touch-cases (touch fh call)) [
          | inl pass ↦
              let small' = subst AreSmall (requests-passes fh call calls pass) small in
              let (u, later, kept, served) =
                all-AllServed fuel start t (serve_of fuel w call).0 fh calls arrives
                  (serve-Holds system build basepath desttype codecs get_filesize put_filesize
                    statcachesize fuel w call fh t pass holds)
                  r small' enough in
              (
                u,
                later,
                kept,
                rw
                    (
                      requests-passes fh call calls pass,
                      replies-passes system build basepath desttype codecs get_filesize put_filesize
                          statcachesize fuel w fh call calls pass,
                    )
                    served,
              )
          | inr (inl (offset, len, own)) ↦
              let (low, int, small') =
                subst AreSmall (requests-asks fh call calls offset len own) small in
              own_read system build basepath desttype codecs get_filesize put_filesize statcachesize
                laws stable fuel start t w call fh offset len calls own arrives holds r low int
                enough
                (λ t' arrives' holds' r' enough'.
                  all-AllServed fuel start t' (serve_of fuel w call).0 fh calls arrives' holds' r'
                    small' enough')
          | inr (inr over) ↦ (
            t,
            arrives,
            Keeps-refl t.buffer,
            rw
                (
                  requests-ends fh call calls over,
                  replies-ends system build basepath desttype codecs get_filesize put_filesize
                      statcachesize fuel w fh call calls over,
                )
                tt,
          )
        ]

    -- The calls for all files, one after the other, where one file is open for a transcoder under a
    -- number that no later open takes, readable, and with fewer rounds left than there is fuel, and
    -- where its reads are below 2 ^ 63 and shorter than 2 ^ 31, by codecs that change no byte that
    -- is known. Whatever the other calls are, and whatever they leave in the cache of sizes, up to
    -- the release of the file there is one file of bytes, of the size that it had at first, and
    -- every read gives its part of it, cut short by its end, up to the first that fails with -EIO.
    -- Then rounds lead to a failure of the codecs.
    pub serve_all-OneFile :
        (fuel : ℕ) (t : Transcoder codecs) (w : Mounted) (fh : ℕ) (calls : List Call)
        → HoldsIt w fh t
        → Readable laws t
        → AreSmall (requests_of fh calls)
        → rounds_left codecs laws get_filesize put_filesize desttype statcachesize t < fuel
        → (b : Buffer) × (size b ≡ size t.buffer)
          × OneFile system build basepath desttype codecs get_filesize put_filesize statcachesize
              laws stable t b
              (requests_of fh calls)
              (replies_of fh calls
                (serve_all system build basepath desttype codecs get_filesize put_filesize
                  statcachesize fuel w calls).1)
    serve_all-OneFile fuel t w fh calls holds r small enough =
        let (u, _, kept, served) =
          all-AllServed fuel t t w fh calls Arrives.here holds r small enough in
        (u.buffer, kept.same_size, served)
