-- ===== src/Mount/Shared.antt =====
-- src/fuseops.cc: one music file that is open under two numbers.
use mp3fs.Prelude.{ℕ, ◌-◌, ◌<◌, ◌≡◌, ap, sym, ◌∙◌, inl, inr, List, [], ◌∷◌, Option, min, Text}
use mp3fs.Buffer.{Buffer, size}
use mp3fs.Buffer.Keeps.{Keeps}
use mp3fs.StatsCache.{Cache}
use mp3fs.Coders.{Build}
use mp3fs.Transcoder.{Codecs, Transcoder}
use mp3fs.Transcoder.Loop.{Laws, IsReadable, rounds_left}
use mp3fs.Transcoder.Stays.{IsStable, Gives-Keeps}
use mp3fs.Transcoder.Arrivals.{Arrives, Arrives-trans, Arrives-Keeps}
use mp3fs.FuseOps.{success, failure, System}
use mp3fs.Mount.{Call, Reply, told, opened, gave, closed, stuck, World, serve_all}
use mp3fs.Mount.Held.{requests_of, replies_of, AreSmall, Holds}
use mp3fs.Mount.Reads.{OneFile}
use mp3fs.Mount.Interleaved.{all-AllServed}

module _ (system : System) (build : Build) (basepath desttype : Text) (codecs : Codecs)
    (get_filesize : Cache → Text → ℕ → Cache × Option ℕ)
    (put_filesize : Cache → Text → ℕ → ℕ → Cache) (statcachesize : ℕ) (laws : Laws codecs)
    (stable : IsStable codecs) where
  abbrev Mounted : Type 0
  Mounted = World system build basepath desttype codecs get_filesize put_filesize statcachesize

  abbrev HoldsIt : Mounted → ℕ → Transcoder codecs → Type 0
  HoldsIt = Holds system build basepath desttype codecs get_filesize put_filesize statcachesize

  abbrev Readable : Transcoder codecs → Type 0
  Readable = IsReadable codecs laws get_filesize put_filesize desttype statcachesize

  abbrev One : Transcoder codecs → Buffer → List (ℕ × ℕ) → List Reply → Type 0
  One =
      OneFile system build basepath desttype codecs get_filesize put_filesize statcachesize laws
        stable

  -- What is served from a file is served from one of which more is known.
  One-Keeps :
      (start : Transcoder codecs) (b b' : Buffer) (requests : List (ℕ × ℕ)) (replies : List Reply)
      → Keeps b b'
      → One start b requests replies
      → One start b' requests replies
  One-Keeps start b b' [] [] kept h = h
  One-Keeps start b b' ((offset, len) ∷ requests) (gave (success (c, n)) ∷ replies) kept
        (cut, gives, rest) =
      (
        cut ∙ ap (λ m. min len (m - offset)) (sym kept.same_size),
        Gives-Keeps b b' offset n c kept gives,
        One-Keeps start b b' requests replies kept rest,
      )
  One-Keeps start b b' (request ∷ requests) (gave (failure e) ∷ replies) kept h = h
  One-Keeps start b b' [] (reply ∷ replies) kept h = absurd h
  One-Keeps start b b' (request ∷ requests) [] kept h = absurd h
  One-Keeps start b b' (request ∷ requests) (told a ∷ replies) kept h = absurd h
  One-Keeps start b b' (request ∷ requests) (opened a ∷ replies) kept h = absurd h
  One-Keeps start b b' (request ∷ requests) (closed fds ∷ replies) kept h = absurd h
  One-Keeps start b b' (request ∷ requests) (stuck ∷ replies) kept h = absurd h

  -- The calls for all files, one after the other, where one music file is open under two numbers
  -- that no later open takes: both have the same transcoder but for the cache of sizes, readable,
  -- and with fewer rounds left than there is fuel. Where the reads by both are below 2 ^ 63 and
  -- shorter than 2 ^ 31, by codecs that change no byte that is known, there is one file of bytes,
  -- of the size that it had at first, and the reads by either number, in whatever order they come,
  -- give its parts, each up to its release and the first that fails with -EIO.
  pub serve_all-shared :
      (fuel : ℕ) (t : Transcoder codecs) (c : Cache) (w : Mounted) (fh fh' : ℕ) (calls : List Call)
      → HoldsIt w fh t
      → HoldsIt w fh' (record t { stats_cache = c })
      → Readable t
      → AreSmall (requests_of fh calls)
      → AreSmall (requests_of fh' calls)
      → rounds_left codecs laws get_filesize put_filesize desttype statcachesize t < fuel
      → (b : Buffer) × (size b ≡ size t.buffer)
        × One t b (requests_of fh calls) (
            replies_of fh calls
              (serve_all system build basepath desttype codecs get_filesize put_filesize
                statcachesize fuel w calls).1)
        × One
            (record t { stats_cache = c })
            b
            (requests_of fh' calls)
            (replies_of fh' calls
              (serve_all system build basepath desttype codecs get_filesize put_filesize
                statcachesize fuel w calls).1)
  serve_all-shared fuel t c w fh fh' calls holds holds' r small small' enough =
      let t' : Transcoder codecs = record t { stats_cache = c } in
      let replies =
        (serve_all system build basepath desttype codecs get_filesize put_filesize statcachesize
          fuel w calls).1 in
      let (u, later, kept, served) =
        all-AllServed system build basepath desttype codecs get_filesize put_filesize statcachesize
          laws stable fuel t t w fh calls Arrives.here holds r small enough in
      let (u', later', kept', served') =
        all-AllServed system build basepath desttype codecs get_filesize put_filesize statcachesize
          laws stable fuel t' t' w fh' calls Arrives.here holds' r small' enough in
      let from_t : Arrives codecs get_filesize put_filesize desttype statcachesize t u' =
        Arrives-trans codecs get_filesize put_filesize desttype statcachesize
          (Arrives.recached c Arrives.here) later' in
      elim (Arrives-Keeps codecs get_filesize put_filesize desttype statcachesize laws stable r
        later from_t) [
          | inl more ↦ (
            u'.buffer,
            kept'.same_size,
            One-Keeps t u.buffer u'.buffer (requests_of fh calls) (replies_of fh calls replies) more
                served,
            served',
          )
          | inr more ↦ (
            u.buffer,
            kept.same_size,
            served,
            One-Keeps t' u'.buffer u.buffer (requests_of fh' calls) (replies_of fh' calls replies)
                more served',
          )
        ]
