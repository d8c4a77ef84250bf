-- ===== src/Mount/Held.antt =====
-- src/fuseops.cc: what a call for any file does with one file that is open.
use mp3fs.Prelude.{
  ℕ, ◌+◌, ◌^◌, ◌<◌, ◌≡◌, ◌≢◌, refl, ◌⊎◌, inl, inr, List, [], ◌∷◌, Option, none, some, arith, ◌==◌,
  if◌then◌else◌, half, Text,
}
use mp3fs.Buffer.{Copy, size}
use mp3fs.StatsCache.{Cache}
use mp3fs.Coders.{Build}
use mp3fs.Transcoder.{Codecs, Transcoder, Result, read}
use mp3fs.Transcoder.Loop.{Laws, IsReadable}
use mp3fs.FuseOps.{Answered, success, failure, Stat, System, transcoder, mp3fs_read, reply}
use mp3fs.Mount.{
  Call, getattr, opens, reads, releases, Reply, gave, Handle, World, after_open, after_read,
  after_getattr, serve,
}

-- What a call does with one open file.
pub data Touch : Type 0 where
  passes : Touch
  asks : ℕ → ℕ → Touch
  ends : Touch

unfoldable pub touch : ℕ → Call → Touch
touch fh (getattr path) = passes
touch fh (opens path flags) = passes
touch fh (reads k size offset) = if k == fh then asks offset size else passes
touch fh (releases k) = if k == fh then ends else passes

pub Touch-cases :
    (t : Touch) → (t ≡ passes) ⊎ ((offset : ℕ) × (len : ℕ) × (t ≡ asks offset len)) ⊎ (t ≡ ends)
Touch-cases passes = inl refl
Touch-cases (asks offset len) = inr (inl (offset, len, refl))
Touch-cases ends = inr (inr refl)

-- The offsets and sizes of the reads of one open file, up to its release.
unfoldable pub requests_of : ℕ → List Call → List (ℕ × ℕ)
unfolding touch
requests_of fh [] = []
requests_of fh (call ∷ calls) =
    let rest = requests_of fh calls in
    elim (touch fh call) [ passes ↦ rest | asks offset len ↦ (offset, len) ∷ rest | ends ↦ [] ]

-- And the replies to them.
unfoldable pub replies_of : ℕ → List Call → List Reply → List Reply
unfolding touch
replies_of fh [] replies = []
replies_of fh (call ∷ calls) [] = []
replies_of fh (call ∷ calls) (r ∷ replies) =
    let rest = replies_of fh calls replies in
    elim (touch fh call) [ passes ↦ rest | asks offset len ↦ r ∷ rest | ends ↦ [] ]

pub touch-asks :
    (fh : ℕ) (call : Call) (offset len : ℕ)
    → touch fh call ≡ asks offset len
    → call ≡ reads fh len offset
unfolding touch
touch-asks fh (getattr path) offset len h = absurd (cc)
touch-asks fh (opens path flags) offset len h = absurd (cc)
touch-asks fh (reads k size o) offset len h = ground arith
touch-asks fh (releases k) offset len h = absurd (ground arith)

-- The ranges are below 2 ^ 63, and the sizes below 2 ^ 31.
abbrev pub AreSmall : List (ℕ × ℕ) → Type 0
AreSmall [] = Unit
AreSmall ((offset, len) ∷ requests) = (offset + len < half) × (len < 2 ^ 31) × AreSmall requests

module _ (system : System) (build : Build) (basepath desttype : Text) (codecs : Codecs)
    (get_filesize : Cache → Text → ℕ → Cache × Option ℕ)
    (put_filesize : Cache → Text → ℕ → ℕ → Cache) (statcachesize : ℕ) where
  abbrev pub Mounted : Type 0
  Mounted = World system build basepath desttype codecs get_filesize put_filesize statcachesize

  abbrev pub serve_of : ℕ → Mounted → Call → Mounted × Reply
  serve_of = serve system build basepath desttype codecs get_filesize put_filesize statcachesize

  -- The file is open for a transcoder, under a number that no later `open` takes.
  abbrev pub Holds : Mounted → ℕ → Transcoder codecs → Type 0
  Holds w fh t = (w.handles fh ≡ some (transcoder t)) × (fh < w.fresh)

  abbrev Opened : Type 0
  Opened = Handle system build basepath desttype codecs get_filesize put_filesize statcachesize

  after_getattr-Holds :
      (w : Mounted) (answer : Option (Cache × Answered Stat)) (fh : ℕ) (t : Transcoder codecs)
      → Holds w fh t
      → Holds
          (after_getattr system build basepath desttype codecs get_filesize put_filesize
            statcachesize w answer).0
          fh
          t
  unfolding after_getattr
  after_getattr-Holds w none fh t h = h
  after_getattr-Holds w (some (c, answer)) fh t h = h

  after_open-Holds :
      (w : Mounted) (answer : Option (Cache × Answered Opened)) (fh : ℕ) (t : Transcoder codecs)
      → Holds w fh t
      → Holds
          (after_open system build basepath desttype codecs get_filesize put_filesize statcachesize
            w answer).0
          fh
          t
  unfolding after_open
  after_open-Holds w none fh t h = h
  after_open-Holds w (some (c, failure e)) fh t h = h
  after_open-Holds w (some (c, success r)) fh t (has, old) = (ground arith, omega arith)

  after_read-Holds :
      (w : Mounted) (k : ℕ) (answer : Option (Option Opened × Answered (Copy × ℕ))) (fh : ℕ)
      (t : Transcoder codecs)
      → k ≢ fh
      → Holds w fh t
      → Holds
          (after_read system build basepath desttype codecs get_filesize put_filesize statcachesize
            w k answer).0
          fh
          t
  unfolding after_read
  after_read-Holds w k none fh t other h = h
  after_read-Holds w k (some (r, answer)) fh t other (has, old) = (ground arith, old)

  -- A call for other files leaves the transcoder.
  pub serve-Holds :
      (fuel : ℕ) (w : Mounted) (call : Call) (fh : ℕ) (t : Transcoder codecs)
      → touch fh call ≡ passes
      → Holds w fh t
      → Holds (serve_of fuel w call).0 fh t
  unfolding serve touch
  serve-Holds fuel w (getattr path) fh t pass h = after_getattr-Holds w _ fh t h
  serve-Holds fuel w (opens path flags) fh t pass h = after_open-Holds w _ fh t h
  serve-Holds fuel w (reads k size offset) fh t pass h =
      after_read-Holds w k _ fh t (ground arith) h
  serve-Holds fuel w (releases k) fh t pass (has, old) = (ground arith, old)

  abbrev Readable : Laws codecs → Transcoder codecs → Type 0
  Readable laws = IsReadable codecs laws get_filesize put_filesize desttype statcachesize

  -- The transcoder as it is when it is called.
  abbrev pub seen : Mounted → Transcoder codecs → Transcoder codecs
  seen w t = record t { stats_cache = w.stats_cache }

  -- A read of the file itself.
  pub serve-own :
      (fuel : ℕ) (w : Mounted) (fh offset len : ℕ) (t t' : Transcoder codecs) (result : Result)
      → Holds w fh t
      → read codecs get_filesize put_filesize desttype statcachesize fuel (seen w t) offset len
        ≡ some (t', result)
      → Holds (serve_of fuel w (reads fh len offset)).0 fh t'
        × ((serve_of fuel w (reads fh len offset)).1
            ≡ gave (
                reply system build basepath desttype codecs get_filesize put_filesize statcachesize
                  result))
  unfolding serve mp3fs_read after_read
  serve-own fuel w fh offset len t t' result (has, old) h =
      ((ground (arith, has, h), ground (arith, has, h)), ground (arith, has, h))
