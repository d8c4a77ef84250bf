-- ===== src/Mount/Replies.antt =====
-- src/fuseops.cc: the reads of one open file in a list of calls, and the replies to them.
use mp3fs.Prelude.{ℕ, ◌≡◌, List, [], ◌∷◌, Option, arith, Text}
use mp3fs.StatsCache.{Cache}
use mp3fs.Coders.{Build}
use mp3fs.Transcoder.{Codecs}
use mp3fs.FuseOps.{System}
use mp3fs.Mount.{Call, Reply, World, serve, serve_all}
use mp3fs.Mount.Held.{passes, asks, ends, touch, requests_of, replies_of}

pub requests-asks :
    (fh : ℕ) (call : Call) (calls : List Call) (offset len : ℕ)
    → touch fh call ≡ asks offset len
    → requests_of fh (call ∷ calls) ≡ (offset, len) ∷ requests_of fh calls
unfolding requests_of
requests-asks fh call calls offset len own = ground (arith, own)

-- A call for other files is not among the reads, nor is its reply.
pub requests-passes :
    (fh : ℕ) (call : Call) (calls : List Call)
    → touch fh call ≡ passes
    → requests_of fh (call ∷ calls) ≡ requests_of fh calls
unfolding requests_of
requests-passes fh call calls pass = ground (arith, pass)

-- Nothing counts after the release.
pub requests-ends :
    (fh : ℕ) (call : Call) (calls : List Call)
    → touch fh call ≡ ends
    → requests_of fh (call ∷ calls) ≡ []
unfolding requests_of
requests-ends fh call calls over = ground (arith, over)

module _ (system : System) (build : Build) (basepath desttype : Text) (codecs : Codecs)
    (get_filesize : Cache → Text → ℕ → Cache × Option ℕ)
    (put_filesize : Cache → Text → ℕ → ℕ → Cache) (statcachesize : ℕ) where
  abbrev Mounted : Type 0
  Mounted = World system build basepath desttype codecs get_filesize put_filesize statcachesize

  abbrev serve_of : ℕ → Mounted → Call → Mounted × Reply
  serve_of = serve system build basepath desttype codecs get_filesize put_filesize statcachesize

  abbrev all_of : ℕ → Mounted → List Call → Mounted × List Reply
  all_of = serve_all system build basepath desttype codecs get_filesize put_filesize statcachesize

  pub replies-asks :
      (fuel : ℕ) (w : Mounted) (fh : ℕ) (call : Call) (calls : List Call) (offset len : ℕ)
      → touch fh call ≡ asks offset len
      → replies_of fh (call ∷ calls) (all_of fuel w (call ∷ calls)).1
        ≡ (serve_of fuel w call).1
          ∷ replies_of fh calls (all_of fuel (serve_of fuel w call).0 calls).1
  unfolding replies_of serve_all
  replies-asks fuel w fh call calls offset len own = ground (arith, own)

  pub replies-passes :
      (fuel : ℕ) (w : Mounted) (fh : ℕ) (call : Call) (calls : List Call)
      → touch fh call ≡ passes
      → replies_of fh (call ∷ calls) (all_of fuel w (call ∷ calls)).1
        ≡ replies_of fh calls (all_of fuel (serve_of fuel w call).0 calls).1
  unfolding replies_of serve_all
  replies-passes fuel w fh call calls pass = ground (arith, pass)

  pub replies-ends :
      (fuel : ℕ) (w : Mounted) (fh : ℕ) (call : Call) (calls : List Call)
      → touch fh call ≡ ends
      → replies_of fh (call ∷ calls) (all_of fuel w (call ∷ calls)).1 ≡ []
  unfolding replies_of serve_all
  replies-ends fuel w fh call calls over = ground (arith, over)
