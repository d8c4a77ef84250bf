-- ===== src/Mount/Reads.antt =====
-- src/fuseops.cc: a read of one open file, and those that come after it.
use mp3fs.Prelude.{
  ℕ, ◌+◌, ◌-◌, ◌^◌, ◌<◌, ◌≡◌, refl, ap, sym, subst, ◌∙◌, inl, inr, List, [], ◌∷◌, Option, some,
  arith, min, half, Text,
}
use mp3fs.Buffer.{Buffer, Copy, size}
use mp3fs.Buffer.Keeps.{Keeps, Keeps-refl, Keeps-trans}
use mp3fs.StatsCache.{Cache}
use mp3fs.Coders.{Build}
use mp3fs.Transcoder.{Codecs, Transcoder, Result, got, read}
use mp3fs.Transcoder.Loop.{Laws, IsReadable, Fails, rounds_left}
use mp3fs.Transcoder.Serves.{Gives, read-Answer}
use mp3fs.Transcoder.Stays.{IsStable, read-Keeps, Gives-Keeps}
use mp3fs.Transcoder.Sessions.{Reaches-Leads, read-Goes}
use mp3fs.FuseOps.{success, failure, System, reply}
use mp3fs.Mount.{Call, Reply, gave, World, serve, serve_all}
use mp3fs.Mount.Replies.{requests-asks, replies-asks}
use mp3fs.Transcoder.Arrivals.{Arrives, Leads-Arrives}
use mp3fs.Mount.Held.{asks, touch, touch-asks, requests_of, replies_of, Holds, serve-own}

module _ (system : System) (build : Build) (basepath desttype : Text) (codecs : Codecs)
    (get_filesize : Cache → Text → ℕ → Cache × Option ℕ)
    (put_filesize : Cache → Text → ℕ → ℕ → Cache) (statcachesize : ℕ) where
  abbrev Mounted : Type 0
  Mounted = World system build basepath desttype codecs get_filesize put_filesize statcachesize

  abbrev serve_of : ℕ → Mounted → Call → Mounted × Reply
  serve_of = serve system build basepath desttype codecs get_filesize put_filesize statcachesize

  abbrev HoldsIt : Mounted → ℕ → Transcoder codecs → Type 0
  HoldsIt = Holds system build basepath desttype codecs get_filesize put_filesize statcachesize

  abbrev Readable : Laws codecs → Transcoder codecs → Type 0
  Readable laws = IsReadable codecs laws get_filesize put_filesize desttype statcachesize

  abbrev seen : Mounted → Transcoder codecs → Transcoder codecs
  seen w t = record t { stats_cache = w.stats_cache }

  abbrev pub Comes : Transcoder codecs → Transcoder codecs → Type 0
  Comes = Arrives codecs get_filesize put_filesize desttype statcachesize

  module _ (laws : Laws codecs) (stable : IsStable codecs) where
    -- Every reply is the part of one file that was asked for, cut short by its end, up to the first
    -- -1, where the rounds lead from the first state to a failure of the codecs.
    abbrev pub OneFile : Transcoder codecs → Buffer → List (ℕ × ℕ) → List Reply → Type 0
    OneFile start b [] [] = Unit
    OneFile start b ((offset, len) ∷ requests) (gave (success (c, n)) ∷ replies) =
        (n ≡ min len (size b - offset)) × Gives b offset n c × OneFile start b requests replies
    OneFile start b (_ ∷ _) (gave (failure e) ∷ replies) =
        (e ≡ system.eio_number)
        × ((u : Transcoder codecs) × Comes start u
            × Fails codecs laws get_filesize put_filesize desttype statcachesize u)
    OneFile start b _ _ = ⊥

    abbrev pub rounds : Transcoder codecs → ℕ
    rounds = rounds_left codecs laws get_filesize put_filesize desttype statcachesize

    -- The reads of one file among any calls.
    abbrev pub AllServed :
        ℕ → Transcoder codecs → Transcoder codecs → Mounted → ℕ → List Call → Type 0
    AllServed fuel start t w fh calls =
        (u : Transcoder codecs) × Comes start u
        × Keeps t.buffer u.buffer
        × OneFile start u.buffer (requests_of fh calls) (
            replies_of fh calls
              (serve_all system build basepath desttype codecs get_filesize put_filesize
                statcachesize fuel w calls).1)

    reply-got :
        (result : Result) (c : Copy) (n : ℕ)
        → result ≡ got c n
        → n < 2 ^ 31
        → reply system build basepath desttype codecs get_filesize put_filesize statcachesize result
          ≡ success (c, n)
    unfolding reply
    reply-got result c n given int = ground (arith, given)

    serve-asks :
        (fuel : ℕ) (w : Mounted) (call : Call) (fh offset len : ℕ) (t t' : Transcoder codecs)
        (result : Result)
        → touch fh call ≡ asks offset len
        → HoldsIt w fh t
        → read codecs get_filesize put_filesize desttype statcachesize fuel (seen w t) offset len
          ≡ some (t', result)
        → HoldsIt (serve_of fuel w call).0 fh t'
          × ((serve_of fuel w call).1
              ≡ gave (
                  reply system build basepath desttype codecs get_filesize put_filesize
                    statcachesize result))
    serve-asks fuel w call fh offset len t t' result own holds answers =
        subst
          (λ (x : Call).
            HoldsIt (serve_of fuel w x).0 fh t'
            × ((serve_of fuel w x).1
                ≡ gave (
                    reply system build basepath desttype codecs get_filesize put_filesize
                      statcachesize result)))
          (sym (touch-asks fh call offset len own))
          (serve-own system build basepath desttype codecs get_filesize put_filesize statcachesize
            fuel w fh offset len t t' result holds answers)

    -- A read of the file itself stands in front of the later ones.
    OneFile-asks :
        (fuel : ℕ) (start : Transcoder codecs) (b : Buffer) (w : Mounted) (call : Call)
        (fh offset len : ℕ) (calls : List Call) (r : Reply)
        → touch fh call ≡ asks offset len
        → (serve_of fuel w call).1 ≡ r
        → OneFile start b ((offset, len) ∷ requests_of fh calls) (
            r
            ∷ replies_of fh calls
                (serve_all system build basepath desttype codecs get_filesize put_filesize
                  statcachesize fuel
                  (serve_of fuel w call).0
                  calls).1)
        → OneFile start b (requests_of fh (call ∷ calls)) (
            replies_of fh
              (call ∷ calls)
              (serve_all system build basepath desttype codecs get_filesize put_filesize
                statcachesize fuel w
                (call ∷ calls)).1)
    OneFile-asks fuel start b w call fh offset len calls r own replied served =
        let asked = requests-asks fh call calls offset len own in
        let answered =
          replies-asks system build basepath desttype codecs get_filesize put_filesize statcachesize
            fuel w fh call calls offset len own in
        rw (asked, answered, replied) served

    pub own_read :
        (fuel : ℕ) (start t : Transcoder codecs) (w : Mounted) (call : Call) (fh offset len : ℕ)
        (calls : List Call)
        → touch fh call ≡ asks offset len
        → Comes start t
        → HoldsIt w fh t
        → Readable laws t
        → offset + len < half
        → len < 2 ^ 31
        → rounds t < fuel
        → ((t' : Transcoder codecs)
            → Comes start t'
            → HoldsIt (serve_of fuel w call).0 fh t'
            → Readable laws t'
            → rounds t' < fuel
            → AllServed fuel start t' (serve_of fuel w call).0 fh calls)
        → AllServed fuel start t w fh (call ∷ calls)
    unfolding reply
    own_read fuel start t w call fh offset len calls own arrives holds r small int enough rest =
        let (t', result, answers, answer) =
          read-Answer codecs laws get_filesize put_filesize desttype statcachesize fuel (seen w t)
            offset len r small enough in
        let (holds', replied) =
          serve-asks fuel w call fh offset len t t' result own holds answers in
        let comes = Arrives.recached w.stats_cache arrives in
        elim answer [
          | inl (failed, (u, reached, fails)) ↦
              let there =
                Leads-Arrives codecs get_filesize put_filesize desttype statcachesize laws stable
                  comes
                  (Reaches-Leads codecs laws stable get_filesize put_filesize desttype statcachesize
                    offset len reached) in
              (
                t,
                arrives,
                Keeps-refl t.buffer,
                OneFile-asks fuel start t.buffer w call fh offset len calls
                    (gave (failure system.eio_number)) own (ground (arith, replied, failed))
                    (refl, (u, there, fails)),
              )
          | inr (c, given, gives, r') ↦
              let n = min len (size t'.buffer - offset) in
              let (leads, fewer) =
                read-Goes codecs laws stable get_filesize put_filesize desttype statcachesize fuel
                  (seen w t) t' offset len n c r (answers ∙ ap (λ x. some (t', x)) given) in
              let there =
                Leads-Arrives codecs get_filesize put_filesize desttype statcachesize laws stable
                  comes leads in
              let (v, later, kept', served) = rest t' there holds' r' (omega (arith, fewer)) in
              let kept =
                read-Keeps codecs laws stable get_filesize put_filesize desttype statcachesize fuel
                  (seen w t) t' offset len result r answers in
              (
                v,
                later,
                Keeps-trans kept kept',
                OneFile-asks fuel start v.buffer w call fh offset len calls (gave (success (c, n)))
                    own (replied ∙ ap gave (reply-got result c n given (omega arith)))
                    (
                      ap (λ m. min len (m - offset)) (sym kept'.same_size),
                      Gives-Keeps t'.buffer v.buffer offset n c kept' gives,
                      served,
                    ),
              )
        ]
