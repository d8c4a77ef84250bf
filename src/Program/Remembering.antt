-- ===== src/Program/Remembering.antt =====
-- src/transcode.cc with the codecs of the program and the cache of src/stats_cache.cc: a file is
-- encoded to its end, and opened again.
use mp3fs.Prelude.{
  ℕ, suc, ◌≤◌, ◌<◌, ◌≡◌, ◌≢◌, refl, ◌∙◌, inl, inr, Bool, true, List, Option, none, some, arith,
  word, length, signed_leb, Text,
}
use mp3fs.Params.{Params}
use mp3fs.Buffer.{Buffer, init, write_end, size}
use mp3fs.Buffer.Writes.{length-resize}
use mp3fs.StatsCache.{FileStat, Cache, Others, Sorter, find, store, get_filesize, put_filesize}
use mp3fs.StatsCache.Lookup.{newer, get_filesize-store}
use mp3fs.StatsCache.Map.{length-assign}
use mp3fs.Mp3Encoder.{Lame, Id3, Mp3Encoder, id3v1_tag_length, final_size, render_tag}
use mp3fs.Transcoder
use mp3fs.Transcoder.{Transcoder, Result, open_}
use mp3fs.Transcoder.Opening.{open_-IsOpened}
use mp3fs.Transcoder.Remembers.{session-IsOnTheWay}
use mp3fs.Transcoder.Sessions.{session}
use mp3fs.Program.Codecs.{Platform, AnyDecoder, mtime_of, codecs}
use mp3fs.Program.Dates.{frame_of-mtime}

-- A file that is opened with a known size has that size.
render_tag-size :
    (lame : Lame) (id3 : Id3) (params : Params) (e e' : Mp3Encoder lame id3 params) (file_size : ℕ)
    (b : Buffer)
    → file_size ≢ 0
    → file_size < word
    → render_tag lame id3 params e init file_size ≡ some (e', b)
    → size b ≡ file_size
unfolding render_tag final_size write_end size
render_tag-size lame id3 params e e' file_size b some_size bits h =
    ground (arith, length-resize id3v1_tag_length (id3.render_v1 e.id3tag))

size-word : (b : Buffer) → size b < word
unfolding size
size-word b = omega arith

newer-fresh :
    (o : Option FileStat) (s : FileStat)
    → ((old : FileStat) → o ≡ some old → signed_leb old.mtime s.mtime ≡ true)
    → newer o s ≡ s
unfolding newer
newer-fresh none s fresh = refl
newer-fresh (some old) s fresh = ground (arith, fresh old refl)

length-store-le :
    (c : Cache) (filename : Text) (filesize mtime now : ℕ)
    → length (store c filename filesize mtime now) ≤ suc (length c)
unfolding store
length-store-le c filename filesize mtime now =
    let s : FileStat = record { size = filesize; atime = now; mtime = mtime } in
    ground (arith, length-assign filename s c)

module _ (platform : Platform) (params : Params)
    (first_lookup : Cache → Text → ℕ → Cache × Option ℕ) (sorter : Sorter) (stat : Text → Option ℕ)
    (others : Others) (now later : ℕ) where
  abbrev pub Song : Type 0
  Song = Transcoder (codecs platform params)

  -- What the end of the encoding puts, at the time `now`.
  abbrev pub put : Cache → Text → ℕ → ℕ → Cache
  put c filename filesize mtime =
      put_filesize sorter stat params.statcachesize others c filename filesize mtime now

  -- The lookup of the second `open`, at the time `later`.
  abbrev pub lookup : Cache → Text → ℕ → Cache × Option ℕ
  lookup c filename mtime = get_filesize c filename mtime later

  abbrev pub first_open : Song → Song × Bool
  first_open = open_ (codecs platform params) first_lookup put params.desttype params.statcachesize

  abbrev pub second_open : Song → Song × Bool
  second_open = open_ (codecs platform params) lookup put params.desttype params.statcachesize

  abbrev pub reads_of : ℕ → Song → List (ℕ × ℕ) → Option (Song × List Result)
  reads_of = session (codecs platform params) first_lookup put params.desttype params.statcachesize

  abbrev pub date : AnyDecoder platform params → ℕ
  date = mtime_of platform params

  lookup-put :
      (c : Cache) (filename : Text) (filesize mtime mtime' : ℕ)
      → length c < params.statcachesize
      → ((old : FileStat) → find filename c ≡ some old → signed_leb old.mtime mtime ≡ true)
      → signed_leb mtime' mtime ≡ true
      → (lookup (put c filename filesize mtime) filename mtime').1 ≡ some filesize
  unfolding put_filesize
  lookup-put c filename filesize mtime mtime' room fresh no_newer =
      let s : FileStat = record { size = filesize; atime = now; mtime = mtime } in
      let found =
        get_filesize-store c filename filesize mtime now mtime' later
          (newer-fresh (find filename c) s fresh) no_newer in
      ground (arith, length-store-le c filename filesize mtime now, found)

  -- The cache that the reads leave, where they have ended the encoding.
  ended-cache :
      (t t' : Song) (d : AnyDecoder platform params) (fuel : ℕ) (requests : List (ℕ × ℕ))
      (results : List Result)
      → t.decoder ≡ some d
      → ((e : (codecs platform params).Encoder) × (t.encoder ≡ some e))
      → reads_of fuel t requests ≡ some (t', results)
      → t'.encoder ≡ none
      → size t'.buffer ≢ 0
      → 0 < params.statcachesize
      → t'.stats_cache ≡ put t.stats_cache t.filename (size t'.buffer) (date d)
  ended-cache t t' d fuel requests results decodes encodes h over some_size caching =
      elim (session-IsOnTheWay (codecs platform params) first_lookup put params.desttype
        params.statcachesize (frame_of-mtime platform params) t.filename (date d) t.stats_cache fuel
        t t' requests results (inl ((d, decodes, refl), encodes, refl, refl)) h) [
          | inl (_, (e, going), _, _) ↦ absurd (ground (arith, going, over))
          | inr (inl (_, (e, going))) ↦ absurd (ground (arith, going, over))
          | inr (inr (_, _, kept)) ↦ ground (arith, kept)
        ]

  -- With a cache of sizes that has room for one more: a file is opened, and reads encode it to its
  -- end, to a size that is not 0. Where the cache had no size of a newer file under its name, the
  -- next `open` that succeeds, of a file no newer, opens it with the size that the encoding has
  -- reached.
  pub open-session-open :
      (filename : Text) (cache : Cache) (t t' again : Song) (d d' : AnyDecoder platform params)
      (fuel : ℕ) (requests : List (ℕ × ℕ)) (results : List Result)
      → first_open (Transcoder.new (codecs platform params) filename cache) ≡ (t, true)
      → t.decoder ≡ some d
      → length t.stats_cache < params.statcachesize
      → ((old : FileStat)
          → find filename t.stats_cache ≡ some old
          → signed_leb old.mtime (date d) ≡ true)
      → reads_of fuel t requests ≡ some (t', results)
      → t'.encoder ≡ none
      → size t'.buffer ≢ 0
      → second_open (Transcoder.new (codecs platform params) filename t'.stats_cache)
        ≡ (again, true)
      → again.decoder ≡ some d'
      → signed_leb (date d') (date d) ≡ true
      → size again.buffer ≡ size t'.buffer
  unfolding Transcoder.new
  open-session-open filename cache t t' again d d' fuel requests results h decodes room fresh reads
        over some_size h' decodes' no_newer =
      let o =
        open_-IsOpened (codecs platform params) first_lookup put params.desttype
          params.statcachesize _ t h in
      let o' =
        open_-IsOpened (codecs platform params) lookup put params.desttype params.statcachesize _
          again h' in
      let left =
        ended-cache t t' d fuel requests results decodes (o.encoder, o.encodes) reads over some_size
          (omega arith) in
      let found =
        lookup-put t.stats_cache filename (size t'.buffer) (date d) (date d') room fresh no_newer in
      let same_decoder : o'.decoder ≡ d' = ground (arith, o'.decodes, decodes') in
      let sized : o'.file_size ≡ size t'.buffer =
        ground (arith, o'.looked, left, o.renamed, same_decoder, found) in
      let rendered =
        render_tag-size platform.lame platform.id3 params o'.first o'.encoder o'.file_size
          again.buffer (ground (arith, sized)) (ground (arith, sized, size-word t'.buffer))
          o'.rendered in
      rendered ∙ sized
