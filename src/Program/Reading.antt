-- ===== src/Program/Reading.antt =====
-- src/transcode.cc with the codecs of the program: a file is opened and read.
use mp3fs.Prelude.{
  ℕ, ◌+◌, ◌≤◌, ◌<◌, ◌≡◌, subst, inl, inr, Bool, true, List, Option, some, arith, half, word, add64,
  sub64, length, Text, Option-cases,
}
use mp3fs.Params.{Params}
use mp3fs.Buffer.{Buffer, init, resize, write_end, tell, size}
use mp3fs.Buffer.View.{IsValid}
use mp3fs.Buffer.Writes.{length-resize}
use mp3fs.StatsCache.{Cache}
use mp3fs.Mp3Encoder.{Lame, Id3, Mp3Encoder, buffer_slop, id3v1_tag_length, final_size, render_tag}
use mp3fs.Mp3Encoder.Size.{write_front}
use mp3fs.Transcoder
use mp3fs.Transcoder.{Transcoder, Result, open_, read}
use mp3fs.Transcoder.Loop.{IsReadable, rounds_left}
use mp3fs.Transcoder.Opening.{open_-IsOpened}
use mp3fs.Transcoder.Serves.{Answer, read-Answer}
use mp3fs.Transcoder.Sessions.{session, AreSmall, Serves, session-Serves}
use mp3fs.Program.Codecs.{Platform, codecs}
use mp3fs.Program.Lawful.{IsReliable, lawful, stable}

-- An end segment of 128 bytes at a 64-bit offset is in place where the size is large enough.
placed :
    (front end : List ℕ) (offset : ℕ)
    → length end ≡ id3v1_tag_length
    → offset < word
    → length front + id3v1_tag_length ≤ add64 offset (length end)
    → add64 offset (length end) < half
    → IsValid (record { main_data = front; end_data = end; end_offset = offset })
placed front end offset long bits fits small = (omega arith)

-- The tags are in place where they fit in the size.
render_tag-IsValid :
    (lame : Lame) (id3 : Id3) (params : Params) (e e' : Mp3Encoder lame id3 params) (file_size : ℕ)
    (b : Buffer)
    → render_tag lame id3 params e init file_size ≡ some (e', b)
    → tell b + id3v1_tag_length ≤ size b
    → size b < half
    → IsValid b
unfolding render_tag write_end tell size
render_tag-IsValid lame id3 params e e' file_size b h fits small =
    elim (Option-cases (
      final_size lame id3 params (record e { id3size = length (id3.render_v2 e.id3tag) })
        file_size)) [
          | inl lost ↦ absurd (ground arith)
          | inr (n, sized) ↦
              let front : List ℕ = id3.render_v2 e.id3tag in
              let end : List ℕ = resize id3v1_tag_length (id3.render_v1 e.id3tag) in
              let same : record {
                main_data = front;
                end_data = end;
                end_offset = sub64 n id3v1_tag_length;
              }
                  ≡ b =
                ground (arith, sized, write_front front) in
              subst (λ (x : Buffer). tell x + id3v1_tag_length ≤ size x → size x < half → IsValid x)
                same
                (placed front end (sub64 n id3v1_tag_length)
                  (length-resize id3v1_tag_length (id3.render_v1 e.id3tag)) (omega arith))
                fits small
        ]

module _ (platform : Platform) (params : Params) (libs : IsReliable platform)
    (get_filesize : Cache → Text → ℕ → Cache × Option ℕ)
    (put_filesize : Cache → Text → ℕ → ℕ → Cache) where
  abbrev pub File : Type 0
  File = Transcoder (codecs platform params)

  abbrev pub open_of : File → File × Bool
  open_of =
      open_ (codecs platform params) get_filesize put_filesize params.desttype params.statcachesize

  abbrev pub read_of : ℕ → File → ℕ → ℕ → Option (File × Result)
  read_of =
      read (codecs platform params) get_filesize put_filesize params.desttype params.statcachesize

  abbrev pub Readable : File → Type 0
  Readable =
      IsReadable (codecs platform params) (lawful platform params libs) get_filesize put_filesize
        params.desttype params.statcachesize

  abbrev pub rounds_of : File → ℕ
  rounds_of =
      rounds_left (codecs platform params) (lawful platform params libs) get_filesize put_filesize
        params.desttype params.statcachesize

  abbrev pub Answers : File → File → ℕ → ℕ → Result → Type 0
  Answers =
      Answer (codecs platform params) (lawful platform params libs) get_filesize put_filesize
        params.desttype params.statcachesize

  pub open_of-Readable :
      (filename : Text) (cache : Cache) (t : File)
      → open_of (Transcoder.new (codecs platform params) filename cache) ≡ (t, true)
      → tell t.buffer + id3v1_tag_length ≤ size t.buffer
      → size t.buffer + buffer_slop < half
      → Readable t
  unfolding Transcoder.new
  open_of-Readable filename cache t h fits small =
      let o =
        open_-IsOpened (codecs platform params) get_filesize put_filesize params.desttype
          params.statcachesize _ t h in
      inr (
        (
          render_tag-IsValid platform.lame platform.id3 params o.first o.encoder o.file_size
              t.buffer o.rendered fits (omega arith),
          small,
        ),
        (o.decoder, o.decodes),
        (o.encoder, o.encodes),
      )

  -- At a constant bit rate, where no VBR tag data is written, on libraries that read a finite number
  -- of frames and fill no more than the buffers that they are given, with a cache of sizes or
  -- without: a file that is opened without an error, whose tags
  -- fit in the size that it then has and whose size leaves room for one more flush, is read as it
  -- should be. A `read` below 2 ^ 63, with more fuel than frames are left, returns the bytes of the
  -- file that it leaves, or -1 after a failure of the codecs.
  pub open-read-Answer :
      (filename : Text) (cache : Cache) (t : File) (fuel offset len : ℕ)
      → params.vbr ≡ 0
      → open_of (Transcoder.new (codecs platform params) filename cache) ≡ (t, true)
      → tell t.buffer + id3v1_tag_length ≤ size t.buffer
      → size t.buffer + buffer_slop < half
      → offset + len < half
      → rounds_of t < fuel
      → (t' : File) × (r : Result) × (read_of fuel t offset len ≡ some (t', r))
        × Answers t t' offset len r
  open-read-Answer filename cache t fuel offset len cbr h fits small range enough =
      read-Answer (codecs platform params) (lawful platform params libs) get_filesize put_filesize
        params.desttype params.statcachesize fuel t offset len
        (open_of-Readable filename cache t h fits small) range enough

  abbrev session_of : ℕ → File → List (ℕ × ℕ) → Option (File × List Result)
  session_of =
      session (codecs platform params) get_filesize put_filesize params.desttype
        params.statcachesize

  module _ (cbr : params.vbr ≡ 0) (uncached : params.statcachesize ≡ 0) where
    abbrev Served : File → Buffer → List (ℕ × ℕ) → List Result → Type 0
    Served =
        Serves (codecs platform params) (lawful platform params libs)
          (stable platform params libs cbr uncached) get_filesize put_filesize params.desttype
          params.statcachesize

    -- With no cache of sizes, at a constant bit rate, and on libraries that read a finite number of
    -- frames and fill no more than the buffers that they are given: a file that is opened without
    -- an error, whose tags fit in the size that it then has and whose size leaves room for one more
    -- flush, is one file of bytes of that size. Any reads of it, below 2 ^ 63 and with more fuel
    -- than frames are left, return, and each gives its part of that file, cut short by its end only.
    -- The last of them may return -1 instead, where rounds lead to a failure of the codecs.
    open-session-Serves :
        (filename : Text) (cache : Cache) (t : File) (fuel : ℕ) (requests : List (ℕ × ℕ))
        → open_of (Transcoder.new (codecs platform params) filename cache) ≡ (t, true)
        → tell t.buffer + id3v1_tag_length ≤ size t.buffer
        → size t.buffer + buffer_slop < half
        → AreSmall requests
        → rounds_of t < fuel
        → (t' : File) × (results : List Result) × (session_of fuel t requests ≡ some (t', results))
          × (size t'.buffer ≡ size t.buffer)
          × Served t t'.buffer requests results
    open-session-Serves filename cache t fuel requests h fits small all_small enough =
        session-Serves (codecs platform params) (lawful platform params libs)
          (stable platform params libs cbr uncached) get_filesize put_filesize params.desttype
          params.statcachesize fuel t requests (open_of-Readable filename cache t h fits small)
          all_small enough
