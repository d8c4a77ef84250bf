-- ===== src/FuseOps.antt =====
-- src/fuseops.cc and src/reader.h: the handlers of the file system. The operating system is a
-- parameter; an open file is either a plain one or a `Transcoder`.
pub mod Sizes
pub mod Listing
pub mod Shown
pub mod Opening
use mp3fs.Prelude.{
  ℕ, ◌+◌, ◌-◌, ◌*◌, ◌/◌, ◌%◌, ◌^◌, ◌≡◌, refl, ◌⊎◌, inl, inr, Bool, true, false, ◌&&◌, ◌||◌, not,
  List, [], ◌∷◌, ◌++◌, Option, none, some, ltb, ◌==◌, if◌then◌else◌, add64, sub64, half, word,
  length, take, Text, codes,
}
use mp3fs.Buffer.{Copy, copied}
use mp3fs.StatsCache.{Cache}
use mp3fs.Coders.{Build}
use mp3fs.FilePath.{FilePath, normal_source, transcode_source, convert_extension}
use mp3fs.Transcoder.{Codecs, Transcoder, Result, got, eio, new, open_, get_size, read}

-- What a call returns: a value, or -1 with this `errno`. A handler returns minus that number.
pub data Answered {ℓ} (A : Type ℓ) : Type ℓ where
  success : A → Answered A
  failure : ℕ → Answered A

pub Answered-cases {ℓ} :
    {A : Type ℓ} (a : Answered A) → ((x : A) × (a ≡ success x)) ⊎ ((e : ℕ) × (a ≡ failure e))
Answered-cases (success x) = inl (x, refl)
Answered-cases (failure e) = inr (e, refl)

-- `struct stat`, as far as the handlers read or write it.
pub record Stat : Type 0 where
  pub st_mode : ℕ
  pub st_size : ℕ
  pub st_blocks : ℕ

-- The calls of the system, on files that do not change meanwhile; the kinds of file that a mode
-- tells; numbers of `errno.h`; and `sizeof(de->d_name)`.
pub record System : Type 1 where
  pub Statvfs : Type 0
  pub lstat : Text → Answered Stat
  pub opendir : Text → Answered (List Text)
  pub readlink : Text → ℕ → Answered Text
  pub open_fd : Text → ℕ → Answered ℕ
  pub pread : ℕ → ℕ → ℕ → Answered Text
  pub statvfs : Text → Answered Statvfs
  pub s_isreg : ℕ → Bool
  pub s_islnk : ℕ → Bool
  pub enoent : ℕ
  pub eio_number : ℕ
  pub ebadf : ℕ
  pub name_size : ℕ

abbrev pub bytes_per_block : ℕ
bytes_per_block = 512

-- The division of a signed number by a positive one, on 64-bit patterns.
unfoldable pub signed_div : ℕ → ℕ → ℕ
signed_div a b = if ltb a half then a / b else sub64 0 ((word - a) / b)

unfoldable pub block_count : ℕ → ℕ
block_count st_size = signed_div (sub64 (add64 st_size bytes_per_block) 1) bytes_per_block

module _ (system : System) (build : Build) (basepath desttype : Text) where
  open system use {
    Statvfs, lstat, opendir, readlink, open_fd, pread, statvfs, s_isreg, s_islnk, enoent,
    eio_number, ebadf, name_size,
  }

  -- The directory as `transcode_source` reads it.
  abbrev pub directory : Text → Option (List Text)
  directory name = elim (opendir name) as (λ _. Option (List Text)) [
    | success names ↦ some names
    | failure e ↦ none
  ]

  -- The source of a path; `none` as for `transcode_source`.
  abbrev pub source_of : FilePath → Option Text
  source_of path = transcode_source build basepath desttype directory path

  -- The contents of `buf`, whose size is `size`.
  unfoldable pub mp3fs_readlink : FilePath → ℕ → Option (Answered Text)
  mp3fs_readlink path size = elim (source_of path) [
    | none ↦ none
    | some source ↦ elim (readlink source (sub64 size 2)) [
      | failure e ↦ some (failure e)
      | success link ↦ some (success (take (sub64 size 1) (convert_extension build desttype link)))
    ]
  ]

  -- The name that is listed for a file.
  unfoldable pub shown_name : Text → Stat → Text
  shown_name d_name st =
      if s_isreg st.st_mode || s_islnk st.st_mode
      then take (sub64 name_size 1) (convert_extension build desttype d_name)
      else d_name

  -- `filler` adds an entry to the buffer of FUSE, or tells by true that it is to end.
  module _ {Filled : Type 0} (filler : Filled → Text → Stat → Filled × Bool) where
    -- The loop of `mp3fs_readdir`.
    unfoldable pub fill : Text → List Text → Filled → Filled × Answered (Unit {0})
    fill dir [] buf = (buf, success tt)
    fill dir (d_name ∷ names) buf = elim (lstat (dir ++ (codes "/" ++ d_name))) [
      | failure e ↦ (buf, failure e)
      | success st ↦
          let (buf', ended) = filler buf (shown_name d_name st) st in
          let rest = fill dir names buf' in if ended then (buf', success tt) else rest
    ]

    unfoldable pub mp3fs_readdir : FilePath → Filled → Filled × Answered (Unit {0})
    mp3fs_readdir path buf = elim (opendir (normal_source basepath path)) [
      | failure e ↦ (buf, failure e)
      | success names ↦ fill (normal_source basepath path) names buf
    ]

  unfoldable pub mp3fs_statfs : FilePath → Option (Answered Statvfs)
  mp3fs_statfs path = elim (statvfs (normal_source basepath path)) [
    | success st ↦ some (success st)
    | failure e ↦ elim (source_of path) [ none ↦ none | some source ↦ some (statvfs source) ]
  ]

  module _ (codecs : Codecs) (get_filesize : Cache → Text → ℕ → Cache × Option ℕ)
      (put_filesize : Cache → Text → ℕ → ℕ → Cache) (statcachesize : ℕ) where
    -- The classes derived from `Reader`.
    pub data Reader : Type 0 where
      file_reader : ℕ → Reader
      transcoder : Transcoder codecs → Reader

    -- A transcoder is made for the source and opened.
    unfoldable pub open_transcoder : Text → Cache → Transcoder codecs × Bool
    open_transcoder source cache =
        open_ codecs get_filesize put_filesize desttype statcachesize (new codecs source cache)

    -- The sizes of a file that is encoded.
    unfoldable pub encoded_stat : Text → Stat → Cache → Cache × Answered Stat
    unfolding open_transcoder
    encoded_stat source st cache =
        let (trans, opened) = open_transcoder source cache in
        if opened
        then (
          trans.stats_cache,
          success (record st {
            st_size = get_size codecs trans;
            st_blocks = block_count (get_size codecs trans);
          }),
        )
        else (trans.stats_cache, failure eio_number)

    unfoldable pub mp3fs_getattr : FilePath → Cache → Option (Cache × Answered Stat)
    mp3fs_getattr path cache = elim (lstat (normal_source basepath path)) [
      | success st ↦ some (cache, success st)
      | failure e ↦ elim (source_of path) [
        | none ↦ none
        | some source ↦ elim (lstat source) [
          | failure e' ↦ some (cache, failure e')
          | success st ↦
              if s_isreg st.st_mode
              then some (encoded_stat source st cache)
              else some (cache, success st)
        ]
      ]
    ]

    -- The file handle, or the error.
    unfoldable pub mp3fs_open : FilePath → ℕ → Cache → Option (Cache × Answered Reader)
    mp3fs_open path flags cache = elim (open_fd (normal_source basepath path) flags) [
      | success fd ↦ some (cache, success (file_reader fd))
      | failure e ↦ if not (e == enoent) then some (cache, failure e) else elim (source_of path) [
        | none ↦ none
        | some source ↦
            let (trans, opened) = open_transcoder source cache in
            some
              (trans.stats_cache, if opened then success (transcoder trans) else failure eio_number)
      ]
    ]

    -- What a read puts out, and what the handler returns: the count as an `int`, by its 32-bit
    -- pattern, or the error.
    unfoldable pub reply : Result → Answered (Copy × ℕ)
    reply (got out n) = success (out, n % 2 ^ 32)
    reply eio = failure eio_number

    -- `none`: the fuel of the loop has run out.
    unfoldable pub mp3fs_read :
        ℕ → Option Reader → ℕ → ℕ → Option (Option Reader × Answered (Copy × ℕ))
    unfolding reply
    mp3fs_read fuel none size offset = some (none, failure ebadf)
    mp3fs_read fuel (some (file_reader fd)) size offset = elim (pread fd size offset) [
      | success out ↦ some (some (file_reader fd), success (copied out, length out % 2 ^ 32))
      | failure e ↦ some (some (file_reader fd), failure e)
    ]
    mp3fs_read fuel (some (transcoder trans)) size offset =
        elim (read codecs get_filesize put_filesize desttype statcachesize fuel trans offset size) [
          | none ↦ none
          | some (trans', result) ↦ some (some (transcoder trans'), reply result)
        ]

    -- The descriptors that are closed.
    unfoldable pub mp3fs_release : Option Reader → List ℕ
    mp3fs_release none = []
    mp3fs_release (some (file_reader fd)) = fd ∷ []
    mp3fs_release (some (transcoder trans)) = []
