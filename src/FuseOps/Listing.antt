-- ===== src/FuseOps/Listing.antt =====
-- src/fuseops.cc: the listing of a directory, and opening what is listed.
use mathlib.Core.List.{append_assoc, append-nil}
use mp3fs.Prelude.{
  ℕ, ◌+◌, ◌^◌, ◌<◌, ◌≡◌, ap, sym, ◌∙◌, Bool, true, false, List, [], ◌∷◌, ◌++◌, Option, some, arith,
  refl, if◌then◌else◌, word, length, Text, codes, Lacks,
}
use mp3fs.StatsCache.{Cache}
use mp3fs.Coders.{Build}
use mp3fs.FilePath.{FilePath, normal_source, has_decoder}
use mp3fs.FilePath.Names.{transcode_source-listed}
use mp3fs.FilePath.Sources.{Among, AreShort, IsCandidate}
use mp3fs.Transcoder.{Codecs}
use mp3fs.FuseOps.{
  Answered, success, failure, Stat, System, directory, shown_name, fill, mp3fs_readdir,
  open_transcoder, transcoder, mp3fs_open,
}
use mp3fs.FuseOps.Shown.{IsShown, shown_name-IsShown, shown_name-decoder}

-- A filler that has room for every entry.
abbrev pub add_entry : List (Text × Stat) → Text → Stat → List (Text × Stat) × Bool
add_entry listed name st = (listed ++ ((name, st) ∷ []), false)

module _ (system : System) (build : Build) (basepath desttype : Text) where
  open system use {lstat, opendir, open_fd, s_isreg, s_islnk, enoent, eio_number, name_size}

  -- Each file has these data.
  abbrev pub HaveStats : Text → List Text → List Stat → Type 0
  HaveStats dir [] [] = Unit
  HaveStats dir (n ∷ names) (st ∷ stats) =
      (lstat (dir ++ (codes "/" ++ n)) ≡ success st) × HaveStats dir names stats
  HaveStats _ _ _ = ⊥

  -- The entries for these files.
  abbrev pub AreShown : List Text → List Stat → List (Text × Stat) → Type 0
  AreShown (n ∷ names) (st ∷ stats) ((name, st') ∷ entries) =
      IsShown system build basepath desttype n st name × (st' ≡ st) × AreShown names stats entries
  AreShown [] [] [] = Unit
  AreShown _ _ _ = ⊥

  abbrev shown : List Text → List Stat → List (Text × Stat)
  shown (n ∷ names) (st ∷ stats) =
      (shown_name system build basepath desttype n st, st) ∷ shown names stats
  shown _ _ = []

  shown-AreShown :
      (dir : Text) (names : List Text) (stats : List Stat)
      → 0 < name_size
      → name_size < word
      → AreShort names
      → HaveStats dir names stats
      → AreShown names stats (shown names stats)
  shown-AreShown dir [] [] some_size bits short h = tt
  shown-AreShown dir [] (st ∷ stats) some_size bits short h = absurd h
  shown-AreShown dir (n ∷ names) [] some_size bits short h = absurd h
  shown-AreShown dir (n ∷ names) (st ∷ stats) some_size bits (low, short) (there, h) = (
    shown_name-IsShown system build basepath desttype n st some_size bits low,
    refl,
    shown-AreShown dir names stats some_size bits short h,
  )

  fill_step :
      (dir n : Text) (names : List Text) (st : Stat) (listed : List (Text × Stat))
      → lstat (dir ++ (codes "/" ++ n)) ≡ success st
      → fill system build basepath desttype add_entry dir (n ∷ names) listed
        ≡ fill system build basepath desttype add_entry dir names
            (listed ++ ((shown_name system build basepath desttype n st, st) ∷ []))
  unfolding fill
  fill_step dir n names st listed h = ground arith

  fill-append :
      (dir : Text) (names rest : List Text) (stats : List Stat) (listed : List (Text × Stat))
      → HaveStats dir names stats
      → fill system build basepath desttype add_entry dir (names ++ rest) listed
        ≡ fill system build basepath desttype add_entry dir rest (listed ++ shown names stats)
  fill-append dir [] rest [] listed h =
      ap (fill system build basepath desttype add_entry dir rest) (sym (append-nil listed))
  fill-append dir [] rest (st ∷ stats) listed h = absurd h
  fill-append dir (n ∷ names) rest [] listed h = absurd h
  fill-append dir (n ∷ names) rest (st ∷ stats) listed h =
      fill_step dir n (names ++ rest) st listed h.0
      ∙ (fill-append dir names rest stats _ h.1
          ∙ ap (fill system build basepath desttype add_entry dir rest) (
              append_assoc listed ((shown_name system build basepath desttype n st, st) ∷ [])
                (shown names stats)))

  -- The rest of the names is empty, or starts with a file that cannot be examined.
  abbrev pub Ends : Text → List Text → Answered (Unit {0}) → Type 0
  Ends dir [] result = result ≡ success tt
  Ends dir (n ∷ rest) result =
      (e : ℕ) × (lstat (dir ++ (codes "/" ++ n)) ≡ failure e) × (result ≡ failure e)

  fill-Ends :
      (dir : Text) (rest : List Text) (listed : List (Text × Stat)) (result : Answered (Unit {0}))
      → Ends dir rest result
      → fill system build basepath desttype add_entry dir rest listed ≡ (listed, result)
  unfolding fill
  fill-Ends dir [] listed result h = ap (λ (r : Answered (Unit {0})). (listed, r)) (sym h)
  fill-Ends dir (n ∷ rest) listed result (e, broken, same) = ground arith

  readdir_opened :
      (path : FilePath) (names : List Text)
      → opendir (normal_source basepath path) ≡ success names
      → mp3fs_readdir system build basepath desttype add_entry path []
        ≡ fill system build basepath desttype add_entry (normal_source basepath path) names []
  unfolding mp3fs_readdir
  readdir_opened path names h = ground arith

  -- With a buffer that has room, and names that are shorter than 2 ^ 62, `readdir` lists the names of
  -- a directory in order: all of them, or those before the first file that cannot be examined, and
  -- then it returns the error. A plain file or a link whose extension has a decoder is listed with
  -- the target extension in its place, every other under its own name; the name of a file or a link
  -- is cut to the size of the buffer for it.
  pub mp3fs_readdir_lem :
      (path : FilePath) (names rest : List Text) (stats : List Stat) (result : Answered (Unit {0}))
      → opendir (normal_source basepath path) ≡ success (names ++ rest)
      → HaveStats (normal_source basepath path) names stats
      → Ends (normal_source basepath path) rest result
      → 0 < name_size
      → name_size < word
      → AreShort names
      → (entries : List (Text × Stat)) × (mp3fs_readdir system build basepath desttype add_entry
            path []
          ≡ (entries, result))
        × AreShown names stats entries
  mp3fs_readdir_lem path names rest stats result opened h ends some_size bits short = (
    shown names stats,
    readdir_opened path (names ++ rest) opened
        ∙ (fill-append _ names rest stats [] h ∙ fill-Ends _ rest _ result ends),
    shown-AreShown _ names stats some_size bits short h,
  )

  module _ (codecs : Codecs) (get_filesize : Cache → Text → ℕ → Cache × Option ℕ)
      (put_filesize : Cache → Text → ℕ → ℕ → Cache) (statcachesize : ℕ) where
    -- A plain file with a decoder for its extension, whose new name fits, is listed under a name
    -- that leads back to the directory: if the music directory has no file of that name itself,
    -- and the names of the directory are shorter than 2 ^ 62, `open` opens a transcoder for a file
    -- of the same directory whose name has the same stem and a dot in front and a decoder for what
    -- follows its last dot, and gives it or fails with EIO.
    pub mp3fs_open-listed :
        (dir stem ext : Text) (names : List Text) (path : FilePath) (st : Stat) (flags : ℕ)
        (cache : Cache)
        → Lacks b'.' desttype
        → Lacks b'/' desttype
        → Lacks b'/' stem
        → Lacks b'.' ext
        → length dir + length stem < 2 ^ 62
        → length stem + 1 + length desttype < name_size
        → name_size < word
        → has_decoder build ext ≡ true
        → s_isreg st.st_mode ≡ true
        → opendir dir ≡ success names
        → AreShort names
        → Among (stem ++ b'.' ∷ ext) names
        → normal_source basepath path
          ≡ dir ++ b'/' ∷ shown_name system build basepath desttype (stem ++ b'.' ∷ ext) st
        → open_fd (normal_source basepath path) flags ≡ failure enoent
        → (m : Text) × Among m names
          × IsCandidate build stem m
          × (mp3fs_open system build basepath desttype codecs get_filesize put_filesize
                statcachesize path flags cache
              ≡ (let (trans, opened) =
                    open_transcoder system build basepath desttype codecs get_filesize put_filesize
                      statcachesize
                      (dir ++ b'/' ∷ m)
                      cache in
                  some (
                    trans.stats_cache,
                    if opened then success (transcoder trans) else failure eio_number,
                  )))
    unfolding mp3fs_open
    mp3fs_open-listed dir stem ext names path st flags cache dot slash stem_slash ext_dot short fits
          name_bits dec regular there lengths among is_path missing =
        let listed_as =
          shown_name-decoder system build basepath desttype stem ext st ext_dot (omega arith) fits
            name_bits dec regular in
        let (m, e, j, s) =
          transcode_source-listed build basepath desttype dir stem
            (directory system build basepath desttype) path names
            (is_path ∙ ap (λ (x : Text). dir ++ b'/' ∷ x) listed_as) dot slash stem_slash short
            (ground (arith, there)) ext ext_dot dec lengths among in
        (m, j, s, ground (arith, missing, e))
