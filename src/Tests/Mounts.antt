-- ===== src/Tests/Mounts.antt =====
-- src/fuseops.cc on a directory with one Ogg file and a dangling name, and codecs that count frames.
use mp3fs.Prelude.{
  List, subst, sym, ◌≡◌, refl, inl, true, [], ◌∷◌, ◌++◌, some, arith, ◌==◌, if◌then◌else◌, Text,
  text_eq, codes, Lacks, rfind, starts_with,
}
use mp3fs.StatsCache.{Cache}
use mp3fs.Coders.{Build, create_decoder, tolower}
use mp3fs.FilePath.{
  FilePath, has_decoder, normal_source, is_source, convert_extension, transcode_source, search_dir,
  first_source,
}
use mp3fs.FilePath.Sources.{Among, IsCandidate}
use mp3fs.FuseOps.{
  Answered, success, failure, Stat, System, source_of, shown_name, mp3fs_readlink, mp3fs_readdir,
  Reader, transcoder, open_transcoder, mp3fs_getattr, mp3fs_open,
}
use mp3fs.FuseOps.Opening.{Agree, mp3fs_getattr-Agree}
use mp3fs.FuseOps.Listing.{add_entry, AreShown, mp3fs_readdir_lem, mp3fs_open-listed}
use mp3fs.Tests.Codecs.{counting, no_lookup, no_put}

abbrev plain : Stat
plain = record { st_mode = 1; st_size = 5000; st_blocks = 10 }

abbrev examine : Text → Answered Stat
examine name = if text_eq name (codes "m/a.ogg") then success plain else failure 2

abbrev pub disk : System
disk = record {
  Statvfs = Unit {0};
  lstat = examine;
  opendir = λ _. success (codes "a.ogg" ∷ codes "gone" ∷ []);
  readlink = λ _ _. success (codes "b.ogg");
  open_fd = λ _ _. failure 2;
  pread = λ _ _ _. success [];
  statvfs = λ _. success tt;
  s_isreg = λ mode. mode == 1;
  s_islnk = λ mode. mode == 2;
  enoent = 2;
  eio_number = 5;
  ebadf = 9;
  name_size = 256;
}

abbrev pub all_codecs : Build
all_codecs = record { have_mp3 = true; have_flac = true; have_vorbis = true }

abbrev pub song : FilePath
song = record { relative_path = codes "/a.mp3" }

abbrev top : FilePath
top = record { relative_path = [] }

song_source : source_of disk all_codecs (codes "m") (codes "mp3") song ≡ some (codes "m/a.ogg")
unfolding transcode_source normal_source search_dir first_source is_source has_decoder
    create_decoder tolower rfind starts_with text_eq
song_source = refl

song_link :
    mp3fs_readlink disk all_codecs (codes "m") (codes "mp3") song 6 ≡ some (success (codes "b.mp3"))
unfolding mp3fs_readlink transcode_source normal_source search_dir first_source is_source
    has_decoder create_decoder tolower rfind starts_with text_eq convert_extension
song_link = refl

song_absent : examine (normal_source (codes "m") song) ≡ failure 2
unfolding normal_source text_eq
song_absent = refl

ogg_there : examine (codes "m/a.ogg") ≡ success plain
unfolding text_eq
ogg_there = refl

mp3fs_getattr-Agree_example :
    (cache' : Cache) × (a : Answered Stat) × (r : Answered
      (Reader disk all_codecs (codes "m") (codes "mp3") counting no_lookup no_put 0))
    × (mp3fs_getattr disk all_codecs (codes "m") (codes "mp3") counting no_lookup no_put 0 song []
        ≡ some (cache', a))
    × (mp3fs_open disk all_codecs (codes "m") (codes "mp3") counting no_lookup no_put 0 song 0 []
        ≡ some (cache', r))
    × Agree disk all_codecs (codes "m") (codes "mp3") counting no_lookup no_put 0 a r
mp3fs_getattr-Agree_example =
    mp3fs_getattr-Agree disk all_codecs (codes "m") (codes "mp3") counting no_lookup no_put 0 song 0
      2 (codes "m/a.ogg") plain [] song_absent refl song_source ogg_there refl

gone_absent : examine (codes "m" ++ (codes "/" ++ codes "gone")) ≡ failure 2
unfolding text_eq
gone_absent = refl

top_source : normal_source (codes "m") top ≡ codes "m"
unfolding normal_source
top_source = refl

mp3fs_readdir_lem_example :
    (entries : List (Text × Stat)) × (mp3fs_readdir disk all_codecs
        (codes "m")
        (codes "mp3")
        add_entry
        top
        []
      ≡ (entries, failure 2))
    × AreShown disk all_codecs (codes "m") (codes "mp3") (codes "a.ogg" ∷ []) (plain ∷ []) entries
mp3fs_readdir_lem_example =
    mp3fs_readdir_lem disk all_codecs (codes "m") (codes "mp3") top (codes "a.ogg" ∷ [])
      (codes "gone" ∷ []) (plain ∷ []) (failure 2) refl
      (
        subst (λ (x : Text). examine (x ++ (codes "/" ++ codes "a.ogg")) ≡ success plain)
            (sym top_source) ogg_there,
        tt,
      )
      (
        2,
        subst (λ (x : Text). examine (x ++ (codes "/" ++ codes "gone")) ≡ failure 2)
            (sym top_source) gone_absent,
        refl,
      )
      (omega arith) (omega arith) (omega arith, tt)

ogg-has_decoder : has_decoder all_codecs (codes "ogg") ≡ true
unfolding has_decoder create_decoder tolower text_eq
ogg-has_decoder = refl

song_path :
    normal_source (codes "m") song
    ≡ codes "m"
      ++ b'/'
        ∷ shown_name disk all_codecs
            (codes "m")
            (codes "mp3")
            (codes "a" ++ b'.' ∷ codes "ogg")
            plain
unfolding normal_source shown_name convert_extension has_decoder create_decoder tolower rfind
    text_eq
song_path = refl

mp3_dot : Lacks b'.' (codes "mp3")
mp3_dot = omega arith

mp3_slash : Lacks b'/' (codes "mp3")
mp3_slash = omega arith

a_slash : Lacks b'/' (codes "a")
a_slash = omega arith

ogg_dot : Lacks b'.' (codes "ogg")
ogg_dot = omega arith

mp3fs_open-listed_example :
    (m : Text) × Among m (codes "a.ogg" ∷ codes "gone" ∷ [])
    × IsCandidate all_codecs (codes "a") m
    × (mp3fs_open disk all_codecs (codes "m") (codes "mp3") counting no_lookup no_put 0 song 0 []
        ≡ (let (trans, opened) =
              open_transcoder disk all_codecs
                (codes "m")
                (codes "mp3")
                counting
                no_lookup
                no_put
                0
                (codes "m" ++ b'/' ∷ m)
                [] in
            some (trans.stats_cache, if opened then success (transcoder trans) else failure 5)))
mp3fs_open-listed_example =
    mp3fs_open-listed disk all_codecs (codes "m") (codes "mp3") counting no_lookup no_put 0
      (codes "m") (codes "a") (codes "ogg") (codes "a.ogg" ∷ codes "gone" ∷ []) song plain 0 []
      mp3_dot mp3_slash a_slash ogg_dot (omega arith) (omega arith) (omega arith) ogg-has_decoder
      refl refl (omega arith, (omega arith, tt)) (inl refl) song_path refl
