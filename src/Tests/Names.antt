-- ===== src/Tests/Names.antt =====
-- src/path.cc and src/fuseops.cc on a directory with two files, mounted as MP3.
use mp3fs.Prelude.{
  ◌≡◌, ◌≢◌, refl, inl, inr, true, List, [], ◌∷◌, ◌++◌, Option, some, arith, Text, text_eq, codes,
  Lacks,
}
use mp3fs.Coders.{Build, create_decoder, tolower}
use mp3fs.FilePath.{FilePath, has_decoder, convert_extension, normal_source, transcode_source}
use mp3fs.FilePath.Names.{transcode_source-listed, transcode_source_shadowed}
use mp3fs.FilePath.Sources.{Among, IsCandidate}

abbrev all_codecs : Build
all_codecs = record { have_mp3 = true; have_flac = true; have_vorbis = true }

abbrev song : FilePath
song = record { relative_path = codes "/a.mp3" }

abbrev mix : Text
mix = codes "a.b.ogg"

abbrev listing : List Text
listing = mix ∷ codes "a.ogg" ∷ []

abbrev opendir : Text → Option (List Text)
opendir _ = some listing

ogg-has_decoder : has_decoder all_codecs (codes "ogg") ≡ true
unfolding has_decoder create_decoder tolower text_eq
ogg-has_decoder = refl

mp3_dot : Lacks b'.' (codes "mp3")
mp3_dot = omega arith

mp3_slash : Lacks b'/' (codes "mp3")
mp3_slash = omega arith

a_slash : Lacks b'/' (codes "a")
a_slash = omega arith

ogg_dot : Lacks b'.' (codes "ogg")
ogg_dot = omega arith

is_path : normal_source (codes "m") song ≡ codes "m" ++ b'/' ∷ (codes "a" ++ b'.' ∷ codes "mp3")
unfolding normal_source
is_path = refl

transcode_source-listed_example :
    (m : Text) × (transcode_source all_codecs (codes "m") (codes "mp3") opendir song
      ≡ some (codes "m" ++ b'/' ∷ m))
    × Among m listing
    × IsCandidate all_codecs (codes "a") m
transcode_source-listed_example =
    transcode_source-listed all_codecs (codes "m") (codes "mp3") (codes "m") (codes "a") opendir
      song listing is_path mp3_dot mp3_slash a_slash (omega arith) refl (codes "ogg") ogg_dot
      ogg-has_decoder (omega arith, (omega arith, tt)) (inr (inl refl))

transcode_source_shadowed_example :
    (transcode_source all_codecs (codes "m") (codes "mp3") opendir song
      ≡ some (codes "m" ++ b'/' ∷ (codes "a" ++ b'.' ∷ (codes "b" ++ b'.' ∷ codes "ogg"))))
    × (convert_extension all_codecs
          (codes "mp3")
          (codes "a" ++ b'.' ∷ (codes "b" ++ b'.' ∷ codes "ogg"))
        ≢ codes "a" ++ b'.' ∷ codes "mp3")
transcode_source_shadowed_example =
    transcode_source_shadowed all_codecs (codes "m") (codes "mp3") (codes "m") (codes "a") opendir
      song listing is_path mp3_dot mp3_slash a_slash (omega arith) refl (codes "ogg") ogg_dot
      ogg-has_decoder (codes "b") (codes "a.ogg" ∷ []) (omega arith) refl
