-- ===== src/Tests/FlacDisk.antt =====
-- src/fuseops.cc on a directory with one FLAC file.
use mp3fs.Prelude.{◌≡◌, refl, [], ◌∷◌, some, if◌then◌else◌, codes, text_eq, rfind, starts_with}
use mp3fs.FilePath.{
  normal_source, transcode_source, search_dir, first_source, is_source, has_decoder,
}
use mp3fs.Coders.{create_decoder, tolower}
use mp3fs.FuseOps.{System, Stat, success, failure, source_of}
use mp3fs.Tests.Mounts.{disk, all_codecs, song}

abbrev pub there : Stat
there = record { st_mode = 1; st_size = 5000; st_blocks = 10 }

abbrev pub flac_disk : System
flac_disk = record disk {
  lstat = λ name. if text_eq name (codes "m/a.flac") then success there else failure 2;
  opendir = λ _. success (codes "a.flac" ∷ []);
}

pub song_absent : flac_disk.lstat (normal_source (codes "m") song) ≡ failure 2
unfolding normal_source text_eq
song_absent = refl

pub song_found :
    source_of flac_disk all_codecs (codes "m") (codes "mp3") song ≡ some (codes "m/a.flac")
unfolding transcode_source normal_source search_dir first_source is_source has_decoder
    create_decoder tolower rfind starts_with text_eq
song_found = refl

pub song_there : flac_disk.lstat (codes "m/a.flac") ≡ success there
unfolding text_eq
song_there = refl
