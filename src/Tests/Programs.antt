-- ===== src/Tests/Programs.antt =====
-- src/transcode.cc with the codecs of the program: a FLAC file of two samples.
use mp3fs.Prelude.{
  length-take, Option, take, ℕ, zero, suc, ◌+◌, ◌≤◌, ◌<◌, ◌≡◌, refl, true, List, [], ◌∷◌, none,
  some, arith, half, length, replicate, text_eq, rfind, codes,
}
use mp3fs.Buffer.{tell, size, write, write_end, resize}
use mp3fs.Mp3Encoder.{buffer_slop, id3v1_tag_length, render_tag, final_size, calculate_size}
use mp3fs.Mp3Encoder.Tags
use mp3fs.Mp3Encoder.Tags.{set_stream_params}
use mp3fs.FlacDecoder
use mp3fs.FlacDecoder.{all_blocks, metadata_callback}
use mp3fs.VorbisDecoder.{got_bytes}
use mp3fs.VorbisDecoder.Comments.{Vorbis}
use mp3fs.Transcoder
use mp3fs.Transcoder.{Result, open_, open_encoder}
use mp3fs.Coders.{create_decoder, create_encoder}
use mp3fs.Program.Codecs.{
  Platform, flac_file, codecs, make_decoder, make_encoder, open_any, metadata_of,
}
use mp3fs.Program.Lawful.{IsReliable}
use mp3fs.Program.Reading.{File, open_of, read_of, Answers, open-read-Answer}
use mp3fs.Tests.Codecs.{has_name, one_byte, no_tags, defaults, no_lookup, no_put}
use mp3fs.Tests.Pictures.{whole_decibels}
use mp3fs.Tests.Songs.{two_samples, opened_flac, state_of, next_sample}

-- A libvorbisfile that opens nothing.
abbrev pub no_vorbis : Vorbis
no_vorbis = record {
  Stream = Unit {0};
  open_stream = λ _. none;
  ov_info = λ _. none;
  ov_pcm_total = λ _. 0;
  ov_comment = λ _. none;
  ov_read = λ s. (s, [], got_bytes 0);
}

abbrev pub toy : Platform
toy = record {
  build = record { have_mp3 = true; have_flac = true; have_vorbis = true };
  lame = one_byte;
  id3 = no_tags;
  flac = two_samples;
  vorbis = no_vorbis;
  doubles = whole_decibels;
  strtod = length;
  amplitude = λ x. x;
  base64_decode = some;
  widen = λ _. 89;
  package_name = codes "mp3fs";
}

pub flac_taken : (s : ℕ) → state_of s < 4 → (next_sample s).2 ≡ true → (next_sample s).0 < s
unfolding state_of next_sample
flac_taken zero h fine = omega arith
flac_taken (suc n) h fine = omega arith

pub nothing_taken : (n : ℕ) → got_bytes 0 ≡ got_bytes n → 2 ≤ n → 0 < 0
nothing_taken n same h = absurd (ground arith)

pub one_flushed :
    (size : ℕ) (bytes : List ℕ)
    → ◌≡◌ {A = Option (List ℕ)} (some (take size (6 ∷ []))) (some bytes)
    → length bytes ≤ size
one_flushed zero bytes out = ground arith
one_flushed (suc n) bytes out = ground (arith, length-take {A = ℕ} n [])

abbrev pub toy_libs : IsReliable toy
toy_libs = record {
  flac_frames = λ s. s;
  flac_lem = λ s h fine. flac_taken s h fine;
  vorbis_frames = λ _. 0;
  vorbis_lem = λ s n same h. nothing_taken n same h;
  flush_lem = λ s n bytes out. one_flushed n bytes out;
}

abbrev Song : Type 0
Song = File toy (defaults 0 0) toy_libs no_lookup no_put

-- The file right after it was opened.
abbrev song : Song
song = record {
  buffer = record { main_data = 1 ∷ 2 ∷ []; end_data = 7 ∷ replicate 127 0; end_offset = 837 };
  filename = codes "a.flac";
  encoder = some (record {
    lame_encoder = tt;
    id3tag =
        (codes "TLEN", codes "0")
        ∷ (codes "TLEN", [])
        ∷ (codes "TSSE", codes "mp3fs")
        ∷ (codes "TSSE", [])
        ∷ [];
    id3size = 2;
  });
  decoder = some (flac_file opened_flac);
  stats_cache = [];
}

song_opens :
    open_of toy
      (defaults 0 0)
      toy_libs
      no_lookup
      no_put
      (Transcoder.new (codecs toy (defaults 0 0)) (codes "a.flac") [])
    ≡ (song, true)
unfolding Transcoder.new open_ open_encoder make_decoder create_decoder make_encoder create_encoder
    rfind text_eq open_any FlacDecoder.open_file metadata_of FlacDecoder.process_metadata all_blocks
    metadata_callback set_stream_params render_tag final_size calculate_size write_end Tags.new
    has_name write resize
song_opens = refl

song_fits : tell song.buffer + id3v1_tag_length ≤ size song.buffer
unfolding tell size
song_fits = omega arith

song_small : size song.buffer + buffer_slop < half
unfolding size
song_small = omega arith

open-read-Answer_example :
    (t' : Song) × (r : Result) × (read_of toy (defaults 0 0) toy_libs no_lookup no_put 4 song 1 3
      ≡ some (t', r))
    × Answers toy (defaults 0 0) toy_libs no_lookup no_put song t' 1 3 r
open-read-Answer_example =
    open-read-Answer toy (defaults 0 0) toy_libs no_lookup no_put (codes "a.flac") [] song 4 1 3
      refl song_opens song_fits song_small (omega arith) (omega arith)
