-- ===== src/Tests/Serving.antt =====
-- src/fuseops.cc with the codecs of the program: the FLAC file of two samples is opened and read.
use mp3fs.Prelude.{
  ◌+◌, ◌≤◌, ◌<◌, ◌≡◌, refl, List, [], ◌∷◌, none, some, arith, half, replicate, codes, text_eq,
  rfind, starts_with,
}
use mp3fs.Buffer.{Buffer, tell, size, write, write_end, resize}
use mp3fs.Mp3Encoder.{buffer_slop, id3v1_tag_length, render_tag, final_size, calculate_size}
use mp3fs.Mp3Encoder.Tags
use mp3fs.Mp3Encoder.Tags.{set_stream_params}
use mp3fs.FlacDecoder
use mp3fs.FlacDecoder.{all_blocks, metadata_callback}
use mp3fs.Coders.{create_decoder, create_encoder, tolower}
use mp3fs.FilePath.{
  normal_source, transcode_source, search_dir, first_source, is_source, has_decoder,
}
use mp3fs.Transcoder
use mp3fs.Transcoder.{open_, open_encoder}
use mp3fs.FuseOps.{success, transcoder, open_transcoder, mp3fs_open}
use mp3fs.Mount.{Call, Reply, getattr, opens, reads, releases, opened}
use mp3fs.Mount.Held.{requests_of, replies_of, touch, AreSmall}
use mp3fs.Program.Codecs.{flac_file, make_decoder, make_encoder, open_any, metadata_of}
use mp3fs.Program.Reading.{File}
use mp3fs.Program.Serving.{open_call, WorldOf, serve_calls, ServesOne, serve_all-opened}
use mp3fs.Tests.Codecs.{has_name, defaults, no_lookup, no_put}
use mp3fs.Tests.Songs.{opened_flac}
use mp3fs.Tests.Mounts.{song}
use mp3fs.Tests.Programs.{toy, toy_libs}
use mp3fs.Tests.FlacDisk.{flac_disk}

abbrev flac_song : File toy (defaults 0 0) toy_libs no_lookup no_put
flac_song = record {
  buffer = record { main_data = 1 ∷ 2 ∷ []; end_data = 7 ∷ replicate 127 0; end_offset = 837 };
  filename = codes "m/a.flac";
  encoder = some (record {
    lame_encoder = tt;
    id3tag =
        (codes "TLEN", codes "0")
        ∷ (codes "TLEN", [])
        ∷ (codes "TSSE", codes "mp3fs")
        ∷ (codes "TSSE", [])
        ∷ [];
    id3size = 2;
  });
  decoder = some (flac_file opened_flac);
  stats_cache = [];
}

-- No file is open.
abbrev mounted : WorldOf flac_disk (codes "m") toy (defaults 0 0) toy_libs no_lookup no_put
mounted = record { stats_cache = []; handles = λ _. none; fresh = 1 }

-- The file is read, opened once more and read by both numbers, before the first is closed.
abbrev calls : List Call
calls =
    reads 1 3 1
    ∷ opens song 0
    ∷ reads 2 4 800
    ∷ releases 2
    ∷ getattr song
    ∷ reads 1 9 3
    ∷ releases 1
    ∷ []

calls-AreSmall : AreSmall (requests_of 1 calls)
unfolding requests_of touch
calls-AreSmall = (omega arith, omega arith, (omega arith, omega arith, tt))

song_given :
    open_call flac_disk (codes "m") toy (defaults 0 0) toy_libs no_lookup no_put song 0 []
    ≡ some ([], success (transcoder flac_song))
unfolding mp3fs_open open_transcoder transcode_source normal_source search_dir first_source
    is_source has_decoder create_decoder tolower rfind starts_with text_eq Transcoder.new open_
    open_encoder make_decoder make_encoder create_encoder open_any FlacDecoder.open_file metadata_of
    FlacDecoder.process_metadata all_blocks metadata_callback set_stream_params render_tag
    final_size calculate_size write_end Tags.new has_name write resize
song_given = refl

song_fits : tell flac_song.buffer + id3v1_tag_length ≤ size flac_song.buffer
unfolding tell size
song_fits = omega arith

song_small : size flac_song.buffer + buffer_slop < half
unfolding size
song_small = omega arith

serve_all-opened_example :
    (replies : List Reply) × (b : Buffer) × ((serve_calls flac_disk
        (codes "m")
        toy
        (defaults 0 0)
        toy_libs
        no_lookup
        no_put
        4
        mounted
        (opens song 0 ∷ calls)).1
      ≡ opened (success 1) ∷ replies)
    × (size b ≡ size flac_song.buffer)
    × ServesOne flac_disk
        (codes "m")
        toy
        (defaults 0 0)
        toy_libs
        no_lookup
        no_put
        refl
        refl
        flac_song
        b
        (requests_of 1 calls)
        (replies_of 1 calls replies)
serve_all-opened_example =
    serve_all-opened flac_disk (codes "m") toy (defaults 0 0) toy_libs no_lookup no_put refl refl 4
      mounted song 0 [] flac_song calls song_given song_fits song_small calls-AreSmall (omega arith)
