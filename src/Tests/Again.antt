-- ===== src/Tests/Again.antt =====
-- src/transcode.cc and src/fuseops.cc: the FLAC file of two samples is encoded with a cache of sizes, and opened again.
use mp3fs.Prelude.{
  ◌≡◌, ◌≢◌, refl, true, [], ◌∷◌, none, some, arith, replicate, codes, text_eq, rfind, signed_leb,
}
use mp3fs.Params.{Params}
use mp3fs.Buffer.{
  truncate, size, invalid, tell, valid_bytes, max_valid_bytes, copy_into, write, write_end, resize,
}
use mp3fs.StatsCache.{FileStat, alone, put_filesize, store, find, get_filesize, assign}
use mp3fs.Transcoder
use mp3fs.Transcoder.{Result, got, wanted, round, after_frame, finish, finish_encoder, remember}
use mp3fs.Transcoder.Sessions.{session}
use mp3fs.Mp3Encoder.{
  encode_pcm_data, write_audio, encode_finish, write_end_of_file, close_file, write_vbr_tag,
  render_tag, final_size, calculate_size,
}
use mp3fs.Mp3Encoder.Tags
use mp3fs.Mp3Encoder.Tags.{set_stream_params}
use mp3fs.FlacDecoder
use mp3fs.FlacDecoder.{all_blocks, metadata_callback}
use mp3fs.Transcoder.{open_, open_encoder, read, loop, turn, deliver, get_size}
use mp3fs.Coders.{create_decoder, create_encoder}
use mp3fs.Program.Codecs.{
  finished_buffer, flac_file, frame_of, encode, make_decoder, make_encoder, open_any, metadata_of,
}
use mp3fs.FuseOps.{success, block_count, mp3fs_getattr}
use mp3fs.Program.Remembering.{lookup, put}
use mp3fs.Program.Telling.{mp3fs_getattr-encoded}
use mp3fs.Tests.FlacDisk.{there, flac_disk, song_absent, song_found, song_there}
use mp3fs.Tests.Mounts.{song}
use mp3fs.Tests.Codecs.{has_name}
use mp3fs.Tests.Caches.{sorter, unchanged}
use mp3fs.Tests.Songs.{opened_flac, next_sample, state_of}
use mp3fs.Program.Remembering.{Song, first_open, reads_of, second_open}
use mp3fs.Program.Codecs.{codecs}
use mp3fs.Tests.Codecs.{defaults, no_lookup}
use mp3fs.Tests.Programs.{toy}

abbrev cached : Params
cached = defaults 1 0

abbrev CachedSong : Type 0
CachedSong = Song toy cached no_lookup sorter unchanged alone 100 200

abbrev opened_song : CachedSong
opened_song = record {
  buffer = record { main_data = 1 ∷ 2 ∷ []; end_data = 7 ∷ replicate 127 0; end_offset = 837 };
  filename = codes "m/a.flac";
  encoder = some (record {
    lame_encoder = tt;
    id3tag =
        (codes "TLEN", codes "0")
        ∷ (codes "TLEN", [])
        ∷ (codes "TSSE", codes "mp3fs")
        ∷ (codes "TSSE", [])
        ∷ [];
    id3size = 2;
  });
  decoder = some (flac_file opened_flac);
  stats_cache = [];
}

opened_song_opens :
    first_open toy cached no_lookup sorter unchanged alone 100 200
      (Transcoder.new (codecs toy cached) (codes "m/a.flac") [])
    ≡ (opened_song, true)
unfolding Transcoder.new open_ open_encoder make_decoder create_decoder make_encoder create_encoder
    rfind text_eq open_any FlacDecoder.open_file metadata_of FlacDecoder.process_metadata all_blocks
    metadata_callback set_stream_params render_tag final_size calculate_size write_end Tags.new
    has_name write resize
opened_song_opens = refl

-- 133 bytes, and no gap.
abbrev encoded : CachedSong
encoded = record {
  buffer = record {
    main_data = 1 ∷ 2 ∷ 5 ∷ 5 ∷ 6 ∷ [];
    end_data = 7 ∷ replicate 127 0;
    end_offset = 5;
  };
  filename = codes "m/a.flac";
  encoder = none;
  decoder = none;
  stats_cache = (codes "m/a.flac", record { size = 133; atime = 100; mtime = 10 }) ∷ [];
}

song_encoded :
    reads_of toy cached no_lookup sorter unchanged alone 100 200 4 opened_song ((800, 10) ∷ [])
    ≡ some (encoded, got invalid 0 ∷ [])
unfolding session read loop turn deliver get_size wanted round after_frame finish finish_encoder
    remember frame_of FlacDecoder.process_single_fr FlacDecoder.deliver_frame
    FlacDecoder.write_callback encode encode_pcm_data write_audio write encode_finish
    write_end_of_file close_file write_vbr_tag put_filesize store find size tell valid_bytes
    max_valid_bytes copy_into text_eq next_sample state_of truncate finished_buffer
song_encoded = refl

song_sized : size encoded.buffer ≢ 0
unfolding size
song_sized = omega arith

abbrev reopened : CachedSong
reopened = record opened_song {
  buffer = record { main_data = 1 ∷ 2 ∷ []; end_data = 7 ∷ replicate 127 0; end_offset = 5 };
  stats_cache = (codes "m/a.flac", record { size = 133; atime = 200; mtime = 10 }) ∷ [];
}

song_reopens :
    second_open toy cached no_lookup sorter unchanged alone 100 200
      (Transcoder.new (codecs toy cached) (codes "m/a.flac") encoded.stats_cache)
    ≡ (reopened, true)
unfolding Transcoder.new open_ open_encoder make_decoder create_decoder make_encoder create_encoder
    rfind text_eq open_any FlacDecoder.open_file metadata_of FlacDecoder.process_metadata all_blocks
    metadata_callback set_stream_params render_tag final_size calculate_size write_end Tags.new
    has_name write resize get_filesize find assign
song_reopens = refl

nothing_known :
    (old : FileStat) → find (codes "m/a.flac") [] ≡ some old → signed_leb old.mtime 10 ≡ true
unfolding find
nothing_known old h = absurd (cc)

no_newer : signed_leb 10 10 ≡ true
no_newer = refl

mp3fs_getattr-encoded_example :
    mp3fs_getattr flac_disk toy.build
      (codes "m")
      (codes "mp3")
      (codecs toy cached)
      (lookup toy cached no_lookup sorter unchanged alone 100 200)
      (put toy cached no_lookup sorter unchanged alone 100 200)
      1
      song
      encoded.stats_cache
    ≡ some (
      reopened.stats_cache,
      success (record there {
        st_size = size encoded.buffer;
        st_blocks = block_count (size encoded.buffer);
      }),
    )
mp3fs_getattr-encoded_example =
    mp3fs_getattr-encoded flac_disk (codes "m") toy cached no_lookup sorter unchanged alone 100 200
      song (codes "m/a.flac") 2 there [] opened_song encoded reopened (flac_file opened_flac)
      (flac_file opened_flac) 4 ((800, 10) ∷ []) (got invalid 0 ∷ []) opened_song_opens refl
      (omega arith) nothing_known song_encoded refl song_sized song_reopens refl no_newer
      song_absent song_found song_there refl
