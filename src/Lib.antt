-- ===== src/Lib.antt =====
-- mp3fs is a read-only FUSE filesystem that shows a music directory with its FLAC and Ogg Vorbis
-- files as MP3 files, and encodes a file while it is read.
--
-- A file of the mount is opened under its MP3 name; `Path` finds the file that it stands for, a
-- `Transcoder` opens it with a `Decoder` and an `Encoder`, and reads encode as many frames as they
-- need into a `Buffer`. The buffer has a segment that grows from the front of the file and one that
-- is fixed at its end, with the ID3v1 tag, so that the size is known from the opening on; it comes
-- from an estimate or from the cache of sizes that earlier encodings left.
--
--   * Prelude: the names that the files share; Prelude/Tests, arithmetic of 64-bit words and
--     Boolean tests; Prelude/Lists, lists over the native numbers; Prelude/Texts and
--     Prelude/Search, `std::string` as the list of its bytes, with `rfind`.
--   * Buffer: src/buffer.h and src/buffer.cc, class `Buffer`. Buffer/View sees it as a file of which
--     some bytes are known, Buffer/Reads and Buffer/Writes state the operations of that view, and
--     Buffer/Keeps is about the operations that change no byte that is known.
--   * StatsCache: src/stats_cache.h and src/stats_cache.cc, class `StatsCache`. The map is a list of
--     entries; a locked section is a function on it, and `prune`, which takes the lock several
--     times, is given what other threads do before each lock. StatsCache/Map has the laws of the
--     map, StatsCache/Lookup those of `get_filesize` and of the locked part of `put_filesize`,
--     StatsCache/Oldest those of the second loop of `prune`, StatsCache/Prune and StatsCache/Lru
--     those of `prune`.
--   * Transcoder: src/transcode.h and src/transcode.cc, class `Transcoder`. The classes `Decoder` and
--     `Encoder` are an interface, `Codecs`, with the laws of Transcoder/Loop. The loop of `read` runs
--     on fuel; a round takes one frame, so more fuel than frames are left is enough.
--     Transcoder/Serves is about the bytes of one read, Transcoder/Stays about those that it leaves
--     as they are, Transcoder/Sessions about reads one after the other, Transcoder/Whole about
--     files that are encoded as a whole, Transcoder/Opening about `open`, Transcoder/Remembers about
--     the cache of sizes at the end of an encoding, Transcoder/Caching about the cache in every
--     call, and Transcoder/Arrivals about the order of the states that rounds lead to.
--   * Metadata: the tag numbers of src/codecs/coders.h, what a decoder asks of an encoder for the
--     tags, as the interface `TagEncoder`, and what the loops over the comments share.
--   * Mp3Encoder: src/codecs/mp3_encoder.h and src/codecs/mp3_encoder.cc, class `Mp3Encoder`; the
--     parameters `Lame` and `Id3` are LAME and libid3tag. Mp3Encoder itself is the part that writes to
--     the buffer, which Mp3Encoder/Size, Mp3Encoder/VbrTag and Mp3Encoder/Keeps are about. How
--     `encode_finish` ends is a `Finish`: with a length, with -1, by the exception of a vector that
--     is too long, or by a write outside the vector; the buffer stays with the first two.
--     Mp3Encoder/Tags is the constructor, the stream parameters, the tags and the gain.
--     Mp3Encoder/FrameTexts and Mp3Encoder/Numbers are about the track and disc numbers, with laws of
--     libid3tag: a text that is set is what is read back, and other frames stay. The division by a
--     sample rate of 0 is `none`; LAME has a rate once it has taken its parameters.
--   * FlacDecoder: src/codecs/flac_decoder.h and src/codecs/flac_decoder.cc, class `FlacDecoder`.
--     libFLAC is the parameter `Flac`: what it delivers is the argument of the callbacks, in order.
--   * VorbisDecoder: src/codecs/vorbis_decoder.h and src/codecs/vorbis_decoder.cc, class
--     `VorbisDecoder`; libvorbisfile is the parameter `Vorbis`. VorbisDecoder itself is the samples of
--     a frame, VorbisDecoder/Frames takes them from `ov_read`, and VorbisDecoder/Comments is `open_file`
--     and `process_metadata`. VorbisDecoder/Samples is about the samples of the channels,
--     VorbisDecoder/SameTags compares the tags with those of a FLAC file. A read outside the buffer
--     that `ov_read` fills is `failed`, which VorbisDecoder/Samples is about.
--   * Program: the decoders and the encoder that src/codecs/coders.cc creates, put behind `Codecs` by
--     Program/Codecs, for a `Platform`, the build and its libraries. Program/Holding and Program/Lawful
--     show what Transcoder/Loop and Transcoder/Stays ask for, where libFLAC and libvorbisfile read a
--     finite number of frames and LAME fills no more than its buffer. For the bytes to stay there
--     is no cache of sizes and no VBR: the end of an encoding then changes nothing that is known.
--     `Codecs` has no crash: there the exception and the write outside the vector stand with the
--     refusals, and the theorems on the bytes of a file ask for a constant bit rate.
--     Program/Reading opens and reads a file, Program/Serving does so among the calls for all files.
--     Program/Dates is about the modified time; Program/Remembering and Program/Telling encode a file
--     to its end and open it again, or ask for its size, with the cache of StatsCache.
--   * CommandLine: src/mp3fs.cc, the table of the options, what each does to the parameters, and the
--     checks of `main` in their order; what FUSE finds in the arguments is a list of events.
--     CommandLine/Arguments is about the order of the arguments, CommandLine/Mounting about when the
--     file system is mounted.
--   * Picture: src/codecs/picture.h and src/codecs/picture.cc, class `Picture`, in a monad that keeps
--     the cursor and tells a refusal from a read outside the data.
--   * Coders: src/codecs/coders.h and src/codecs/coders.cc, the choice of the codecs and of the gain;
--     the arithmetic of `double` is a parameter.
--   * FilePath: src/path.h and src/path.cc, class `Path`, and `convert_extension` of src/fuseops.cc.
--     FilePath/Sources is about one name of a directory, FilePath/Names about the path of a name.
--   * FuseOps: the handlers of src/fuseops.cc and the readers of src/reader.h, over the parameter
--     `System`, the calls of the operating system on files that do not change meanwhile.
--     FuseOps/Opening compares `getattr`, `open` and `read` of one file, FuseOps/Shown is about
--     the name of an entry, FuseOps/Listing about `readdir`, FuseOps/Sizes about bounds.
--   * Mount: the handlers for all files, with the cache of sizes that all transcoders share, the
--     `stats_cache` of src/transcode.cc, and the open files by the number that FUSE keeps as `fh`.
--     A call is a constructor of `Call`, and `serve_all` runs a list of them; those that use neither
--     the cache nor an open file are not among them. The calls of threads are taken in some order,
--     each as a whole: a transcoder is locked while it reads, and those for different files share
--     the cache only. Mount/Held is about what a call for any file does with one open file,
--     Mount/Replies about the reads of it in a list of calls, Mount/Reads and Mount/Interleaved
--     about their answers, Mount/Shared about a file that is open under two numbers,
--     and Mount/Caching and Mount/Bounded about the cache through any calls.
--   * Logging: src/logging.h and src/logging.cc. Logging/Format compares the substitution in the
--     format of the log, a loop on fuel that takes a byte at least in each round, with an expansion
--     from the left; Logging/Sinks is about the lines that are written and the names of the levels.
--   * Params: the parameters of src/mp3fs.h.
--   * Tests: the theorems at concrete inputs.
--
-- Numbers of 64 bits are natural numbers below 2 ^ 64, with the wrap-around of the additions and
-- subtractions written out; a signed number is its pattern, and orders of signed numbers compare
-- the patterns shifted by half. Sizes of vectors are not bounded, and theorems ask for a bound on
-- them where the wrap-around matters. The messages that the other parts log are left out.
--
-- Not modelled, because they only write text: `usage` and `print_versions` of src/mp3fs.cc,
-- `print_codec_versions` of src/codecs/coders.cc, and the log callbacks of src/codecs/mp3_encoder.cc
-- and src/codecs/flac_decoder.cc. The destructors, which give memory back, are left out, and so are
-- those lines of the table of the handlers of src/fuseops.cc that are for `readlink`, `statfs` and
-- `readdir`. src/lib/base64.c comes from another project; its decoder is a parameter.
pub mod Prelude
pub mod Buffer
pub mod StatsCache
pub mod Picture
pub mod Params
pub mod Coders
pub mod FilePath
pub mod FuseOps
pub mod Mount
pub mod Logging
pub mod Transcoder
pub mod Mp3Encoder
pub mod CommandLine
pub mod VorbisDecoder
pub mod Metadata
pub mod FlacDecoder
pub mod Program
mod Tests
