-- ===== src/Program.antt =====
-- The codecs of the program: the decoders of src/codecs/flac_decoder.cc and
-- src/codecs/vorbis_decoder.cc with the encoder of src/codecs/mp3_encoder.cc, as src/transcode.cc
-- uses them.
pub mod Codecs
pub mod Holding
pub mod Lawful
pub mod Reading
pub mod Dates
pub mod Remembering
pub mod Serving
pub mod Telling
