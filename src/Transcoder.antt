-- ===== src/Transcoder.antt =====
-- src/transcode.h and src/transcode.cc: the file that is encoded while it is read. The classes
-- `Decoder` and `Encoder` of src/codecs/coders.h are an interface.
pub mod Loop
pub mod Serves
pub mod Stays
pub mod Opening
pub mod Sessions
pub mod Whole
pub mod Remembers
pub mod Arrivals
pub mod Caching
use mp3fs.Prelude.{
  ℕ, zero, suc, ◌+◌, ◌<◌, ◌≡◌, Bool, true, false, ◌&&◌, not, List, [], ◌∷◌, Option, none, some, ltb,
  ◌==◌, if◌then◌else◌, add64, length, drop, Text, npos, rfind,
}
use mp3fs.Buffer.{
  Buffer, init, Copy, copied, invalid, fault, tell, size, valid_bytes, copy_into, max_valid_bytes,
}
use mp3fs.StatsCache.{Cache}

-- What `process_single_fr` returns: 0, 1 or -1.
pub data Status : Type 0 where
  more ended failed : Status

-- The result of `read`: what it puts out and the number of bytes, or -1.
pub data Result : Type 0 where
  got : Copy → ℕ → Result
  eio : Result

-- What the transcoder uses of the two classes. An encoder writes to the buffer that it was
-- created with, so its methods take and return the buffer; `refused_buffer` is the one that an
-- `encode_finish` leaves which returns -1.
pub record Codecs : Type 1 where
  pub Decoder : Type 0
  pub Encoder : Type 0
  pub create_decoder : Text → Option Decoder
  pub create_encoder : Text → Option Encoder
  pub open_file : Decoder → Text → Option Decoder
  pub mtime : Decoder → ℕ
  pub process_metadata : Decoder → Encoder → Option (Decoder × Encoder)
  pub render_tag : Encoder → ℕ → Buffer → Option (Encoder × Buffer)
  pub process_single_fr : Decoder → Encoder → Buffer → Status × Decoder × Encoder × Buffer
  pub encode_finish : Encoder → Buffer → Option Buffer
  pub refused_buffer : Encoder → Buffer → Buffer
  pub no_partial_encode : Encoder → Bool

module _ (codecs : Codecs) where
  open codecs use {
    Decoder, Encoder, create_decoder, create_encoder, open_file, mtime, process_metadata,
    render_tag, process_single_fr, encode_finish, refused_buffer, no_partial_encode,
  }

  -- With the cache of sizes, which all transcoders share.
  pub record Transcoder : Type 0 where
    pub buffer : Buffer
    pub filename : Text
    pub encoder : Option Encoder
    pub decoder : Option Decoder
    pub stats_cache : Cache

  -- The constructor.
  unfoldable pub new : Text → Cache → Transcoder
  new filename stats_cache = record {
    buffer = init;
    filename = filename;
    encoder = none;
    decoder = none;
    stats_cache = stats_cache;
  }

  unfoldable pub get_size : Transcoder → ℕ
  get_size t = size t.buffer

  -- The end of `read`.
  unfoldable pub deliver : Transcoder → ℕ → ℕ → Result
  deliver t offset len =
      let max_len = max_valid_bytes t.buffer offset in
      let n = if ltb max_len len then max_len else len in got (copy_into t.buffer offset n) n

  -- `get_filesize` and `put_filesize` are those of the cache, at the time of the call;
  -- `put_filesize` takes the name, the size and the modified time.
  module _ (get_filesize : Cache → Text → ℕ → Cache × Option ℕ)
      (put_filesize : Cache → Text → ℕ → ℕ → Cache) (desttype : Text) (statcachesize : ℕ) where
    -- The steps of `open` from the creation of the encoder on. A state and true, or the state
    -- and false with `errno` EIO.
    unfoldable pub open_encoder : Transcoder → Decoder → Transcoder × Bool
    open_encoder t decoder = elim (create_encoder desttype) [
      | none ↦ (record t { decoder = some decoder }, false)
      | some encoder ↦ elim (process_metadata decoder encoder) [
        | none ↦ (record t { decoder = some decoder; encoder = some encoder }, false)
        | some (decoder', encoder') ↦
            let (cache, cached) = get_filesize t.stats_cache t.filename (mtime decoder') in
            let cached_size = elim cached as (λ _. ℕ) [ none ↦ 0 | some n ↦ n ] in
            let opened : Transcoder = record t {
              decoder = some decoder';
              encoder = some encoder';
              stats_cache = cache;
            } in
            elim (render_tag encoder' cached_size t.buffer) [
              | none ↦ (opened, false)
              | some (encoder'', buffer) ↦
                  (record opened { encoder = some encoder''; buffer = buffer }, true)
            ]
      ]
    ]

    unfoldable pub open_ : Transcoder → Transcoder × Bool
    unfolding open_encoder
    open_ t =
        let dot_idx = rfind b'.' t.filename in
        let created =
          if dot_idx == npos then none else create_decoder (drop (dot_idx + 1) t.filename) in
        elim created [
          | none ↦ (t, false)
          | some decoder ↦ elim (open_file decoder t.filename) [
            | none ↦ (record t { decoder = some decoder }, false)
            | some decoder' ↦ open_encoder t decoder'
          ]
        ]

    -- The size goes to the cache if there is one and the file is not empty.
    unfoldable pub remember : Transcoder → ℕ → Transcoder
    remember t decoded_file_mtime =
        if ltb 0 statcachesize && not (size t.buffer == 0)
        then record t {
          stats_cache = put_filesize t.stats_cache t.filename (size t.buffer) decoded_file_mtime;
        }
        else t

    -- The cleanup of the encoder in `finish`.
    unfoldable pub finish_encoder : Transcoder → ℕ → Option Encoder → Transcoder × Bool
    unfolding remember
    finish_encoder t decoded_file_mtime none = (remember t decoded_file_mtime, true)
    finish_encoder t decoded_file_mtime (some encoder) = elim (encode_finish encoder t.buffer) [
      | none ↦ (record t { buffer = refused_buffer encoder t.buffer }, false)
      | some buffer ↦
          (remember (record t { buffer = buffer; encoder = none }) decoded_file_mtime, true)
    ]

    unfoldable pub finish : Transcoder → Transcoder × Bool
    unfolding finish_encoder
    finish t =
        let decoded_file_mtime = elim t.decoder as (λ _. ℕ) [
          | none ↦ 0
          | some decoder ↦ mtime decoder
        ] in
        finish_encoder (record t { decoder = none }) decoded_file_mtime t.encoder

    -- What the loop of `read` does with the status of a frame; false: `read` fails with EIO.
    unfoldable pub after_frame : Transcoder → Status → Transcoder × Bool
    unfolding finish
    after_frame t more = (t, true)
    after_frame t ended = finish t
    after_frame t failed = (t, false)

    -- One round of the loop of `read`.
    unfoldable pub round : Transcoder → Decoder → Encoder → Transcoder × Bool
    round t decoder encoder =
        let (stat, decoder', encoder', buffer) = process_single_fr decoder encoder t.buffer in
        after_frame (record t { decoder = some decoder'; encoder = some encoder'; buffer = buffer })
          stat

    -- How far the loop of `read` encodes.
    unfoldable pub wanted : Encoder → ℕ → ℕ → ℕ
    wanted encoder offset len = if no_partial_encode encoder then npos else add64 offset len

    -- The test of the loop of `read` and one round; `none`: the loop is over.
    unfoldable pub turn : Transcoder → ℕ → ℕ → Option (Transcoder × Bool)
    turn t offset len = elim t.decoder [
      | none ↦ none
      | some decoder ↦ elim t.encoder [
        | none ↦ none
        | some encoder ↦
            if ltb (tell t.buffer) (wanted encoder offset len)
            then some (round t decoder encoder)
            else none
      ]
    ]

    -- The loop of `read`; `none`: the fuel has run out.
    unfoldable pub loop : ℕ → Transcoder → ℕ → ℕ → Option (Transcoder × Bool)
    loop zero t offset len = none
    loop (suc fuel) t offset len = elim (turn t offset len) [
      | none ↦ some (t, true)
      | some (t', fine) ↦ elim fine [ true ↦ loop fuel t' offset len | false ↦ some (t', false) ]
    ]

    unfoldable pub read : ℕ → Transcoder → ℕ → ℕ → Option (Transcoder × Result)
    read fuel t offset len =
        if ltb (get_size t) offset
        then some (t, got (copied []) 0)
        else (if valid_bytes t.buffer offset len
            then some (t, got (copy_into t.buffer offset len) len)
            else elim (loop fuel t offset len) [
              | none ↦ none
              | some (t', fine) ↦ if fine then some (t', deliver t' offset len) else some (t', eio)
            ])
