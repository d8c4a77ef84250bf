-- ===== src/VorbisDecoder/SameTags.antt =====
-- src/codecs/vorbis_decoder.cc beside src/codecs/flac_decoder.cc: the tags of the same comments.
use mp3fs.Prelude.{
  c_str, ℕ, ◌+◌, ◌^◌, ◌<◌, ◌≡◌, ◌≢◌, refl, ap, ◌∙◌, List, [], ◌∷◌, ◌++◌, map, Option, some, arith,
  length, drop, take-append_left, Text, text_eq, Lacks,
}
use mp3fs.Coders.{Doubles}
use mp3fs.Metadata.{toupper, tag_of, TagEncoder, Gains}
use mp3fs.Picture.{Picture, done, new, decode, get_data_length, unused_metadata_bytes}
use mp3fs.Picture.Format.{encode, decode-encode}
use mp3fs.FlacDecoder
use mp3fs.FlacDecoder.{Flac, FlacDecoder, picture, metadata_callback}
use mp3fs.VorbisDecoder.Comments.{
  metatag_map, picture_name, find_first_of, split_comment, goes_on, use_picture, picture_comment,
  named_comment, comment_step,
}

-- A comment as it stands in the file.
abbrev pub raw : Text × Text → Text
raw (n, v) = n ++ b'=' ∷ v

find_first_of-append :
    (c : ℕ) (n v : Text) → Lacks c n → find_first_of c (n ++ c ∷ v) ≡ some (length n)
unfolding find_first_of
find_first_of-append c [] v h = ground arith
find_first_of-append c (x ∷ n) v h = ground (arith, find_first_of-append c n v h.1)

c_str-Lacks : (s : Text) → Lacks 0 s → c_str s ≡ s
unfolding c_str
c_str-Lacks [] h = refl
c_str-Lacks (c ∷ s) h = ground (arith, c_str-Lacks s h.1)

drop-append_suc : (n : Text) (c : ℕ) (v : Text) → drop (length n + 1) (n ++ c ∷ v) ≡ v
drop-append_suc [] c v = ground arith
drop-append_suc (x ∷ n) c v = ground (arith, drop-append_suc n c v)

split_comment-raw :
    (n v : Text) → 0 < length n → Lacks b'=' n → split_comment (raw (n, v)) ≡ some (n, v)
unfolding split_comment
split_comment-raw n v named plain =
    let at_sign = find_first_of-append b'=' n v plain in
    ground (arith, at_sign, take-append_left n (b'=' ∷ v), drop-append_suc n b'=' v)

-- The comment has a name, without a `=` and without a zero, and it is no picture.
abbrev pub IsPlain : Text × Text → Type 0
IsPlain (n, v) = (0 < length n) × Lacks b'=' n × Lacks 0 n × (map toupper n ≢ picture_name)

abbrev pub ArePlain : List (Text × Text) → Type 0
ArePlain [] = Unit
ArePlain (comment ∷ comments) = IsPlain comment × ArePlain comments

module _ (d : Doubles) (te : TagEncoder d) (strtod : Text → d.Double)
    (base64_decode : Text → Option (List ℕ)) where
  open te use {Encoder}

  comment_step-raw :
      (e : Encoder) (g : Gains d) (n v : Text)
      → 0 < length n
      → Lacks b'=' n
      → comment_step d te strtod base64_decode (e, g) (raw (n, v))
        ≡ named_comment d te strtod base64_decode e g (map toupper n) v
  unfolding comment_step
  comment_step-raw e g n v named plain =
      let parts = split_comment-raw n v named plain in ground (arith, parts)

  module _ (flac : Flac) (gainmode : ℕ) (params_gainref : d.Double) where
    use_picture-done :
        (e : Encoder) (g : Gains d) (p : Picture) (t : ℕ) (mime text : Text) (image : List ℕ)
        → p.type ≡ t
        → c_str p.mime_type ≡ mime
        → c_str p.description ≡ text
        → p.picture_data ≡ image
        → length image < 2 ^ 32
        → use_picture d te strtod base64_decode e g (done tt p)
          ≡ goes_on (te.set_picture_tag e mime t text image (length image), g)
    unfolding use_picture get_data_length
    use_picture-done e g p t mime text image ht hm hx hi small = ground (arith, ht, hm, hx, hi)

    named_comment-picture_comment :
        (e : Encoder) (g : Gains d) (v : Text)
        → named_comment d te strtod base64_decode e g picture_name v
          ≡ picture_comment d te strtod base64_decode e g v
    unfolding named_comment tag_of metatag_map text_eq
    named_comment-picture_comment e g v = refl

    picture_comment-done :
        (e : Encoder) (g : Gains d) (v : Text) (bytes : List ℕ) (p : Picture)
        → base64_decode v ≡ some bytes
        → decode (new bytes) ≡ done tt p
        → picture_comment d te strtod base64_decode e g v
          ≡ use_picture d te strtod base64_decode e g (done tt p)
    unfolding picture_comment
    picture_comment-done e g v bytes p there decoded = ground (arith, there, decoded)

    -- A picture comment whose Base64 text gives a block of the picture format gives the encoder
    -- the call that a FLAC file with a picture of the same fields gives.
    pub comment_step-picture :
        (dec : FlacDecoder flac) (e : Encoder) (g : Gains d) (n v : Text) (t : ℕ) (mime text : Text)
        (unused image rest : List ℕ)
        → 0 < length n
        → Lacks b'=' n
        → map toupper n ≡ picture_name
        → base64_decode v ≡ some (encode t mime text unused image ++ rest)
        → t < 2 ^ 32
        → length mime < 2 ^ 32
        → length text < 2 ^ 32
        → length unused ≡ unused_metadata_bytes
        → length image < 2 ^ 32
        → length rest < 2 ^ 61
        → Lacks 0 mime
        → Lacks 0 text
        → comment_step d te strtod base64_decode (e, g) (raw (n, v))
          ≡ goes_on (
            (metadata_callback flac d te strtod gainmode params_gainref
                (dec, e)
                (picture mime t text image (length image))).1,
            g,
          )
    unfolding metadata_callback
    comment_step-picture dec e g n v t mime text unused image rest named plain is_picture bytes ht
          hm hx hu hi hr zm zt =
        let (p, decoded, p_type, p_mime, p_text, p_image) =
          decode-encode t mime text unused image rest ht hm hx hu hi hr in
        comment_step-raw e g n v named plain
        ∙ (ap (λ (x : Text). named_comment d te strtod base64_decode e g x v) is_picture
            ∙ (named_comment-picture_comment e g v
                ∙ picture_comment-done e g v _ p bytes decoded
                ∙ use_picture-done e g p t mime text image p_type
                    (ap c_str p_mime ∙ c_str-Lacks mime zm) (ap c_str p_text ∙ c_str-Lacks text zt)
                    p_image hi))
