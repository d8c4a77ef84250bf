-- ===== src/Picture/Format.antt =====
-- The picture block of the FLAC format, which src/codecs/picture.cc decodes.
use mathlib.Core.List.{append_assoc}
use mp3fs.Prelude.{
  ℕ, ◌+◌, ◌/◌, ◌%◌, ◌^◌, ◌<◌, ◌≡◌, refl, ap, ap₂, ◌∙◌, sym, subst, false, List, [], ◌∷◌, ◌++◌, some,
  arith, ltb, add64, length, take, drop, Text, length-append, drop-drop, take-append_left,
  drop-append_left,
}
use mp3fs.Picture.{
  Picture, new, done, ntohl, consume_decode_uint32, consume_decode_string, consume_no_decode,
  decode, unused_metadata_bytes,
}

-- A number as four bytes, the highest first.
pub encode_uint32 : ℕ → List ℕ
encode_uint32 n = (n / 2 ^ 24) % 256 ∷ (n / 2 ^ 16) % 256 ∷ (n / 2 ^ 8) % 256 ∷ n % 256 ∷ []

pub encode_string : Text → List ℕ
encode_string s = encode_uint32 (length s) ++ s

-- A block with its type, MIME type, description, 16 bytes that mp3fs passes over, and the image.
pub encode : ℕ → Text → Text → List ℕ → List ℕ → List ℕ
encode t mime text unused image =
    encode_uint32 t
    ++ (encode_string mime ++ (encode_string text ++ (unused ++ encode_string image)))

-- The cursor stands before these bytes.
record At (p : Picture) (rest : List ℕ) : Type 0 where
  here : drop p.data_off p.bytes ≡ rest
  inside : p.data_off + length rest ≡ length p.bytes
  small : length p.bytes < 2 ^ 62

advance : ℕ → Picture → Picture
advance n p = record p { data_off = add64 p.data_off n }

length-encode_uint32 : (n : ℕ) → length (encode_uint32 n) ≡ 4
unfolding encode_uint32
length-encode_uint32 n = refl

ntohl-encode_uint32 :
    (n : ℕ) (rest : List ℕ) → n < 2 ^ 32 → ntohl (encode_uint32 n ++ rest) ≡ some n
unfolding ntohl encode_uint32
ntohl-encode_uint32 n rest h = ap some (omega arith)

advance-At :
    (p : Picture) (n : ℕ) (xs rest : List ℕ)
    → n ≡ length xs
    → At p (xs ++ rest)
    → At (advance n p) rest
unfolding advance
advance-At p n xs rest e a =
    let len = length-append xs rest in
    let off : add64 p.data_off n ≡ p.data_off + n = omega (arith, a.inside, a.small) in
    record {
      here = drop-after off ∙ drop-append_left xs rest;
      inside = omega (arith, a.inside, a.small);
      small = a.small;
    }
  where
    drop-after :
        add64 p.data_off n ≡ p.data_off + n
        → drop (add64 p.data_off n) p.bytes ≡ drop (length xs) (xs ++ rest)
    drop-after off =
        let cut = ap (drop n) a.here in
        ap (λ i. drop i p.bytes) off
        ∙ (sym (drop-drop p.data_off n (p.data_off + n) p.bytes refl)
            ∙ (cut ∙ ap (λ i. drop i (xs ++ rest)) e))

consume_decode_uint32-encode :
    (p : Picture) (n : ℕ) (rest : List ℕ)
    → n < 2 ^ 32
    → At p (encode_uint32 n ++ rest)
    → consume_decode_uint32 p ≡ done n (advance 4 p)
unfolding consume_decode_uint32 advance
consume_decode_uint32-encode p n rest lt a =
    let len = length-append (encode_uint32 n) rest in
    let four = length-encode_uint32 n in
    let fits : ltb (length p.bytes) (add64 p.data_off 4) ≡ false =
      ground (arith, a.inside, a.small, len, four) in
    let read : ntohl (drop p.data_off p.bytes) ≡ some n =
      ap ntohl a.here ∙ ntohl-encode_uint32 n rest lt in
    ground (arith, fits, read)

consume_decode_string-encode :
    (p : Picture) (s : Text) (rest : List ℕ)
    → length s < 2 ^ 32
    → At p (encode_string s ++ rest)
    → consume_decode_string p ≡ done s (advance (length s) (advance 4 p))
unfolding consume_decode_string encode_string advance
consume_decode_string-encode p s rest lt a =
    let a' = subst (At p) (append_assoc (encode_uint32 (length s)) s rest) a in
    let b =
      advance-At p 4 (encode_uint32 (length s)) (s ++ rest) (sym (length-encode_uint32 (length s)))
        a' in
    let first = consume_decode_uint32-encode p (length s) (s ++ rest) lt a' in
    let len = length-append s rest in
    let body : take (length s) (drop (add64 p.data_off 4) p.bytes) ≡ s =
      ap (take (length s)) b.here ∙ take-append_left s rest in
    ground (arith, first, b.inside, b.small, len, body)

string-At :
    (p : Picture) (s : Text) (rest : List ℕ)
    → At p (encode_string s ++ rest)
    → At (advance (length s) (advance 4 p)) rest
unfolding encode_string
string-At p s rest a =
    let a' = subst (At p) (append_assoc (encode_uint32 (length s)) s rest) a in
    advance-At (advance 4 p) (length s) s rest refl (
      advance-At p 4 (encode_uint32 (length s)) (s ++ rest) (sym (length-encode_uint32 (length s)))
        a')

same_cursor :
    (p q : Picture) (rest : List ℕ)
    → p.data_off ≡ q.data_off
    → p.bytes ≡ q.bytes
    → At p rest
    → At q rest
same_cursor p q rest e f a = record {
  here = ap₂ drop (sym e) (sym f) ∙ a.here;
  inside = rw (← e, ← f) (a.inside);
  small = rw (← f) (a.small);
}

-- The steps of `decode`, where each of them returns.
decode_steps :
    (p q₁ q₂ q₃ q₄ : Picture) (t : ℕ) (mime text image : Text)
    → consume_decode_uint32 p ≡ done t q₁
    → consume_decode_string (record q₁ { type = t }) ≡ done mime q₂
    → consume_decode_string (record q₂ { mime_type = mime }) ≡ done text q₃
    → consume_decode_string (advance 16 (record q₃ { description = text })) ≡ done image q₄
    → decode p ≡ done tt (record q₄ { picture_data = image })
unfolding decode consume_no_decode advance
decode_steps p q₁ q₂ q₃ q₄ t mime text image e₁ e₂ e₃ e₄ = ground arith

length-encode :
    (t : ℕ) (mime text : Text) (unused image rest : List ℕ)
    → length (encode t mime text unused image ++ rest)
      ≡ 16 + length mime + length text + length unused + length image + length rest
unfolding encode encode_string
length-encode t mime text unused image rest =
    simp (length-append, length-encode_uint32) (omega arith)

-- A block of the format is decoded to its type, its MIME type, its description and its image,
-- whatever bytes follow it.
pub decode-encode :
    (t : ℕ) (mime text : Text) (unused image rest : List ℕ)
    → t < 2 ^ 32
    → length mime < 2 ^ 32
    → length text < 2 ^ 32
    → length unused ≡ unused_metadata_bytes
    → length image < 2 ^ 32
    → length rest < 2 ^ 61
    → (p : Picture) × (decode (new (encode t mime text unused image ++ rest)) ≡ done tt p)
      × (p.type ≡ t)
      × (p.mime_type ≡ mime)
      × (p.description ≡ text)
      × (p.picture_data ≡ image)
unfolding new advance encode
decode-encode t mime text unused image rest ht hm hx hu hi hr =
    (p₅, decode_steps _ _ _ _ _ t mime text image e₁ e₂ e₃ e₄, refl, refl, refl, refl)
  where
    bs : List ℕ
    bs = encode t mime text unused image ++ rest

    p₁ : Picture
    p₁ = record (advance 4 (new bs)) { type = t }

    p₂ : Picture
    p₂ = record (advance (length mime) (advance 4 p₁)) { mime_type = mime }

    p₃ : Picture
    p₃ = record (advance (length text) (advance 4 p₂)) { description = text }

    p₄ : Picture
    p₄ = advance 16 p₃

    p₅ : Picture
    p₅ = record (advance (length image) (advance 4 p₄)) { picture_data = image }

    r₄ : List ℕ
    r₄ = encode_string image ++ rest

    r₃ : List ℕ
    r₃ = unused ++ r₄

    r₂ : List ℕ
    r₂ = encode_string text ++ r₃

    r₁ : List ℕ
    r₁ = encode_string mime ++ r₂

    flat : bs ≡ encode_uint32 t ++ r₁
    flat = simp append_assoc

    a₀ : At (new bs) (encode_uint32 t ++ r₁)
    a₀ = record {
      here = flat;
      inside = omega (arith, ap length flat);
      small = omega (arith, length-encode t mime text unused image rest);
    }

    a₁ : At p₁ r₁
    a₁ =
        same_cursor (advance 4 (new bs)) p₁ r₁ refl refl
          (advance-At (new bs) 4 (encode_uint32 t) r₁ (sym (length-encode_uint32 t)) a₀)

    a₂ : At p₂ r₂
    a₂ =
        same_cursor (advance (length mime) (advance 4 p₁)) p₂ r₂ refl refl (string-At p₁ mime r₂ a₁)

    a₃ : At p₃ r₃
    a₃ =
        same_cursor (advance (length text) (advance 4 p₂)) p₃ r₃ refl refl (string-At p₂ text r₃ a₂)

    a₄ : At p₄ r₄
    a₄ = advance-At p₃ 16 unused r₄ (sym hu) a₃

    e₁ : consume_decode_uint32 (new bs) ≡ done t (advance 4 (new bs))
    e₁ = consume_decode_uint32-encode (new bs) t r₁ ht a₀

    e₂ : consume_decode_string p₁ ≡ done mime (advance (length mime) (advance 4 p₁))
    e₂ = consume_decode_string-encode p₁ mime r₂ hm a₁

    e₃ : consume_decode_string p₂ ≡ done text (advance (length text) (advance 4 p₂))
    e₃ = consume_decode_string-encode p₂ text r₃ hx a₂

    e₄ : consume_decode_string p₄ ≡ done image (advance (length image) (advance 4 p₄))
    e₄ = consume_decode_string-encode p₄ image rest hi a₄
