-- ===== src/Picture.antt =====
-- src/codecs/picture.h and src/codecs/picture.cc: the decoder of a FLAC picture block.
pub mod Safety
pub mod Format
use mp3fs.Prelude.{
  ℕ, ◌+◌, ◌*◌, ◌%◌, ◌^◌, Bool, true, false, List, [], ◌∷◌, Option, none, some, ltb, leb, ◌==◌,
  if◌then◌else◌, add64, length, take, drop, Text,
}

-- `type_` is a `uint32_t`; the texts and the picture are the bytes of their strings.
pub record Picture : Type 0 where
  pub bytes : List ℕ
  pub data_off : ℕ
  pub type : ℕ
  pub mime_type : Text
  pub description : Text
  pub picture_data : List ℕ

-- The constructor.
unfoldable pub new : List ℕ → Picture
new bytes = record {
  bytes = bytes;
  data_off = 0;
  type = 0;
  mime_type = [];
  description = [];
  picture_data = [];
}

-- A method returns true with a value, returns false, or reads outside the data.
pub data Outcome {ℓ} (A : Type ℓ) : Type ℓ where
  done : A → Picture → Outcome A
  refused : Picture → Outcome A
  fault : Outcome A

abbrev pub M {ℓ} : Type ℓ → Type ℓ
M A = Picture → Outcome A

infixl 5 ◌>>=◌ ◌>>◌
abbrev pub ◌>>=◌ {ℓ κ} : {A : Type ℓ} {B : Type κ} → M A → (A → M B) → M B
◌>>=◌ m f p = elim (m p) [ done a p' ↦ f a p' | refused p' ↦ refused p' | fault ↦ fault ]

abbrev pub ◌>>◌ {ℓ κ} : {A : Type ℓ} {B : Type κ} → M A → M B → M B
m >> k = m >>= λ _. k

abbrev pub update : (Picture → Picture) → M (Unit {0})
update f p = done tt (f p)

-- Four bytes, read by `ntohl`.
unfoldable pub ntohl : List ℕ → Option ℕ
ntohl (a ∷ b ∷ c ∷ d ∷ rest) = some (((a * 256 + b) * 256 + c) * 256 + d)
ntohl _ = none

unfoldable pub consume_decode_uint32 : M ℕ
consume_decode_uint32 p =
    if ltb (length p.bytes) (add64 p.data_off 4)
    then refused p
    else elim (ntohl (drop p.data_off p.bytes)) [
      | none ↦ fault
      | some value ↦ done value (record p { data_off = add64 p.data_off 4 })
    ]

-- `std::string::assign` from the place of the cursor.
unfoldable pub assign : ℕ → M Text
assign n p =
    if leb (p.data_off + n) (length p.bytes)
    then done (take n (drop p.data_off p.bytes)) (record p { data_off = add64 p.data_off n })
    else fault

unfoldable pub consume_decode_string : M Text
unfolding assign
consume_decode_string = do
  len ← consume_decode_uint32
  λ p. if ltb (length p.bytes) (add64 p.data_off len) then refused p else assign len p

unfoldable pub consume_no_decode : ℕ → M (Unit {0})
consume_no_decode n p = done tt (record p { data_off = add64 p.data_off n })

abbrev pub unused_metadata_bytes : ℕ
unused_metadata_bytes = 16

unfoldable pub decode : M (Unit {0})
decode = do
  t ← consume_decode_uint32
  update (λ p. record p { type = t })
  mime ← consume_decode_string
  update (λ p. record p { mime_type = mime })
  text ← consume_decode_string
  update (λ p. record p { description = text })
  consume_no_decode unused_metadata_bytes
  picture_data_str ← consume_decode_string
  update (λ p. record p { picture_data = picture_data_str })

-- `get_data_length`: the size as an `int`, by its 32-bit pattern.
unfoldable pub get_data_length : Picture → ℕ
get_data_length p = length p.picture_data % 2 ^ 32
