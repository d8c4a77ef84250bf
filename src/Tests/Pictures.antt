-- ===== src/Tests/Pictures.antt =====
-- src/codecs/picture.cc and src/codecs/coders.cc on small inputs.
use mp3fs.Prelude.{
  ℕ, ◌+◌, ◌-◌, ◌≡◌, ◌≢◌, refl, List, [], ◌∷◌, ◌++◌, none, some, arith, ◌==◌, if◌then◌else◌,
  replicate, codes,
}
use mp3fs.Picture.{Picture, done, fault, decode, new}
use mp3fs.Picture.Safety.{decode-ne-fault}
use mp3fs.Picture.Format.{encode, decode-encode}
use mp3fs.Coders.{Doubles, set_gain}
use mp3fs.Coders.Gain.{set_gain_modes}

abbrev pub unused : List ℕ
unused = replicate 16 0

abbrev cover : List ℕ
cover = encode 3 (codes "image/png") (codes "front") unused (1 ∷ 2 ∷ [])

decode-encode_example :
    (p : Picture) × (decode (new (cover ++ 0 ∷ [])) ≡ done tt p)
    × (p.type ≡ 3)
    × (p.mime_type ≡ codes "image/png")
    × (p.description ≡ codes "front")
    × (p.picture_data ≡ 1 ∷ 2 ∷ [])
decode-encode_example =
    decode-encode 3 (codes "image/png") (codes "front") unused (1 ∷ 2 ∷ []) (0 ∷ []) (omega arith)
      (omega arith) (omega arith) refl (omega arith) (omega arith)

decode-ne-fault_example : decode (new (0 ∷ 0 ∷ 0 ∷ 3 ∷ 0 ∷ [])) ≢ fault
decode-ne-fault_example = decode-ne-fault (0 ∷ 0 ∷ 0 ∷ 3 ∷ 0 ∷ []) (omega arith) (omega arith)

-- Gains in whole decibels, which are never negative.
abbrev pub whole_decibels : Doubles
whole_decibels = record { Double = ℕ; eq = ◌==◌; add = ◌+◌; sub = ◌-◌; literal = λ n. n }

set_gain_modes_example :
    (set_gain whole_decibels 1 89 89 3 5 ≡ set_gain whole_decibels 2 89 89 4 3)
    × (set_gain whole_decibels 1 89 89 1000 5 ≡ set_gain whole_decibels 2 89 89 4 5)
    × (set_gain whole_decibels 2 89 89 4 5
        ≡ (if 5 == 1000 then none else some (89 - (if 89 == 1000 then 89 else 89) + 5)))
set_gain_modes_example = set_gain_modes whole_decibels 89 89 3 5 4 refl refl
