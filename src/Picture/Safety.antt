-- ===== src/Picture/Safety.antt =====
-- src/codecs/picture.cc: no read leaves the data.
use mp3fs.Prelude.{
  ℕ, zero, suc, inl, inr, ◌+◌, ◌^◌, ◌≤◌, ◌<◌, ◌≡◌, ◌≢◌, refl, subst, List, [], ◌∷◌, some, arith,
  ltb, add64, length, length-drop, drop, Text, Bool-cases,
}
use mp3fs.Picture.{
  Picture, new, Outcome, done, refused, fault, M, ntohl, consume_decode_uint32,
  consume_decode_string, consume_no_decode, decode,
}

-- The bytes of a file.
abbrev pub AreBytes : List ℕ → Type 0
AreBytes [] = Unit
AreBytes (x ∷ xs) = (x < 256) × AreBytes xs

AreBytes-drop : (n : ℕ) (xs : List ℕ) → AreBytes xs → AreBytes (drop n xs)
AreBytes-drop zero xs h = h
AreBytes-drop (suc n) [] h = tt
AreBytes-drop (suc n) (x ∷ xs) h = AreBytes-drop n xs h.1

-- A step on this data that returns leaves the cursor at most `j` bytes behind the end.
abbrev Post : {A : Type 0} → List ℕ → ℕ → (A → Type 0) → Outcome A → Type 0
Post bs j Q (done a p) = (p.bytes ≡ bs) × (p.data_off ≤ length bs + j) × Q a
Post bs j Q (refused p) = Unit
Post bs j Q fault = ⊥

Post-bind :
    {A B : Type 0} (bs : List ℕ) (j k : ℕ) (Q : A → Type 0) (R : B → Type 0) (o : Outcome A)
    (f : A → M B)
    → Post bs j Q o
    → ((a : A) (p : Picture)
        → p.bytes ≡ bs
        → p.data_off ≤ length bs + j
        → Q a
        → Post bs k R (f a p))
    → Post bs k R (elim o [ done a p' ↦ f a p' | refused p' ↦ refused p' | fault ↦ fault ])
Post-bind bs j k Q R (done a p) f (same, near, q) next = next a p same near q
Post-bind bs j k Q R (refused p) f h next = tt
Post-bind bs j k Q R fault f h next = absurd h

-- Four bytes are there where the list is long enough.
ntohl_total :
    (xs : List ℕ) → AreBytes xs → 4 ≤ length xs → (v : ℕ) × (ntohl xs ≡ some v) × (v < 2 ^ 32)
unfolding ntohl
ntohl_total (a ∷ b ∷ c ∷ d ∷ rest) h l = (_, refl, omega arith)
ntohl_total (a ∷ b ∷ c ∷ []) h l = absurd (omega arith)
ntohl_total (a ∷ b ∷ []) h l = absurd (omega arith)
ntohl_total (a ∷ []) h l = absurd (omega arith)
ntohl_total [] h l = absurd (omega arith)

module _ (bs : List ℕ) (small : length bs < 2 ^ 62) (h : AreBytes bs) where
  consume_decode_uint32-Post :
      (p : Picture)
      → p.bytes ≡ bs
      → p.data_off ≤ length bs + 16
      → Post bs 0 (λ v. v < 2 ^ 32) (consume_decode_uint32 p)
  unfolding consume_decode_uint32
  consume_decode_uint32-Post p same near =
      elim (Bool-cases (ltb (length p.bytes) (add64 p.data_off 4))) [
        | inl out ↦ ground arith
        | inr inside ↦
            let fits : p.data_off + 4 ≤ length bs = ground arith in
            let (v, e, lt) =
              ntohl_total (drop p.data_off bs) (AreBytes-drop p.data_off bs h)
                (omega (arith, length-drop p.data_off bs)) in
            ground (arith, e)
      ]

  consume_decode_string-Post :
      (p : Picture)
      → p.bytes ≡ bs
      → p.data_off ≤ length bs + 16
      → Post bs 0 (λ (_ : Text). Unit {0}) (consume_decode_string p)
  unfolding consume_decode_string
  consume_decode_string-Post p same near =
      Post-bind bs 0 0 (λ v. v < 2 ^ 32) (λ _. Unit {0}) (consume_decode_uint32 p) _
        (consume_decode_uint32-Post p same near) (λ len p' same' near' lt. ground arith)

  decode-Post : Post bs 0 (λ _. Unit {0}) (decode (new bs))
  unfolding decode new consume_no_decode
  decode-Post =
      let none_asked = λ (t : Text). Unit {0} in
      Post-bind bs 0 0 (λ v. v < 2 ^ 32) (λ _. Unit {0}) _ _
        (consume_decode_uint32-Post (new bs) refl (omega arith))
        λ t p₁ s₁ n₁ _.
          Post-bind bs 0 0 none_asked (λ _. Unit {0}) _ _
            (consume_decode_string-Post (record p₁ { type = t }) s₁ (omega arith))
            λ mime p₂ s₂ n₂ _.
              Post-bind bs 0 0 none_asked (λ _. Unit {0}) _ _
                (consume_decode_string-Post (record p₂ { mime_type = mime }) s₂ (omega arith))
                λ text p₃ s₃ n₃ _.
                  Post-bind bs 0 0 none_asked (λ _. Unit {0}) _ _
                    (consume_decode_string-Post _ s₃ (omega arith)) λ d p₄ s₄ n₄ _. (s₄, n₄, tt)

  -- On fewer than 2 ^ 62 bytes, whatever they are, `decode` never reads outside them.
  pub decode-ne-fault : decode (new bs) ≢ fault
  decode-ne-fault e = subst (Post bs 0 (λ _. Unit {0})) e decode-Post
