-- ===== src/FilePath/Sources.antt =====
-- src/path.cc and src/fuseops.cc: a single name of a directory, as `convert_extension` lists it and
-- as `transcode_source` looks for it.
use mathlib.Core.List.{append_assoc}
use mathlib.Core.Bool.{false≢true}
use mp3fs.Prelude.{
  ℕ, ◌+◌, ◌^◌, ◌<◌, ◌≡◌, refl, ap, sym, ◌∙◌, ◌⊎◌, inl, inr, true, false, List, [], ◌∷◌, ◌++◌, some,
  arith, ◌==◌, add64, length, take, drop, length-append, take-append_left, drop-append_left, Text,
  npos, rfind, starts_with, Lacks, rfind-append, rfind-Lacks, false, starts_with-append,
  append_of_starts_with, last_split, Lacks-append_self, subst, Bool-cases,
}
use mp3fs.Coders.{Build}
use mp3fs.FilePath.{has_decoder, convert_extension, is_source, first_source}

abbrev pub Among : Text → List Text → Type 0
Among n [] = ⊥
Among n (m ∷ names) = (n ≡ m) ⊎ Among n names

pub Lacks-append : (c : ℕ) (s t : Text) → Lacks c s → Lacks c t → Lacks c (s ++ t)
Lacks-append c [] t h k = k
Lacks-append c (x ∷ s) t h k = (h.0, Lacks-append c s t h.1 k)

-- `s` up to and with the separator, and what follows it.
pub take-append_suc : (s : Text) (c : ℕ) (t : Text) → take (length s + 1) (s ++ c ∷ t) ≡ s ++ c ∷ []
take-append_suc s c t =
    let e : length s + 1 ≡ length (s ++ c ∷ []) = sym (length-append s (c ∷ [])) in
    rw (e, ← append_assoc s (c ∷ []) t) (take-append_left (s ++ c ∷ []) t)

pub drop-append_suc : (s : Text) (c : ℕ) (t : Text) → drop (length s + 1) (s ++ c ∷ t) ≡ t
drop-append_suc s c t =
    let e : length s + 1 ≡ length (s ++ c ∷ []) = sym (length-append s (c ∷ [])) in
    rw (e, ← append_assoc s (c ∷ []) t) (drop-append_left (s ++ c ∷ []) t)

-- A file whose extension, behind its last dot, has a decoder is listed with that of the target
-- format in its place.
pub convert_extension-decoder :
    (build : Build) (desttype stem ext : Text)
    → Lacks b'.' ext
    → length stem < 2 ^ 63
    → has_decoder build ext ≡ true
    → convert_extension build desttype (stem ++ b'.' ∷ ext) ≡ stem ++ b'.' ∷ desttype
unfolding convert_extension
convert_extension-decoder build desttype stem ext h l dec =
    let at_dot = rfind-append b'.' stem ext h (omega arith) in
    let found : (rfind b'.' (stem ++ b'.' ∷ ext) == npos) ≡ false = ground (arith, at_dot) in
    let tail : drop (rfind b'.' (stem ++ b'.' ∷ ext) + 1) (stem ++ b'.' ∷ ext) ≡ ext =
      rw at_dot (drop-append_suc stem b'.' ext) in
    let front : take (rfind b'.' (stem ++ b'.' ∷ ext) + 1) (stem ++ b'.' ∷ ext)
        ≡ stem ++ b'.' ∷ [] =
      rw at_dot (take-append_suc stem b'.' ext) in
    rw (found, tail, dec, front, append_assoc)

-- A file without a decoder for its extension is listed under its own name.
pub convert_extension-unknown :
    (build : Build) (desttype stem ext : Text)
    → Lacks b'.' ext
    → length stem < 2 ^ 63
    → has_decoder build ext ≡ false
    → convert_extension build desttype (stem ++ b'.' ∷ ext) ≡ stem ++ b'.' ∷ ext
unfolding convert_extension
convert_extension-unknown build desttype stem ext h l dec =
    let at_dot = rfind-append b'.' stem ext h (omega arith) in
    let tail : drop (rfind b'.' (stem ++ b'.' ∷ ext) + 1) (stem ++ b'.' ∷ ext) ≡ ext =
      rw at_dot (drop-append_suc stem b'.' ext) in
    ground (arith, tail, dec)

-- And so is a file without an extension.
pub convert_extension-Lacks :
    (build : Build) (desttype n : Text) → Lacks b'.' n → convert_extension build desttype n ≡ n
unfolding convert_extension
convert_extension-Lacks build desttype n h = ground (arith, rfind-Lacks b'.' n h)

-- A file with the stem in front and a decoder for what follows its last dot is a candidate.
pub is_source_prefix :
    (build : Build) (stem rest ext : Text) (dot : ℕ)
    → rfind b'.' (stem ++ b'.' ∷ rest) ≡ dot
    → dot < 2 ^ 63
    → drop (dot + 1) (stem ++ b'.' ∷ rest) ≡ ext
    → has_decoder build ext ≡ true
    → is_source build (stem ++ b'.' ∷ []) (stem ++ b'.' ∷ rest) ≡ true
unfolding is_source
is_source_prefix build stem rest ext dot at_dot l tail dec =
    let next : add64 (rfind b'.' (stem ++ b'.' ∷ rest)) 1 ≡ dot + 1 = omega (arith, at_dot) in
    let front : starts_with (stem ++ b'.' ∷ []) (stem ++ b'.' ∷ rest) ≡ true =
      rw (append_assoc stem (b'.' ∷ []) rest) at (starts_with-append (stem ++ b'.' ∷ []) rest) in
    rw (front, next, tail) dec

pub first_source_hit :
    (build : Build) (source_base n : Text) (names : List Text)
    → Among n names
    → is_source build source_base n ≡ true
    → (m : Text) × (first_source build source_base names ≡ some m)
      × Among m names
      × (is_source build source_base m ≡ true)
unfolding first_source
first_source_hit build base n [] i h = absurd i
first_source_hit build base n (m ∷ names) i h = elim (Bool-cases (is_source build base m)) [
  | inl hit ↦ (m, ground arith, inl refl, hit)
  | inr miss ↦
      let rest : Among n names = elim i [
        | inl e ↦ absurd (false≢true (sym miss ∙ (ap (is_source build base) (sym e) ∙ h)))
        | inr j ↦ j
      ] in
      let (k, e, j, s) = first_source_hit build base n names rest h in (k, ground arith, inr j, s)
]

-- A name of a directory entry, which has 255 bytes at most in fact.
abbrev pub AreShort : List Text → Type 0
AreShort [] = Unit
AreShort (n ∷ names) = (length n < 2 ^ 62) × AreShort names

pub short-Among :
    (m : Text) (names : List Text) → AreShort names → Among m names → length m < 2 ^ 62
short-Among m (n ∷ names) (short, rest) (inl same) = rw same short
short-Among m (n ∷ names) (short, rest) (inr later) = short-Among m names rest later
short-Among m [] h i = absurd i

-- The name starts with the stem and a dot, and what follows its last dot has a decoder.
abbrev pub IsCandidate : Build → Text → Text → Type 0
IsCandidate build stem m =
    ((rest : Text) × (m ≡ stem ++ b'.' ∷ rest))
    × ((front : Text) × (ext : Text) × (m ≡ front ++ b'.' ∷ ext)
        × Lacks b'.' ext
        × (has_decoder build ext ≡ true))

is_source-decodes :
    (build : Build) (base front ext : Text)
    → length front < 2 ^ 62
    → Lacks b'.' ext
    → is_source build base (front ++ b'.' ∷ ext) ≡ true
    → has_decoder build ext ≡ true
unfolding is_source
is_source-decodes build base front ext short lacks h =
    let at_dot = rfind-append b'.' front ext lacks (omega arith) in
    let next : add64 (rfind b'.' (front ++ b'.' ∷ ext)) 1 ≡ length front + 1 =
      omega (arith, at_dot) in
    ground (arith, h, next, drop-append_suc front b'.' ext)

is_source-starts :
    (build : Build) (base m : Text) → is_source build base m ≡ true → starts_with base m ≡ true
unfolding is_source
is_source-starts build base m h = ground arith

pub is_source-IsCandidate :
    (build : Build) (stem m : Text)
    → length m < 2 ^ 62
    → is_source build (stem ++ b'.' ∷ []) m ≡ true
    → IsCandidate build stem m
is_source-IsCandidate build stem m short h =
    let (rest, begins) =
      append_of_starts_with (stem ++ b'.' ∷ []) m
        (is_source-starts build (stem ++ b'.' ∷ []) m h) in
    let whole : m ≡ stem ++ b'.' ∷ rest = begins ∙ append_assoc stem (b'.' ∷ []) rest in
    elim (last_split b'.' m) [
      | inl lacks ↦ absurd (Lacks-append_self b'.' stem rest (subst (Lacks b'.') whole lacks))
      | inr (front, ext, split, lacks) ↦
          let len : length front < 2 ^ 62 =
            omega (arith, ap length split, length-append front (b'.' ∷ ext)) in
          let source = subst (λ x. is_source build (stem ++ b'.' ∷ []) x ≡ true) split h in
          (
            (rest, whole),
            (
              front,
              ext,
              split,
              lacks,
              is_source-decodes build (stem ++ b'.' ∷ []) front ext len lacks source,
            ),
          )
    ]
