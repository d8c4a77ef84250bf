-- ===== src/FuseOps/Shown.antt =====
-- src/fuseops.cc: the name under which `mp3fs_readdir` shows an entry.
use mp3fs.Prelude.{
  ◌+◌, ◌^◌, ◌<◌, ◌≡◌, ap, sym, ◌∙◌, Bool, true, false, ◌∷◌, ◌++◌, arith, inl, inr, ◌-◌, ◌||◌, subst,
  take, Bool-cases, last_split, sub64, word, length, take_all, length-append, Text, Lacks,
}
use mp3fs.Coders.{Build}
use mp3fs.FilePath.{has_decoder, convert_extension}
use mp3fs.FilePath.Sources.{
  convert_extension-decoder, convert_extension-unknown, convert_extension-Lacks,
}
use mp3fs.FuseOps.{Stat, System, shown_name}

module _ (system : System) (build : Build) (basepath desttype : Text) where
  open system use {s_isreg, s_islnk, name_size}

  -- A plain file or a link is converted.
  abbrev pub is_converted : Stat → Bool
  is_converted st = s_isreg st.st_mode || s_islnk st.st_mode

  -- The name under which an entry is shown: its own, or that with the target extension in place of
  -- one that has a decoder. A name that is converted is cut to the size of the buffer.
  pub data IsShown (n : Text) (st : Stat) : Text → Type 0 where
    kept : is_converted st ≡ false → IsShown n st n
    bare : is_converted st ≡ true → Lacks b'.' n → IsShown n st (take (name_size - 1) n)
    unknown :
        (stem ext : Text)
        → is_converted st ≡ true
        → n ≡ stem ++ b'.' ∷ ext
        → Lacks b'.' ext
        → has_decoder build ext ≡ false
        → IsShown n st (take (name_size - 1) n)
    renamed :
        (stem ext : Text)
        → is_converted st ≡ true
        → n ≡ stem ++ b'.' ∷ ext
        → Lacks b'.' ext
        → has_decoder build ext ≡ true
        → IsShown n st (take (name_size - 1) (stem ++ b'.' ∷ desttype))

  shown_name-kept :
      (n : Text) (st : Stat)
      → is_converted st ≡ false
      → shown_name system build basepath desttype n st ≡ n
  unfolding shown_name
  shown_name-kept n st h = ground arith

  shown_name-converted :
      (n n' : Text) (st : Stat)
      → 0 < name_size
      → name_size < word
      → is_converted st ≡ true
      → convert_extension build desttype n ≡ n'
      → shown_name system build basepath desttype n st ≡ take (name_size - 1) n'
  unfolding shown_name
  shown_name-converted n n' st some_size bits h renamed_so =
      let minus : sub64 name_size 1 ≡ name_size - 1 = omega arith in
      ground (arith, renamed_so, minus)

  pub shown_name-IsShown :
      (n : Text) (st : Stat)
      → 0 < name_size
      → name_size < word
      → length n < 2 ^ 62
      → IsShown n st (shown_name system build basepath desttype n st)
  shown_name-IsShown n st some_size bits short = elim (Bool-cases (is_converted st)) [
    | inr other ↦ subst (IsShown n st) (sym (shown_name-kept n st other)) (IsShown.kept other)
    | inl file ↦
        let cut = λ (n' : Text). shown_name-converted n n' st some_size bits file in
        elim (last_split b'.' n) [
          | inl lacks ↦
              subst (IsShown n st) (sym (cut n (convert_extension-Lacks build desttype n lacks)))
                (IsShown.bare file lacks)
          | inr (stem, ext, split, lacks) ↦
              let len : length stem < 2 ^ 63 =
                omega (arith, ap length split, length-append stem (b'.' ∷ ext)) in
              elim (Bool-cases (has_decoder build ext)) [
                | inl dec ↦
                    subst (IsShown n st)
                      (sym (
                        cut (stem ++ b'.' ∷ desttype) (
                          ap (convert_extension build desttype) split
                          ∙ convert_extension-decoder build desttype stem ext lacks len dec)))
                      (IsShown.renamed stem ext file split lacks dec)
                | inr no_dec ↦
                    subst (IsShown n st)
                      (sym (
                        cut n (
                          ap (convert_extension build desttype) split
                          ∙ (convert_extension-unknown build desttype stem ext lacks len no_dec
                              ∙ sym split))))
                      (IsShown.unknown stem ext file split lacks no_dec)
              ]
        ]
  ]

  -- A plain file with a decoder is shown with the target extension, where that name fits.
  pub shown_name-decoder :
      (stem ext : Text) (st : Stat)
      → Lacks b'.' ext
      → length stem < 2 ^ 62
      → length stem + 1 + length desttype < name_size
      → name_size < word
      → has_decoder build ext ≡ true
      → s_isreg st.st_mode ≡ true
      → shown_name system build basepath desttype (stem ++ b'.' ∷ ext) st ≡ stem ++ b'.' ∷ desttype
  unfolding shown_name
  shown_name-decoder stem ext st ext_dot short fits name_bits dec regular =
      let renamed = convert_extension-decoder build desttype stem ext ext_dot (omega arith) dec in
      let name_len = length-append stem (b'.' ∷ desttype) in
      ground (
        arith,
        renamed,
        regular,
        take_all (sub64 name_size 1) (stem ++ b'.' ∷ desttype) (omega (arith, name_len)),
      )
