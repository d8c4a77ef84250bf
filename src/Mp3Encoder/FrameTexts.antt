-- ===== src/Mp3Encoder/FrameTexts.antt =====
-- src/codecs/mp3_encoder.cc: the text of a frame after a tag or a number is set. libid3tag is a
-- parameter.
use mp3fs.Prelude.{
  ◌≡◌, ◌≢◌, ◌∙◌, inl, inr, Bool, true, ◌++◌, arith, if◌then◌else◌, Text, text_eq, text_eq_iff,
  codes, Bool-cases,
}
use mp3fs.Mp3Encoder.{Id3}
use mp3fs.Mp3Encoder.Tags.{find_or_attach, text_before, set_number}

-- What libid3tag does with frames of other names, and with the first frame of a name.
pub record Id3Laws (id3 : Id3) : Type 0 where
  pub has-attach :
      (tag : id3.Tag) (name other : Text)
      → id3.has_frame (id3.attach tag name) other
        ≡ (if text_eq name other then true else id3.has_frame tag other)
  pub get-attach :
      (tag : id3.Tag) (name other : Text)
      → name ≢ other
      → id3.getstring (id3.attach tag name) other ≡ id3.getstring tag other
  pub has-add :
      (tag : id3.Tag) (name other : Text) (s : id3.Ucs4)
      → id3.has_frame tag name ≡ true
      → id3.has_frame (id3.addstring tag name s) other ≡ id3.has_frame tag other
  pub get-add :
      (tag : id3.Tag) (name other : Text) (s : id3.Ucs4)
      → name ≢ other
      → id3.getstring (id3.addstring tag name s) other ≡ id3.getstring tag other
  pub has-set :
      (tag : id3.Tag) (name other : Text) (s : id3.Ucs4)
      → id3.has_frame tag name ≡ true
      → id3.has_frame (id3.setstring tag name s) other ≡ id3.has_frame tag other
  pub get-set :
      (tag : id3.Tag) (name other : Text) (s : id3.Ucs4)
      → id3.has_frame tag name ≡ true
      → id3.getstring (id3.setstring tag name s) other
        ≡ (if text_eq name other then s else id3.getstring tag other)
  pub latin1_lem : (s : Text) → id3.ucs4_latin1 (id3.latin1_ucs4 s) ≡ s

module _ (id3 : Id3) (laws : Id3Laws id3) where
  open id3 use {Tag, has_frame, getstring, latin1_ucs4, ucs4_latin1}

  find_or_attach-has :
      (tag : Tag) (name : Text) → has_frame (find_or_attach id3 tag name) name ≡ true
  unfolding find_or_attach
  find_or_attach-has tag name = ground (arith, laws.has-attach tag name name, text_eq_iff name name)

  text_before-attach :
      (tag : Tag) (name other : Text)
      → name ≢ other
      → text_before id3 (find_or_attach id3 tag name) other ≡ text_before id3 tag other
  unfolding find_or_attach text_before
  text_before-attach tag name other ne = ground (
    arith,
    laws.has-attach tag name other,
    laws.get-attach tag name other,
    text_eq_iff name other,
  )

  text_before-setstring :
      (tag : Tag) (name other : Text) (s : id3.Ucs4)
      → has_frame tag name ≡ true
      → text_before id3 (id3.setstring tag name s) other
        ≡ (if text_eq name other then ucs4_latin1 s else text_before id3 tag other)
  unfolding text_before
  text_before-setstring tag name other s has = ground (
    arith,
    laws.has-set tag name other s has,
    laws.get-set tag name other s has,
    text_eq_iff name other,
  )

  -- The text that a number or a total leaves in its frame.
  abbrev pub after : Bool → Text → Text → Text
  after in_front value lat = if in_front then value ++ lat else lat ++ (codes "/" ++ value)

  -- The number or the total is set in its frame, and no other frame changes.
  pub text_before-set_number :
      (tag : Tag) (name other : Text) (in_front : Bool) (value : Text)
      → text_before id3 (set_number id3 tag name in_front value) other ≡ (
          if text_eq name other
          then after in_front value (text_before id3 tag name)
          else text_before id3 tag other)
  unfolding set_number
  text_before-set_number tag name other in_front value =
      let t = find_or_attach id3 tag name in
      let s = after in_front value (text_before id3 tag name) in
      let set = text_before-setstring t name other (latin1_ucs4 s) (find_or_attach-has tag name) in
      elim (Bool-cases (text_eq name other)) [
        | inl same ↦ ground (arith, set, laws.latin1_lem s)
        | inr ne ↦
            let kept =
              text_before-attach tag name other (λ e. ground (arith, text_eq_iff name other)) in
            ground (arith, set, kept)
      ]

  pub text_before-addstring :
      (tag : Tag) (name other : Text) (s : id3.Ucs4)
      → name ≢ other
      → text_before id3 (id3.addstring (find_or_attach id3 tag name) name s) other
        ≡ text_before id3 tag other
  unfolding text_before
  text_before-addstring tag name other s ne =
      added (find_or_attach id3 tag name) name other s ne (find_or_attach-has tag name)
      ∙ text_before-attach tag name other ne
    where
      added :
          (t : Tag) (name other : Text) (s : id3.Ucs4)
          → name ≢ other
          → has_frame t name ≡ true
          → text_before id3 (id3.addstring t name s) other ≡ text_before id3 t other
      added t name other s ne has =
          ground (arith, laws.has-add t name other s has, laws.get-add t name other s ne)
