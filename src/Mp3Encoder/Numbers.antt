-- ===== src/Mp3Encoder/Numbers.antt =====
-- src/codecs/mp3_encoder.cc: the track number and total, which share a frame.
use mathlib.Core.Bool.{false≢true}
use mathlib.Core.List.{append_assoc, append-nil}
use mp3fs.Prelude.{
  ◌≡◌, ◌≢◌, refl, sym, ◌∙◌, ◌⊎◌, inl, inr, Bool, true, false, ◌&&◌, not, List, [], ◌∷◌, ◌++◌, none,
  some, arith, if◌then◌else◌, Text, text_eq, text_eq_iff, codes, Bool-cases,
}
use mp3fs.Metadata.{
  Metatag, title, artist, album, genre, date, composer, performer, copyright, encodedby,
  organization, conductor, albumartist, tracknumber, tracktotal, discnumber, disctotal, encoder,
  tracklength,
}
use mp3fs.Mp3Encoder.{Id3}
use mp3fs.Mp3Encoder.Tags.{frame_name, numbering, track_frame, disc_frame, text_before, set_tag}
use mp3fs.Mp3Encoder.FrameTexts.{Id3Laws, text_before-set_number, text_before-addstring}

differ : (s t : Text) → text_eq s t ≡ false → s ≢ t
differ s t h e = false≢true (sym h ∙ (text_eq_iff s t).1 e)

-- A tag with a frame of its own, which no number shares.
record Plain (key : Metatag) : Type 0 where
  name : Text
  named : frame_name key ≡ some name
  no_track : name ≢ track_frame
  no_disc : name ≢ disc_frame
  no_number : numbering key ≡ none

frame_name-Plain :
    (key : Metatag) (name : Text)
    → frame_name key ≡ some name
    → text_eq name track_frame ≡ false
    → text_eq name disc_frame ≡ false
    → numbering key ≡ none
    → Plain key
frame_name-Plain key name named t d n = record {
  name = name;
  named = named;
  no_track = differ name track_frame t;
  no_disc = differ name disc_frame d;
  no_number = n;
}

-- A number or a total.
record Numbered (key : Metatag) : Type 0 where
  frame : Text
  in_front : Bool
  unnamed : frame_name key ≡ none
  number : numbering key ≡ some (frame, in_front)

key_cases : (key : Metatag) → Plain key ⊎ Numbered key
unfolding frame_name numbering text_eq
key_cases title = inl (frame_name-Plain title _ refl refl refl refl)
key_cases artist = inl (frame_name-Plain artist _ refl refl refl refl)
key_cases album = inl (frame_name-Plain album _ refl refl refl refl)
key_cases genre = inl (frame_name-Plain genre _ refl refl refl refl)
key_cases date = inl (frame_name-Plain date _ refl refl refl refl)
key_cases composer = inl (frame_name-Plain composer _ refl refl refl refl)
key_cases performer = inl (frame_name-Plain performer _ refl refl refl refl)
key_cases copyright = inl (frame_name-Plain copyright _ refl refl refl refl)
key_cases encodedby = inl (frame_name-Plain encodedby _ refl refl refl refl)
key_cases organization = inl (frame_name-Plain organization _ refl refl refl refl)
key_cases conductor = inl (frame_name-Plain conductor _ refl refl refl refl)
key_cases albumartist = inl (frame_name-Plain albumartist _ refl refl refl refl)
key_cases encoder = inl (frame_name-Plain encoder _ refl refl refl refl)
key_cases tracklength = inl (frame_name-Plain tracklength _ refl refl refl refl)
key_cases tracknumber =
    inr (record { frame = track_frame; in_front = true; unnamed = refl; number = refl })
key_cases tracktotal =
    inr (record { frame = track_frame; in_front = false; unnamed = refl; number = refl })
key_cases discnumber =
    inr (record { frame = disc_frame; in_front = true; unnamed = refl; number = refl })
key_cases disctotal =
    inr (record { frame = disc_frame; in_front = false; unnamed = refl; number = refl })

-- The tag puts its value into this frame, in front or behind.
unfoldable stands : Text → Bool → Metatag → Bool
stands frame in_front key = elim (numbering key) [
  | none ↦ false
  | some (name, b) ↦ text_eq name frame && (if in_front then b else not b)
]

-- The number that goes to the front of the frame, TRCK for tracks and TPOS for discs.
unfoldable pub is_number : Text → Metatag → Bool
is_number frame tracknumber = text_eq (codes "TRCK") frame
is_number frame discnumber = text_eq (codes "TPOS") frame
is_number frame _ = false

-- The total that goes to its end.
unfoldable pub is_total : Text → Metatag → Bool
is_total frame tracktotal = text_eq (codes "TRCK") frame
is_total frame disctotal = text_eq (codes "TPOS") frame
is_total frame _ = false

stands-is_number : (frame : Text) (key : Metatag) → stands frame true key ≡ is_number frame key
unfolding stands numbering is_number
stands-is_number frame title = refl
stands-is_number frame artist = refl
stands-is_number frame album = refl
stands-is_number frame genre = refl
stands-is_number frame date = refl
stands-is_number frame composer = refl
stands-is_number frame performer = refl
stands-is_number frame copyright = refl
stands-is_number frame encodedby = refl
stands-is_number frame organization = refl
stands-is_number frame conductor = refl
stands-is_number frame albumartist = refl
stands-is_number frame tracknumber = ground arith
stands-is_number frame tracktotal = ground arith
stands-is_number frame discnumber = ground arith
stands-is_number frame disctotal = ground arith
stands-is_number frame encoder = refl
stands-is_number frame tracklength = refl

stands-is_total : (frame : Text) (key : Metatag) → stands frame false key ≡ is_total frame key
unfolding stands numbering is_total
stands-is_total frame title = refl
stands-is_total frame artist = refl
stands-is_total frame album = refl
stands-is_total frame genre = refl
stands-is_total frame date = refl
stands-is_total frame composer = refl
stands-is_total frame performer = refl
stands-is_total frame copyright = refl
stands-is_total frame encodedby = refl
stands-is_total frame organization = refl
stands-is_total frame conductor = refl
stands-is_total frame albumartist = refl
stands-is_total frame tracknumber = ground arith
stands-is_total frame tracktotal = ground arith
stands-is_total frame discnumber = ground arith
stands-is_total frame disctotal = ground arith
stands-is_total frame encoder = refl
stands-is_total frame tracklength = refl

-- The values for the front of a frame, the last one first.
pub numbers : Text → List (Metatag × Text) → Text
numbers frame [] = []
numbers frame ((key, value) ∷ calls) =
    let rest = numbers frame calls in if is_number frame key then rest ++ value else rest

-- The values for its end, the first one first, each behind a slash.
pub totals : Text → List (Metatag × Text) → Text
totals frame [] = []
totals frame ((key, value) ∷ calls) =
    let rest = totals frame calls in
    if is_total frame key then (codes "/" ++ value) ++ rest else rest

module _ (id3 : Id3) (laws : Id3Laws id3) where
  -- Calls of `set_text_tag`, in order.
  abbrev pub set_all : id3.Tag → List (Metatag × Text) → id3.Tag
  set_all tag [] = tag
  set_all tag ((key, value) ∷ calls) = set_all (set_tag id3 tag key value) calls

  set_tag-text_before :
      (tag : id3.Tag) (key : Metatag) (value frame : Text)
      → (frame ≡ track_frame) ⊎ (frame ≡ disc_frame)
      → text_before id3 (set_tag id3 tag key value) frame ≡ (
          if stands frame true key
          then value ++ text_before id3 tag frame
          else (if stands frame false key
              then text_before id3 tag frame ++ (codes "/" ++ value)
              else text_before id3 tag frame))
  unfolding set_tag stands
  set_tag-text_before tag key value frame which = elim (key_cases key) [
    | inl p ↦
        let ne : p.name ≢ frame =
          λ same. elim which [ inl t ↦ p.no_track (same ∙ t) | inr d ↦ p.no_disc (same ∙ d) ] in
        let kept = text_before-addstring id3 laws tag p.name frame (id3.utf8_ucs4 value) ne in
        ground (arith, p.named, p.no_number, kept)
    | inr p ↦
        let set = text_before-set_number id3 laws tag p.frame frame p.in_front value in
        ground (arith, p.unnamed, p.number, set, text_eq_iff p.frame frame)
  ]

  stood_once :
      (frame : Text) (key : Metatag) → stands frame true key ≡ true → stands frame false key ≡ false
  unfolding stands
  stood_once frame key h = ground arith

  stands_once :
      (frame : Text) (key : Metatag) → is_number frame key ≡ true → is_total frame key ≡ false
  stands_once frame key h =
      sym (stands-is_total frame key) ∙ stood_once frame key (stands-is_number frame key ∙ h)

  set_tag-placed :
      (tag : id3.Tag) (key : Metatag) (value frame : Text)
      → (frame ≡ track_frame) ⊎ (frame ≡ disc_frame)
      → text_before id3 (set_tag id3 tag key value) frame ≡ (
          if is_number frame key
          then value ++ text_before id3 tag frame
          else (if is_total frame key
              then text_before id3 tag frame ++ (codes "/" ++ value)
              else text_before id3 tag frame))
  set_tag-placed tag key value frame which =
      rw (← stands-is_number frame key, ← stands-is_total frame key)
        (set_tag-text_before tag key value frame which)

  -- After any calls of `set_text_tag` the frame TRCK has the track numbers, and the frame TPOS the
  -- disc numbers, in front of what it had, the last one first, and the track totals, or the disc
  -- totals, behind it, each with a slash, in whatever order these and other tags have come.
  pub set_all-text_before :
      (tag : id3.Tag) (calls : List (Metatag × Text)) (frame : Text)
      → (frame ≡ codes "TRCK") ⊎ (frame ≡ codes "TPOS")
      → text_before id3 (set_all tag calls) frame
        ≡ numbers frame calls ++ (text_before id3 tag frame ++ totals frame calls)
  unfolding numbers totals
  set_all-text_before tag [] frame which = sym (append-nil (text_before id3 tag frame))
  set_all-text_before tag ((key, value) ∷ calls) frame which =
      let step = set_tag-placed tag key value frame which in
      let ih = set_all-text_before (set_tag id3 tag key value) calls frame which in
      elim (Bool-cases (is_number frame key)) [
        | inl front ↦
            let first : text_before id3 (set_tag id3 tag key value) frame
                ≡ value ++ text_before id3 tag frame =
              ground (arith, step) in
            rw (front, stands_once frame key front) (rw first at ih ∙ simp append_assoc)
        | inr no_front ↦ elim (Bool-cases (is_total frame key)) [
          | inl behind ↦
              let last : text_before id3 (set_tag id3 tag key value) frame
                  ≡ text_before id3 tag frame ++ (codes "/" ++ value) =
                ground (arith, step) in
              rw (no_front, behind) (rw last at ih ∙ simp append_assoc)
          | inr no_end ↦
              let same : text_before id3 (set_tag id3 tag key value) frame
                  ≡ text_before id3 tag frame =
                ground (arith, step) in
              rw (no_front, no_end) (rw same at ih)
        ]
      ]
