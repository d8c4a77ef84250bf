-- ===== src/Tests/Tags.antt =====
-- src/codecs/mp3_encoder.cc: the numbers of a tag that is a list of what was set.
use mp3fs.Prelude.{
  ◌≡◌, ◌≢◌, refl, inl, true, List, [], ◌∷◌, ◌++◌, arith, if◌then◌else◌, Text, text_eq, text_eq_iff,
  codes,
}
use mp3fs.Metadata.{Metatag, title, tracknumber, tracktotal}
use mp3fs.Mp3Encoder.Tags.{track_frame, text_before}
use mp3fs.Mp3Encoder.FrameTexts.{Id3Laws}
use mp3fs.Mp3Encoder.Numbers.{set_all, numbers, totals, set_all-text_before}
use mp3fs.Tests.Codecs.{no_tags, text_of, has_name}

text_of-other :
    (tag : List (Text × Text)) (name other s : Text)
    → name ≢ other
    → text_of ((name, s) ∷ tag) other ≡ text_of tag other
unfolding text_of
text_of-other tag name other s ne = ground (arith, text_eq_iff name other)

has_name-again :
    (tag : List (Text × Text)) (name other s : Text)
    → has_name tag name ≡ true
    → has_name ((name, s) ∷ tag) other ≡ has_name tag other
unfolding has_name
has_name-again tag name other s has = ground (arith, text_eq_iff name other)

has_name-first :
    (tag : List (Text × Text)) (name other s : Text)
    → has_name ((name, s) ∷ tag) other ≡ (if text_eq name other then true else has_name tag other)
unfolding has_name
has_name-first tag name other s = refl

text_of-first :
    (tag : List (Text × Text)) (name other s : Text)
    → text_of ((name, s) ∷ tag) other ≡ (if text_eq name other then s else text_of tag other)
unfolding text_of
text_of-first tag name other s = refl

abbrev no_tags_laws : Id3Laws no_tags
no_tags_laws = record {
  has-attach = λ tag name other. has_name-first tag name other [];
  get-attach = λ tag name other ne. text_of-other tag name other [] ne;
  has-add = λ tag name other s has. has_name-again tag name other s has;
  get-add = λ tag name other s ne. text_of-other tag name other s ne;
  has-set = λ tag name other s has. has_name-again tag name other s has;
  get-set = λ tag name other s has. text_of-first tag name other s;
  latin1_lem = λ s. refl;
}

-- A total, a title, and then the number.
abbrev total_first : List (Metatag × Text)
total_first = (tracktotal, codes "12") ∷ (title, codes "Song") ∷ (tracknumber, codes "3") ∷ []

set_all-text_before_example :
    text_before no_tags (set_all no_tags no_tags_laws [] total_first) track_frame
    ≡ numbers track_frame total_first
      ++ (text_before no_tags [] track_frame ++ totals track_frame total_first)
set_all-text_before_example =
    set_all-text_before no_tags no_tags_laws [] total_first track_frame (inl refl)
