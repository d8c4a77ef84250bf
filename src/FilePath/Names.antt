-- ===== src/FilePath/Names.antt =====
-- src/path.cc and src/fuseops.cc: the names that a directory listing shows, and the files that
-- they lead back to.
use mathlib.Core.List.{append_assoc}
use mp3fs.Prelude.{
  ◌+◌, ◌^◌, ◌<◌, ◌≡◌, ◌≢◌, refl, ap, sym, ◌∙◌, true, List, [], ◌∷◌, ◌++◌, Option, some, arith,
  add64, sub64, length, take, drop, length-append, take-append_left, Text, text_eq_iff, rfind,
  Lacks, rfind-append,
}
use mp3fs.Coders.{Build}
use mp3fs.FilePath.{
  FilePath, has_decoder, convert_extension, normal_source, is_source, first_source, search_dir,
  transcode_source,
}
use mp3fs.FilePath.Sources.{
  Among, AreShort, IsCandidate, convert_extension-decoder, take-append_suc, drop-append_suc,
  Lacks-append, is_source_prefix, first_source_hit, short-Among, is_source-IsCandidate,
}

module _ (build : Build) (basepath desttype dir stem : Text) (opendir : Text → Option (List Text))
    (path : FilePath) (names : List Text)
    (is_path : normal_source basepath path ≡ dir ++ b'/' ∷ (stem ++ b'.' ∷ desttype))
    (dot_free : Lacks b'.' desttype) (dest_slash_free : Lacks b'/' desttype)
    (stem_slash_free : Lacks b'/' stem) (short : length dir + length stem < 2 ^ 62)
    (listing : opendir dir ≡ some names) where
  transcode_source_lem :
      transcode_source build basepath desttype opendir path
      ≡ search_dir build
          (dir ++ b'/' ∷ (stem ++ b'.' ∷ desttype))
          dir
          (stem ++ b'.' ∷ [])
          (some names)
  unfolding transcode_source
  transcode_source_lem =
      rw
        (
          is_path,
          dot,
          slash,
          front,
          tail,
          minus,
          plus,
          rest,
          base,
          (text_eq_iff desttype desttype).1 refl,
          listing,
        )
        (ground arith)
    where
      source : Text
      source = dir ++ b'/' ∷ (stem ++ b'.' ∷ desttype)

      dot : rfind b'.' source ≡ length dir + 1 + length stem
      dot =
          let whole : source ≡ (dir ++ b'/' ∷ stem) ++ b'.' ∷ desttype =
            sym (append_assoc dir (b'/' ∷ stem) (b'.' ∷ desttype)) in
          let len = length-append dir (b'/' ∷ stem) in
          rw whole (
            rfind-append b'.' (dir ++ b'/' ∷ stem) desttype dot_free (omega (arith, len))
            ∙ omega (arith, len))

      slash : rfind b'/' source ≡ length dir
      slash =
          rfind-append b'/' dir (stem ++ b'.' ∷ desttype)
            (Lacks-append b'/' stem (b'.' ∷ desttype) stem_slash_free
              (omega arith, dest_slash_free))
            (omega arith)

      front : take (length dir) source ≡ dir
      front = take-append_left dir _

      tail : drop (length dir + 1 + length stem + 1) source ≡ desttype
      tail =
          let whole : source ≡ (dir ++ b'/' ∷ stem) ++ b'.' ∷ desttype =
            sym (append_assoc dir (b'/' ∷ stem) (b'.' ∷ desttype)) in
          let len : length dir + 1 + length stem ≡ length (dir ++ b'/' ∷ stem) =
            omega (arith, length-append dir (b'/' ∷ stem)) in
          rw (whole, len) (drop-append_suc (dir ++ b'/' ∷ stem) b'.' desttype)

      minus : sub64 (length dir + 1 + length stem) (length dir) ≡ length stem + 1
      minus = omega arith

      plus : add64 (length dir) 1 ≡ length dir + 1
      plus = omega arith

      rest : drop (length dir + 1) source ≡ stem ++ b'.' ∷ desttype
      rest = drop-append_suc dir b'/' _

      base : take (length stem + 1) (stem ++ b'.' ∷ desttype) ≡ stem ++ b'.' ∷ []
      base = take-append_suc stem b'.' desttype

  module _ (ext : Text) (ext_dot_free : Lacks b'.' ext)
      (decodable : has_decoder build ext ≡ true) where
    -- Where the directory has a file with the stem of the path and an extension that has a decoder,
    -- and its names are shorter than 2 ^ 62, the path leads to a file of the directory whose name
    -- starts with the stem and a dot and has a decoder for what follows its last dot.
    pub transcode_source-listed :
        AreShort names
        → Among (stem ++ b'.' ∷ ext) names
        → (m : Text) × (transcode_source build basepath desttype opendir path
            ≡ some (dir ++ b'/' ∷ m))
          × Among m names
          × IsCandidate build stem m
    unfolding search_dir
    transcode_source-listed lengths i =
        let (m, e, j, s) = first_source_hit build (stem ++ b'.' ∷ []) (stem ++ b'.' ∷ ext) names i (
          is_source_prefix build stem ext ext (length stem)
            (rfind-append b'.' stem ext ext_dot_free (omega arith)) (omega arith)
            (drop-append_suc stem b'.' ext) decodable) in
        (
          m,
          transcode_source_lem ∙ (rw (e, search_dir)),
          j,
          is_source-IsCandidate build stem m (short-Among m names lengths j) s,
        )

    -- The file need not be one that is listed as the path: where the directory has `stem.mid.ext`
    -- in front, `stem.desttype` leads to it, though it is listed under another name.
    pub transcode_source_shadowed :
        (mid : Text) (others : List Text)
        → length mid < 2 ^ 62
        → names ≡ (stem ++ b'.' ∷ (mid ++ b'.' ∷ ext)) ∷ others
        → (transcode_source build basepath desttype opendir path
            ≡ some (dir ++ b'/' ∷ (stem ++ b'.' ∷ (mid ++ b'.' ∷ ext))))
          × (convert_extension build desttype (stem ++ b'.' ∷ (mid ++ b'.' ∷ ext))
              ≢ stem ++ b'.' ∷ desttype)
    unfolding search_dir first_source
    transcode_source_shadowed mid others l e = (transcode_source_lem ∙ found, other_name)
      where
        long : Text
        long = stem ++ b'.' ∷ mid

        whole : stem ++ b'.' ∷ (mid ++ b'.' ∷ ext) ≡ long ++ b'.' ∷ ext
        whole = sym (append_assoc stem (b'.' ∷ mid) (b'.' ∷ ext))

        size : length long ≡ length stem + 1 + length mid
        size = omega (arith, length-append stem (b'.' ∷ mid))

        at_dot : rfind b'.' (stem ++ b'.' ∷ (mid ++ b'.' ∷ ext)) ≡ length long
        at_dot = rw whole (rfind-append b'.' long ext ext_dot_free (omega (arith, size)))

        hit : is_source build (stem ++ b'.' ∷ []) (stem ++ b'.' ∷ (mid ++ b'.' ∷ ext)) ≡ true
        hit =
            is_source_prefix build stem (mid ++ b'.' ∷ ext) ext (length long) at_dot
              (omega (arith, size)) (rw whole (drop-append_suc long b'.' ext)) decodable

        found :
            search_dir build
              (dir ++ b'/' ∷ (stem ++ b'.' ∷ desttype))
              dir
              (stem ++ b'.' ∷ [])
              (some names)
            ≡ some (dir ++ b'/' ∷ (stem ++ b'.' ∷ (mid ++ b'.' ∷ ext)))
        found = rw e (ground (arith, hit))

        other_name :
            convert_extension build desttype (stem ++ b'.' ∷ (mid ++ b'.' ∷ ext))
            ≢ stem ++ b'.' ∷ desttype
        other_name q =
            let converted =
              convert_extension-decoder build desttype long ext ext_dot_free (omega (arith, size))
                decodable in
            let same : long ++ b'.' ∷ desttype ≡ stem ++ b'.' ∷ desttype =
              sym converted ∙ (ap (convert_extension build desttype) (sym whole) ∙ q) in
            omega (
              arith,
              ap length same,
              length-append long (b'.' ∷ desttype),
              length-append stem (b'.' ∷ desttype),
              size,
            )
