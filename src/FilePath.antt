-- ===== src/FilePath.antt =====
-- src/path.h, src/path.cc and `convert_extension` of src/fuseops.cc: names in the mount and names
-- in the music directory.
pub mod Names
pub mod Sources
use mp3fs.Prelude.{
  ℕ, ◌+◌, Bool, true, false, ◌&&◌, not, List, [], ◌∷◌, ◌++◌, Option, none, some, ◌==◌,
  if◌then◌else◌, add64, sub64, take, drop, Text, text_eq, codes, npos, rfind, starts_with,
}
use mp3fs.Coders.{Build, DecoderClass, create_decoder}

-- `CreateDecoder(file_type) != nullptr`.
unfoldable pub has_decoder : Build → Text → Bool
unfolding create_decoder
has_decoder build file_type = elim (create_decoder build file_type) [ none ↦ false | some _ ↦ true ]

unfoldable pub convert_extension : Build → Text → Text → Text
convert_extension build desttype path =
    let ext_pos = rfind b'.' path in
    if not (ext_pos == npos) && has_decoder build (drop (ext_pos + 1) path)
    then take (ext_pos + 1) path ++ desttype
    else path

-- `Path`: the path inside the mount.
pub record FilePath : Type 0 where
  pub relative_path : Text

unfoldable pub normal_source : Text → FilePath → Text
normal_source basepath path = basepath ++ path.relative_path

-- A name that the loop of `transcode_source` takes.
unfoldable pub is_source : Build → Text → Text → Bool
is_source build source_base de_name =
    starts_with source_base de_name
    && has_decoder build (drop (add64 (rfind b'.' de_name) 1) de_name)

-- The loop over the directory: the first such name.
unfoldable pub first_source : Build → Text → List Text → Option Text
first_source build source_base [] = none
first_source build source_base (de_name ∷ names) =
    if is_source build source_base de_name
    then some de_name
    else first_source build source_base names

-- The search of the directory. `none`: `readdir` is called on the null pointer that a failed
-- `opendir` returned.
unfoldable pub search_dir : Build → Text → Text → Text → Option (List Text) → Option Text
search_dir build source source_dir source_base none = none
search_dir build source source_dir source_base (some names) =
    elim (first_source build source_base names) [
      | none ↦ some source
      | some de_name ↦ some (source_dir ++ (codes "/" ++ de_name))
    ]

-- `opendir` is given by the names that `readdir` would return, in order.
unfoldable pub transcode_source :
    Build → Text → Text → (Text → Option (List Text)) → FilePath → Option Text
unfolding search_dir
transcode_source build basepath desttype opendir path =
    let source = normal_source basepath path in
    let dot_idx = rfind b'.' source in
    let slash_idx = rfind b'/' source in
    let source_dir = take slash_idx source in
    let source_base = take (sub64 dot_idx slash_idx) (drop (add64 slash_idx 1) source) in
    if not (dot_idx == npos) && text_eq (drop (dot_idx + 1) source) desttype
    then search_dir build source source_dir source_base (opendir source_dir)
    else some source
