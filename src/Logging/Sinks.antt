-- ===== src/Logging/Sinks.antt =====
-- src/logging.cc: the lines that a message writes, and the names of the levels.
use mp3fs.Prelude.{
  c_str, true, ◌⊎◌, codes, ◌≡◌, ap, sym, List, [], ◌∷◌, Option, none, some, Text, text_eq,
}
use mp3fs.Logging.{
  Level, invalid, error, info, debug, string_to_level, level_name, Logging, Sink, to_syslog_at,
  to_file, to_clog,
}

-- A line stands in a list of lines.
abbrev pub Listed : Sink × Text → List (Sink × Text) → Type 0
Listed x [] = ⊥
Listed x (y ∷ ys) = (x ≡ y) ⊎ Listed x ys

-- The line goes to this sink: to syslog, up to its first zero, to the file of the log if one is
-- open, and to the standard error stream, each if it is on.
abbrev pub IsWritten : Logging → Level → Text → Sink × Text → Type 0
IsWritten logging loglevel line x =
    ((logging.to_syslog ≡ true) × (x ≡ (to_syslog_at loglevel, c_str line)))
    ⊎ ((file : Text) × (logging.logfile ≡ some file) × (x ≡ (to_file file, line)))
    ⊎ ((logging.to_stderr ≡ true) × (x ≡ (to_clog, line)))

file_lines : Option Text → Text → List (Sink × Text)
file_lines none line = []
file_lines (some file) line = (to_file file, line) ∷ []

-- The name of a level in the log.
abbrev pub IsNamed : Level → Text → Type 0
IsNamed error name = name ≡ codes "ERROR"
IsNamed info name = name ≡ codes "INFO"
IsNamed debug name = name ≡ codes "DEBUG"
IsNamed invalid name = ⊥

-- The level of a name, if there is one.
abbrev read_name : Level → Option Text → Level
read_name level none = level
read_name level (some name) = string_to_level name

-- The name of a level is read back as that level.
pub string_to_level-level_name :
    (level : Level) (name : Text) → level_name level ≡ some name → string_to_level name ≡ level
unfolding string_to_level level_name text_eq
string_to_level-level_name invalid name h = cc
string_to_level-level_name error name h = sym (ap (read_name error) h)
string_to_level-level_name info name h = sym (ap (read_name info) h)
string_to_level-level_name debug name h = sym (ap (read_name debug) h)
