-- ===== src/Logging.antt =====
-- src/logging.h and src/logging.cc: the levels, the substitution in the format of the log, and
-- where a message goes.
pub mod Format
pub mod Sinks
use mp3fs.Prelude.{
  c_str, ℕ, zero, suc, ◌+◌, Bool, true, false, ◌&&◌, not, List, [], ◌∷◌, ◌++◌, map, Option, none,
  some, ltb, ◌==◌, if◌then◌else◌, length, drop, Text, text_eq, codes,
}

-- `Logging::Level`.
pub data Level : Type 0 where
  invalid error info debug : Level

-- The value of the enumeration.
unfoldable pub rank : Level → ℕ
rank invalid = 0
rank error = 1
rank info = 2
rank debug = 3

unfoldable pub string_to_level : Text → Level
string_to_level level =
    if text_eq level (codes "DEBUG")
    then debug
    else (if text_eq level (codes "INFO")
        then info
        else (if text_eq level (codes "ERROR") then error else invalid))

-- `kLevelNameMap.at`; `none`: it throws.
unfoldable pub level_name : Level → Option Text
level_name invalid = none
level_name error = some (codes "ERROR")
level_name info = some (codes "INFO")
level_name debug = some (codes "DEBUG")

-- `std::equal` of a key with the text from the place on; `none`: it reads behind the text.
unfoldable pub equal : Text → Text → Option Bool
equal [] s = some true
equal (k ∷ key) [] = none
equal (k ∷ key) (x ∷ s) = let rest = equal key s in if k == x then rest else some false

-- The loop over the substitutions, in the order of the map: the first key that stands here.
unfoldable pub first_match : List (Text × Text) → Text → Option (Option (Text × Text))
first_match [] s = some none
first_match ((key, value) ∷ subs) s =
    let rest = first_match subs s in
    elim (equal key s) [
      | none ↦ none
      | some found ↦ if found then some (some (key, value)) else rest
    ]

-- The text that is written, a read behind the format, or the fuel has run out.
pub data Substitution : Type 0 where
  written : Text → Substitution
  fault : Substitution
  looping : Substitution

unfoldable pub multi_substitute : ℕ → List (Text × Text) → Text → Text → Substitution
multi_substitute fuel subs [] result = written result
multi_substitute zero subs (c ∷ s) result = looping
multi_substitute (suc fuel) subs (c ∷ s) result = elim (first_match subs (c ∷ s)) [
  | none ↦ fault
  | some none ↦ multi_substitute fuel subs s (result ++ (c ∷ []))
  | some (some (key, value)) ↦
      multi_substitute fuel subs (drop (length key) (c ∷ s)) (result ++ value)
]

-- The members of `Logging`; `logfile` is none if it is not open, and `failed` is what `fail` of its
-- stream returns.
pub record Logging : Type 0 where
  pub logfile : Option Text
  pub failed : Bool
  pub max_level : Level
  pub log_format : Text
  pub to_stderr : Bool
  pub to_syslog : Bool

-- `can_open` tells whether the file can be opened for writing.
unfoldable pub new : (Text → Bool) → Text → Level → Text → Bool → Bool → Logging
new can_open logfile max_level log_format to_stderr to_syslog =
    let opens = not (text_eq logfile []) && can_open logfile in
    record {
      logfile = if opens then some logfile else none;
      failed = not (text_eq logfile []) && not (can_open logfile);
      max_level = max_level;
      log_format = log_format;
      to_stderr = to_stderr;
      to_syslog = to_syslog;
    }

-- The global pointer `logging` that it leaves, and its result.
unfoldable pub init_logging :
    (Text → Bool) → Option Logging → Text → Level → Text → Bool → Bool → Option Logging × Bool
unfolding new
init_logging can_open logging logfile invalid log_format to_stderr to_syslog = (logging, false)
init_logging can_open logging logfile max_level log_format to_stderr to_syslog =
    let made = new can_open logfile max_level log_format to_stderr to_syslog in
    (some made, not made.failed)

-- Where a line goes.
pub data Sink : Type 0 where
  to_syslog_at : Level → Sink
  to_file : Text → Sink
  to_clog : Sink

-- The lines that the destructor of a logger writes. `thrown`: it throws on the invalid level;
-- `overrun` and `endless` are the bad ends of the substitution.
pub data Emitted : Type 0 where
  emitted : List (Sink × Text) → Emitted
  thrown overrun endless : Emitted

unfoldable pub write_sinks : Logging → Level → Text → List (Sink × Text)
write_sinks logging loglevel msg =
    (if logging.to_syslog then (to_syslog_at loglevel, c_str msg) ∷ [] else [])
    ++ (elim logging.logfile as (λ _. List (Sink × Text)) [
      | none ↦ []
      | some file ↦ (to_file file, msg) ∷ []
    ]
        ++ (if logging.to_stderr then (to_clog, msg) ∷ [] else []))

-- `%` and the letter.
abbrev pub key_of : ℕ × Text → Text × Text
key_of (letter, value) = (b'%' ∷ letter ∷ [], value)

-- The substitutions by their letters.
abbrev pub letters : Text → Text → Text → Text → List (ℕ × Text)
letters time_string tid name msg =
    (b'T', time_string) ∷ (b'I', tid) ∷ (b'L', name) ∷ (b'M', msg) ∷ []

-- `reorder` is the order in which the unordered map goes through its entries.
unfoldable pub emit :
    (List (ℕ × Text) → List (ℕ × Text)) → Option Logging → Level → Text → Text → Text → Emitted
unfolding write_sinks
emit reorder none loglevel time_string tid msg = emitted []
emit reorder (some logging) loglevel time_string tid msg =
    if ltb (rank logging.max_level) (rank loglevel)
    then emitted []
    else elim (level_name loglevel) [
      | none ↦ thrown
      | some name ↦
          elim (multi_substitute (length logging.log_format)
            (map key_of (reorder (letters time_string tid name msg))) logging.log_format []) [
              | written line ↦ emitted (write_sinks logging loglevel line)
              | fault ↦ overrun
              | looping ↦ endless
            ]
    ]

-- `formatted` is what `vsnprintf` makes of the format and its arguments.
unfoldable pub log_with_level :
    (List (ℕ × Text) → List (ℕ × Text))
    → Option Logging
    → Level
    → Text
    → Text
    → Text
    → Text
    → Emitted
log_with_level reorder logging level prefix formatted time_string tid =
    emit reorder logging level time_string tid (prefix ++ formatted)
