-- ===== src/CommandLine.antt =====
-- src/mp3fs.cc: the options, and the checks of `main` before the file system is mounted. The
-- parsing of the arguments is that of FUSE, a parameter.
pub mod Mounting
pub mod Arguments
use mp3fs.Prelude.{
  ℕ, ◌+◌, ◌^◌, Bool, true, false, ◌&&◌, ◌||◌, not, List, [], ◌∷◌, Option, none, some, ltb, leb,
  ◌==◌, if◌then◌else◌, Text, text_eq, codes,
}
use mp3fs.Params.{Params}
use mp3fs.Coders.{Build, create_encoder}
use mp3fs.Logging.{Level, Logging, string_to_level, init_logging}

-- The members that an option sets.
pub data Field : Type 0 where
  bitrate debug desttype gainmode gainref log_format log_maxlevel log_stderr log_syslog logfile
        quality statcachesize vbr :
      Field

-- The keys for `mp3fs_opt_proc`.
pub data Key : Type 0 where
  key_help key_version key_keep_opt key_nonopt key_opt : Key

-- What a template of the table does: it reads a value, sets a flag, or calls `mp3fs_opt_proc`.
pub data Target : Type 0 where
  reads : Field → Target
  flags : Field → Target
  calls : Key → Target

unfoldable pub mp3fs_opts : List (Text × Target)
mp3fs_opts =
    (codes "-b %d", reads bitrate)
    ∷ (codes "bitrate=%d", reads bitrate)
    ∷ (codes "-d", flags debug)
    ∷ (codes "debug", flags debug)
    ∷ (codes "--desttype=%s", reads desttype)
    ∷ (codes "desttype=%s", reads desttype)
    ∷ (codes "--gainmode=%d", reads gainmode)
    ∷ (codes "gainmode=%d", reads gainmode)
    ∷ (codes "--gainref=%f", reads gainref)
    ∷ (codes "gainref=%f", reads gainref)
    ∷ (codes "--log_format=%s", reads log_format)
    ∷ (codes "log_format=%s", reads log_format)
    ∷ (codes "--log_maxlevel=%s", reads log_maxlevel)
    ∷ (codes "log_maxlevel=%s", reads log_maxlevel)
    ∷ (codes "--log_stderr", flags log_stderr)
    ∷ (codes "log_stderr", flags log_stderr)
    ∷ (codes "--log_syslog", flags log_syslog)
    ∷ (codes "log_syslog", flags log_syslog)
    ∷ (codes "--logfile=%s", reads logfile)
    ∷ (codes "logfile=%s", reads logfile)
    ∷ (codes "--quality=%d", reads quality)
    ∷ (codes "quality=%d", reads quality)
    ∷ (codes "--statcachesize=%u", reads statcachesize)
    ∷ (codes "statcachesize=%u", reads statcachesize)
    ∷ (codes "--vbr", flags vbr)
    ∷ (codes "vbr", flags vbr)
    ∷ (codes "-h", calls key_help)
    ∷ (codes "--help", calls key_help)
    ∷ (codes "-V", calls key_version)
    ∷ (codes "--version", calls key_version)
    ∷ (codes "-d", calls key_keep_opt)
    ∷ (codes "debug", calls key_keep_opt)
    ∷ []

-- The value that FUSE has read: a number, by its 32-bit pattern, or a text.
pub data Value : Type 0 where
  number : ℕ → Value
  text : Text → Value

-- What is written to a member; a value of the wrong kind is never read for it.
unfoldable pub set_field : Field → Value → Params → Params
set_field bitrate (number n) p = record p { bitrate = n }
set_field debug (number n) p = record p { debug = n }
set_field desttype (text s) p = record p { desttype = s }
set_field gainmode (number n) p = record p { gainmode = n }
set_field gainref (number n) p = record p { gainref = n }
set_field log_format (text s) p = record p { log_format = s }
set_field log_maxlevel (text s) p = record p { log_maxlevel = s }
set_field log_stderr (number n) p = record p { log_stderr = n }
set_field log_syslog (number n) p = record p { log_syslog = n }
set_field logfile (text s) p = record p { logfile = s }
set_field quality (number n) p = record p { quality = n }
set_field statcachesize (number n) p = record p { statcachesize = n }
set_field vbr (number n) p = record p { vbr = n }
set_field _ _ p = p

-- The parameters and whether the argument is kept for FUSE, or the program exits.
pub data Proc : Type 0 where
  goes_on : Params → Bool → Proc
  exits : ℕ → Proc

unfoldable pub mp3fs_opt_proc : Params → Text → Key → Proc
mp3fs_opt_proc p arg key_nonopt = elim p.basepath [
  | none ↦ goes_on (record p { basepath = some arg }) false
  | some _ ↦ goes_on p true
]
mp3fs_opt_proc p arg key_help = exits 1
mp3fs_opt_proc p arg key_version = exits 0
mp3fs_opt_proc p arg key_keep_opt = goes_on p true
mp3fs_opt_proc p arg key_opt = goes_on p true

-- What FUSE finds in the arguments, in order: a template of the table with the argument and its
-- value, or an argument that fits no template.
pub data Event : Type 0 where
  fits : Target → Text → Value → Event
  unknown : Text → Key → Event

-- One event.
unfoldable pub handle : Params → Event → Proc
unfolding set_field mp3fs_opt_proc
handle p (fits (reads field) arg value) = goes_on (set_field field value p) false
handle p (fits (flags field) arg value) = goes_on (set_field field (number 1) p) false
handle p (fits (calls key) arg value) = mp3fs_opt_proc p arg key
handle p (unknown arg key) = mp3fs_opt_proc p arg key

-- All of them: the parameters, or the code with which the program exits.
unfoldable pub handle_all : Params → List Event → Proc
handle_all p [] = goes_on p true
handle_all p (event ∷ events) = elim (handle p event) [
  | exits code ↦ exits code
  | goes_on p' keeps ↦ handle_all p' events
]

-- The pattern of the `float` 89.
abbrev pub float_89 : ℕ
float_89 = 1118961664

-- The initial value of `params`, of a build with `HAVE_MP3`.
abbrev pub default_params : Params
default_params = record {
  basepath = none;
  bitrate = 128;
  debug = 0;
  desttype = codes "mp3";
  gainmode = 1;
  gainref = float_89;
  log_format = codes "[%T] tid=%I %L: %M";
  log_maxlevel = codes "INFO";
  log_stderr = 0;
  log_syslog = 0;
  logfile = [];
  quality = 5;
  statcachesize = 0;
  vbr = 0;
}

unfoldable pub apply_debug : Params → Params
apply_debug p =
    if not (p.debug == 0) then record p { log_stderr = 1; log_maxlevel = codes "DEBUG" } else p

-- `quality > kQualityMax || quality < 0`, on a 32-bit pattern.
unfoldable pub is_bad_quality : ℕ → Bool
is_bad_quality q = (ltb q (2 ^ 31) && ltb 9 q) || leb (2 ^ 31) q

-- How `main` ends: with the code that an option exits with, with 1 after a message, or with what
-- `fuse_main` returns once the file system is mounted.
pub data Ended : Type 0 where
  exited : ℕ → Ended
  parse_failed logging_failed no_basepath relative_basepath no_directory bad_quality no_encoder :
      Ended
  mounted : Params → Logging → Ended

-- `is_directory` tells what `stat` says of a path.
module _ (build : Build) (can_open is_directory : Text → Bool) where
  -- The checks from that of the quality on.
  unfoldable pub check_codecs : Params → Logging → Ended
  unfolding is_bad_quality
  check_codecs p logging =
      if is_bad_quality p.quality then bad_quality else elim (create_encoder build p.desttype) [
        | none ↦ no_encoder
        | some encoder ↦ mounted p logging
      ]

  -- The checks of the path, and those behind them.
  unfoldable pub check_path : Params → Logging → Text → Ended
  check_path p logging [] = relative_basepath
  check_path p logging (c ∷ rest) =
      if not (c == b'/')
      then relative_basepath
      else (if not (is_directory (c ∷ rest)) then no_directory else check_codecs p logging)

  unfoldable pub check_basepath : Params → Logging → Ended
  check_basepath p logging = elim p.basepath [
    | none ↦ no_basepath
    | some path ↦ check_path p logging path
  ]

  -- `main` behind the parsing of the options.
  unfoldable pub run : Params → Ended
  unfolding check_basepath apply_debug
  run parsed =
      let p = apply_debug parsed in
      let (logging, fine) =
        init_logging can_open none p.logfile (string_to_level p.log_maxlevel) p.log_format
          (not (p.log_stderr == 0)) (not (p.log_syslog == 0)) in
      if not fine
      then logging_failed
      else elim logging [ none ↦ logging_failed | some made ↦ check_basepath p made ]

  -- `none`: FUSE cannot parse the arguments.
  unfoldable pub main : Option (List Event) → Ended
  unfolding handle_all run
  main none = parse_failed
  main (some events) = elim (handle_all default_params events) [
    | exits code ↦ exited code
    | goes_on p keeps ↦ run p
  ]
