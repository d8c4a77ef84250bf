-- ===== src/Params.antt =====
-- src/mp3fs.h: the global parameters. Numbers of type `int` and `float` are 32-bit
-- patterns.
use mp3fs.Prelude.{ℕ, Option, Text}

pub record Params : Type 0 where
  pub basepath : Option Text
  pub bitrate : ℕ
  pub debug : ℕ
  pub desttype : Text
  pub gainmode : ℕ
  pub gainref : ℕ
  pub log_format : Text
  pub log_maxlevel : Text
  pub log_stderr : ℕ
  pub log_syslog : ℕ
  pub logfile : Text
  pub quality : ℕ
  pub statcachesize : ℕ
  pub vbr : ℕ
