-- ===== src/Tests/Logs.antt =====
-- src/logging.cc on short formats.
use mp3fs.Prelude.{ℕ, ◌≡◌, true, false, List, [], ◌∷◌, ◌++◌, map, some, arith, Text, codes}
use mp3fs.Logging.{info, written, fault, multi_substitute, Logging, key_of}
use mp3fs.Logging.Format.{
  value_of, expand, EndsPlain, PercentFree, multi_substitute-expand, multi_substitute-fault,
}

abbrev message : List (ℕ × Text)
message = (b'M', codes "hi") ∷ []

abbrev format : Text
format = codes "%x%M!"

format-EndsPlain : EndsPlain format
format-EndsPlain = omega arith

multi_substitute-expand_example :
    multi_substitute 5 (map key_of message) format []
    ≡ written (expand (λ k. value_of k message) format)
multi_substitute-expand_example =
    multi_substitute-expand 5 message format [] (omega arith) format-EndsPlain

message-PercentFree : PercentFree message
message-PercentFree = omega arith

multi_substitute-fault_example :
    multi_substitute 4 (map key_of message) (codes "%M" ++ (b'%' ∷ [])) [] ≡ fault
multi_substitute-fault_example =
    multi_substitute-fault 4 b'M' (codes "hi") [] (codes "%M") [] message-PercentFree (omega arith)

abbrev log : Logging
log = record {
  logfile = some (codes "log");
  failed = false;
  max_level = info;
  log_format = format;
  to_stderr = true;
  to_syslog = false;
}
