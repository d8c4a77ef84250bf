-- ===== src/CommandLine/Mounting.antt =====
-- src/mp3fs.cc: when `main` mounts the file system.
use mathlib.Core.Bool.{false≢true}
use mp3fs.Prelude.{
  ℕ, ◌≤◌, ◌≡◌, ◌≢◌, refl, ap, sym, ◌∙◌, ◌↔◌, ◌⊎◌, inl, inr, Bool, true, false, not, [], ◌∷◌, none,
  some, arith, ◌==◌, Text, text_eq, text_eq_iff, Option-cases, Bool-cases,
}
use mp3fs.Params.{Params}
use mp3fs.Coders.{Build, EncoderClass, create_encoder}
use mp3fs.Logging.{new, Level, Logging, invalid, error, info, debug, string_to_level, init_logging}
use mp3fs.CommandLine.{
  mounted, apply_debug, is_bad_quality, check_codecs, check_path, check_basepath, run,
}

module _ (build : Build) (can_open is_directory : Text → Bool) where
  -- The codecs can do what the parameters ask for.
  abbrev pub HasCodecs : Params → Type 0
  HasCodecs p = (p.quality ≤ 9) × ((e : EncoderClass) × (create_encoder build p.desttype ≡ some e))

  -- The base path is that of a directory, from the root.
  abbrev pub HasDirectory : Params → Type 0
  HasDirectory p =
      (rest : Text) × (p.basepath ≡ some (b'/' ∷ rest)) × (is_directory (b'/' ∷ rest) ≡ true)

  -- The log can be written.
  abbrev pub HasLog : Params → Type 0
  HasLog p =
      (string_to_level p.log_maxlevel ≢ invalid) × ((p.logfile ≡ []) ⊎ (can_open p.logfile ≡ true))

  -- The logging that the parameters ask for.
  abbrev pub logging_of : Params → Logging
  logging_of p =
      new can_open p.logfile (string_to_level p.log_maxlevel) p.log_format (not (p.log_stderr == 0))
        (not (p.log_syslog == 0))

  check_codecs-mounted_iff :
      (p : Params) (l : Logging)
      → (check_codecs build can_open is_directory p l ≡ mounted p l) ↔ HasCodecs p
  unfolding check_codecs is_bad_quality
  check_codecs-mounted_iff p l = elim (Option-cases (create_encoder build p.desttype)) [
    | inl lost ↦ (λ h. ground arith, λ (q, (e, has)). ground arith)
    | inr (e, has) ↦ (λ h. (ground arith, (e, has)), λ (q, _). ground arith)
  ]

  check_path-mounted_iff :
      (p : Params) (l : Logging) (path : Text)
      → (check_path build can_open is_directory p l path ≡ mounted p l) ↔ (
          ((rest : Text) × (path ≡ b'/' ∷ rest) × (is_directory (b'/' ∷ rest) ≡ true))
          × HasCodecs p)
  unfolding check_path
  check_path-mounted_iff p l [] = (λ h. cc, λ ((rest, e, _), _). cc)
  check_path-mounted_iff p l (c ∷ rest) =
      let codecs = check_codecs-mounted_iff p l in
      elim (Bool-cases (c == b'/')) [
        | inr other ↦ (λ h. ground arith, λ ((r, e, _), _). ground arith)
        | inl slash ↦
            let c_slash : c ≡ b'/' = ground arith in
            elim (Bool-cases (is_directory (c ∷ rest))) [
              | inr lost ↦ (λ h. ground arith, λ ((r, e, d), _). ground (arith))
              | inl there ↦ (
                λ h. (
                  (rest, ap (λ (x : ℕ). x ∷ rest) c_slash, rw c_slash at there),
                  codecs.0 (ground arith),
                ),
                λ (_, q). ground (arith, codecs.1 q),
              )
            ]
      ]

  check_basepath-mounted_iff :
      (p : Params) (l : Logging)
      → (check_basepath build can_open is_directory p l ≡ mounted p l)
        ↔ (HasDirectory p × HasCodecs p)
  unfolding check_basepath
  check_basepath-mounted_iff p l = elim (Option-cases p.basepath) [
    | inl lost ↦ (λ h. ground arith, λ ((rest, e, _), _). ground arith)
    | inr (path, has) ↦
        let checked = check_path-mounted_iff p l path in
        (
          λ h. let ((rest, e, d), q) = checked.0 (ground arith) in ((rest, has ∙ ap some e, d), q),
          λ ((rest, e, d), q).
              let same : path ≡ b'/' ∷ rest = ground arith in
              ground (arith, checked.1 ((rest, same, d), q)),
        )
  ]

  init_logging_cases :
      (level : Level) (file format : Text) (to_stderr to_syslog : Bool)
      → ((level ≡ invalid)
          × (init_logging can_open none file level format to_stderr to_syslog ≡ (none, false)))
        ⊎ ((level ≢ invalid)
            × (init_logging can_open none file level format to_stderr to_syslog ≡ (
              some (new can_open file level format to_stderr to_syslog),
              not (new can_open file level format to_stderr to_syslog).failed,
            )))
  unfolding init_logging
  init_logging_cases invalid file format to_stderr to_syslog = inl (refl, refl)
  init_logging_cases error file format to_stderr to_syslog = inr (λ e. cc, refl)
  init_logging_cases info file format to_stderr to_syslog = inr (λ e. cc, refl)
  init_logging_cases debug file format to_stderr to_syslog = inr (λ e. cc, refl)

  new-failed_iff :
      (level : Level) (file format : Text) (to_stderr to_syslog : Bool)
      → ((new can_open file level format to_stderr to_syslog).failed ≡ false)
        ↔ ((file ≡ []) ⊎ (can_open file ≡ true))
  unfolding new
  new-failed_iff level file format to_stderr to_syslog =
      let empty = text_eq_iff file [] in
      elim (Bool-cases (text_eq file [])) [
        | inl no_file ↦ (λ h. inl (empty.0 no_file), λ _. ground arith)
        | inr named ↦ (
          λ h. inr (ground arith),
          λ h. elim h [
            | inl none_given ↦ absurd (false≢true (sym named ∙ empty.1 none_given))
            | inr opens ↦ ground arith
          ],
        )
      ]

  -- `main` mounts the file system exactly when the log can be written, the base path is that of a
  -- directory from the root, the quality is at most 9, and there is an encoder for the type; the
  -- parameters are those of the options with what debugging changes, and so is the log.
  pub run-mounted_iff :
      (parsed : Params)
      → (run build can_open is_directory parsed
          ≡ mounted (apply_debug parsed) (logging_of (apply_debug parsed)))
        ↔ (HasLog (apply_debug parsed)
            × HasDirectory (apply_debug parsed)
            × HasCodecs (apply_debug parsed))
  unfolding run
  run-mounted_iff parsed =
      let p = apply_debug parsed in
      let level = string_to_level p.log_maxlevel in
      let to_stderr = not (p.log_stderr == 0) in
      let to_syslog = not (p.log_syslog == 0) in
      let checked = check_basepath-mounted_iff p (logging_of p) in
      let opened = new-failed_iff level p.logfile p.log_format to_stderr to_syslog in
      elim (init_logging_cases level p.logfile p.log_format to_stderr to_syslog) [
        | inl (bad, e) ↦ (λ h. ground (arith, e), λ ((good, _), _, _). absurd (good bad))
        | inr (good, e) ↦ elim (Bool-cases (logging_of p).failed) [
          | inl failed ↦ (
            λ h. ground (arith, e),
            λ ((_, o), _, _). absurd (false≢true (sym (opened.1 o) ∙ failed)),
          )
          | inr fine ↦ (
            λ h. let (d, q) = checked.0 (ground (arith, e)) in ((good, opened.0 fine), d, q),
            λ (_, d, q). ground (arith, e, checked.1 (d, q)),
          )
        ]
      ]
