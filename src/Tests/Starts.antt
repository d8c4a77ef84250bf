-- ===== src/Tests/Starts.antt =====
-- src/mp3fs.cc with the default parameters and the path of a directory, and with arguments.
use mp3fs.Prelude.{ℕ, List, [], ◌∷◌, ◌⊎◌, none, ◌≡◌, ◌↔◌, Bool, true, some, Text, codes}
use mp3fs.Params.{Params}
use mp3fs.Coders.{Build}
use mp3fs.CommandLine.{
  Event, goes_on, fits, unknown, flags, vbr, number, key_nonopt, exited, mounted, default_params,
  apply_debug, handle_all, run, main,
}
use mp3fs.CommandLine.Arguments.{first_exit, first_path, main-run}
use mp3fs.CommandLine.Mounting.{HasLog, HasDirectory, HasCodecs, logging_of, run-mounted_iff}

abbrev everything : Build
everything = record { have_mp3 = true; have_flac = true; have_vorbis = true }

abbrev always : Text → Bool
always _ = true

abbrev given : Params
given = record default_params { basepath = some (codes "/music") }

run-mounted_iff_example :
    (run everything always always given
      ≡ mounted (apply_debug given) (logging_of everything always always (apply_debug given)))
    ↔ (HasLog everything always always (apply_debug given)
        × HasDirectory everything always always (apply_debug given)
        × HasCodecs everything always always (apply_debug given))
run-mounted_iff_example = run-mounted_iff everything always always given

-- `/music --vbr /mnt`.
abbrev arguments : List Event
arguments =
    unknown (codes "/music") key_nonopt
    ∷ fits (flags vbr) (codes "--vbr") (number 1)
    ∷ unknown (codes "/mnt") key_nonopt
    ∷ []

main-run_example :
    ((code : ℕ) × (first_exit arguments ≡ some code)
      × (main everything always always (some arguments) ≡ exited code))
    ⊎ ((first_exit arguments ≡ none)
        × ((p : Params) × (handle_all default_params arguments ≡ goes_on p true)
            × (main everything always always (some arguments) ≡ run everything always always p)
            × (p.basepath ≡ first_path arguments)))
main-run_example = main-run everything always always arguments
