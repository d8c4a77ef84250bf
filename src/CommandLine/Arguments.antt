-- ===== src/CommandLine/Arguments.antt =====
-- src/mp3fs.cc: what the arguments do, in their order.
use mp3fs.Prelude.{
  ℕ, ◌≡◌, refl, ap, sym, ◌∙◌, ◌⊎◌, inl, inr, Bool, true, false, List, [], ◌∷◌, Option, none, some,
  arith, Text, Option-cases,
}
use mp3fs.Params.{Params}
use mp3fs.Coders.{Build}
use mp3fs.CommandLine.{
  default_params, exited, run, main, Field, Key, key_help, key_version, key_keep_opt, key_nonopt,
  key_opt, reads, flags, calls, Value, number, set_field, Proc, goes_on, exits, mp3fs_opt_proc,
  Event, fits, unknown, handle, handle_all,
}

-- The call of `mp3fs_opt_proc` for an argument.
abbrev call_of : Event → Option (Text × Key)
call_of (fits (reads field) arg value) = none
call_of (fits (flags field) arg value) = none
call_of (fits (calls key) arg value) = some (arg, key)
call_of (unknown arg key) = some (arg, key)

-- The code with which the program exits at an argument.
abbrev exit_code : Option (Text × Key) → Option ℕ
exit_code none = none
exit_code (some (arg, key_help)) = some 1
exit_code (some (arg, key_version)) = some 0
exit_code (some (arg, key_keep_opt)) = none
exit_code (some (arg, key_nonopt)) = none
exit_code (some (arg, key_opt)) = none

-- The path in an argument that is no option.
abbrev path_in : Option (Text × Key) → Option Text
path_in none = none
path_in (some (arg, key_help)) = none
path_in (some (arg, key_version)) = none
path_in (some (arg, key_keep_opt)) = none
path_in (some (arg, key_nonopt)) = some arg
path_in (some (arg, key_opt)) = none

-- The first exit.
pub first_exit : List Event → Option ℕ
first_exit [] = none
first_exit (event ∷ events) = elim (exit_code (call_of event)) [
  | some code ↦ some code
  | none ↦ first_exit events
]

-- The path that is kept, and otherwise another.
or_else : Option Text → Option Text → Option Text
or_else (some path) other = some path
or_else none other = other

-- The first path.
pub first_path : List Event → Option Text
first_path [] = none
first_path (event ∷ events) = or_else (path_in (call_of event)) (first_path events)

set_field-basepath :
    (field : Field) (value : Value) (p : Params) → (set_field field value p).basepath ≡ p.basepath
unfolding set_field
set_field-basepath field value p = grind arith

-- What an argument does: the program exits, or goes on with the path that it has then.
Does : Proc → Params → Option (Text × Key) → Type 0
Does result p call =
    ((code : ℕ) × (exit_code call ≡ some code) × (result ≡ exits code))
    ⊎ ((exit_code call ≡ none)
        × ((p' : Params) × (keeps : Bool) × (result ≡ goes_on p' keeps)
            × (p'.basepath ≡ or_else p.basepath (path_in call))))

or_else-none : (path : Option Text) → or_else path none ≡ path
unfolding or_else
or_else-none none = refl
or_else-none (some path) = refl

or_else_assoc :
    (first second third : Option Text)
    → or_else (or_else first second) third ≡ or_else first (or_else second third)
unfolding or_else
or_else_assoc none second third = refl
or_else_assoc (some path) second third = refl

mp3fs_opt_proc-Does :
    (p : Params) (arg : Text) (key : Key) → Does (mp3fs_opt_proc p arg key) p (some (arg, key))
unfolding mp3fs_opt_proc Does or_else
mp3fs_opt_proc-Does p arg key_help = inl (1, refl, refl)
mp3fs_opt_proc-Does p arg key_version = inl (0, refl, refl)
mp3fs_opt_proc-Does p arg key_keep_opt = inr (refl, (p, true, refl, sym (or_else-none p.basepath)))
mp3fs_opt_proc-Does p arg key_opt = inr (refl, (p, true, refl, sym (or_else-none p.basepath)))
mp3fs_opt_proc-Does p arg key_nonopt = elim (Option-cases p.basepath) [
  | inl unset ↦ inr (
    refl,
    (record p { basepath = some arg }, false, ground (arith, unset), ground (arith, unset)),
  )
  | inr (path, set) ↦ inr (refl, (p, true, ground (arith, set), ground (arith, set)))
]

handle-Does : (p : Params) (event : Event) → Does (handle p event) p (call_of event)
unfolding handle Does
handle-Does p (fits (reads field) arg value) =
    inr (refl, (_, _, refl, set_field-basepath field value p ∙ sym (or_else-none p.basepath)))
handle-Does p (fits (flags field) arg value) =
    inr (refl, (_, _, refl, set_field-basepath field (number 1) p ∙ sym (or_else-none p.basepath)))
handle-Does p (fits (calls key) arg value) = mp3fs_opt_proc-Does p arg key
handle-Does p (unknown arg key) = mp3fs_opt_proc-Does p arg key

handle_all_lem :
    (p : Params) (events : List Event)
    → ((code : ℕ) × (first_exit events ≡ some code) × (handle_all p events ≡ exits code))
      ⊎ ((first_exit events ≡ none)
          × ((p' : Params) × (handle_all p events ≡ goes_on p' true)
              × (p'.basepath ≡ or_else p.basepath (first_path events))))
unfolding handle_all first_exit first_path Does
handle_all_lem p [] = inr (refl, (p, refl, sym (or_else-none p.basepath)))
handle_all_lem p (event ∷ events) = elim (handle-Does p event) [
  | inl (code, exiting, e) ↦ inl (code, ground (arith, exiting), ground (arith, e))
  | inr (staying, (p', keeps, e, path)) ↦ elim (handle_all_lem p' events) [
    | inl (code, exiting, later) ↦
        inl (code, ground (arith, staying, exiting), ground (arith, e, later))
    | inr (none_exits, (u, later, path')) ↦ inr (
      ground (arith, staying, none_exits),
      (
        u,
        ground (arith, e, later),
        path'
            ∙ (ap (λ (x : Option Text). or_else x (first_path events)) path
                ∙ or_else_assoc p.basepath (path_in (call_of event)) (first_path events)),
      ),
    )
  ]
]

module _ (build : Build) (can_open is_directory : Text → Bool) where
  -- What main does with arguments that FUSE can parse: the first of them that asks for help or for
  -- the version ends it, with 1 or 0, whatever stands before and behind; and otherwise it goes on
  -- with the first argument that is no option as the base path, or with none.
  pub main-run :
      (events : List Event)
      → ((code : ℕ) × (first_exit events ≡ some code)
          × (main build can_open is_directory (some events) ≡ exited code))
        ⊎ ((first_exit events ≡ none)
            × ((p : Params) × (handle_all default_params events ≡ goes_on p true)
                × (main build can_open is_directory (some events)
                    ≡ run build can_open is_directory p)
                × (p.basepath ≡ first_path events)))
  unfolding main or_else
  main-run events = elim (handle_all_lem default_params events) [
    | inl (code, exiting, e) ↦ inl (code, exiting, ground (arith, e))
    | inr (staying, (p, e, path)) ↦ inr (staying, (p, e, ground (arith, e), path))
  ]
