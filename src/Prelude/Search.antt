-- ===== src/Prelude/Search.antt =====
-- `std::string::rfind` of a character, and tests of prefixes.
use Prim.Native.Nat.{ℕ, suc, ◌-◌, ◌^◌, ◌<◌}
use mathlib.Core.Path.{◌≡◌, refl, ap}
use mathlib.Core.Logic.{◌≢◌, ◌⊎◌, inl, inr}
use mathlib.Core.Bool.{Bool, true, false, ◌&&◌}
use mathlib.Core.List.{[], ◌∷◌, ◌++◌}
use native.Mathlib.Omega.{arith}
use mp3fs.Prelude.Tests.{◌==◌, if◌then◌else◌, Bool-cases}
use mp3fs.Prelude.Lists.{length}
use mp3fs.Prelude.Texts.{Text}

-- A string that is passed on by `c_str` ends at its first zero.
unfoldable pub c_str : Text → Text
c_str [] = []
c_str (c ∷ s) = let rest = c_str s in if c == 0 then [] else c ∷ rest

-- `std::string::npos`.
abbrev pub npos : ℕ
npos = 2 ^ 64 - 1

unfoldable pub rfind : ℕ → Text → ℕ
rfind c [] = npos
rfind c (x ∷ s) = let r = rfind c s in if r == npos then (if x == c then 0 else npos) else suc r

unfoldable pub starts_with : Text → Text → Bool
starts_with [] s = true
starts_with (a ∷ t) [] = false
starts_with (a ∷ t) (x ∷ s) = a == x && starts_with t s

abbrev pub Lacks : ℕ → Text → Type 0
Lacks c [] = Unit
Lacks c (x ∷ s) = (x ≢ c) × Lacks c s

pub rfind-Lacks : (c : ℕ) (s : Text) → Lacks c s → rfind c s ≡ npos
unfolding rfind
rfind-Lacks c [] h = refl
rfind-Lacks c (x ∷ s) h = ground (arith, rfind-Lacks c s h.1)

-- The character before a tail that lacks it is the last one.
pub rfind-append :
    (c : ℕ) (s t : Text) → Lacks c t → length s < npos → rfind c (s ++ c ∷ t) ≡ length s
unfolding rfind
rfind-append c [] t h l = ground (arith, rfind-Lacks c t h)
rfind-append c (x ∷ s) t h l = ground (arith, rfind-append c s t h)

-- A string is split at the last occurrence of a character, or has none.
pub last_split :
    (c : ℕ) (s : Text)
    → Lacks c s ⊎ ((front : Text) × (tail : Text) × (s ≡ front ++ c ∷ tail) × Lacks c tail)
last_split c [] = inl tt
last_split c (x ∷ s) = elim (last_split c s) [
  | inr (front, tail, e, lacks) ↦ inr (x ∷ front, tail, ap (λ t. x ∷ t) e, lacks)
  | inl lacks ↦ elim (Bool-cases (x == c)) [
    | inl here ↦ inr ([], s, ground (arith, here), lacks)
    | inr other ↦ inl (ground (arith, other), lacks)
  ]
]

pub Lacks-append_self : (c : ℕ) (s t : Text) → Lacks c (s ++ c ∷ t) → ⊥
Lacks-append_self c [] t h = h.0 refl
Lacks-append_self c (x ∷ s) t h = Lacks-append_self c s t h.1

-- A position that is found lies in the string.
pub rfind-lt : (c : ℕ) (s : Text) → rfind c s ≢ npos → rfind c s < length s
unfolding rfind
rfind-lt c [] h = absurd (h refl)
rfind-lt c (x ∷ s) h = ground (arith, rfind-lt c s)

pub starts_with-append : (t s : Text) → starts_with t (t ++ s) ≡ true
unfolding starts_with
starts_with-append [] s = refl
starts_with-append (a ∷ t) s = ground (arith, starts_with-append t s)

-- A prefix is what the string begins with.
pub append_of_starts_with : (t s : Text) → starts_with t s ≡ true → (rest : Text) × (s ≡ t ++ rest)
unfolding starts_with
append_of_starts_with [] s h = (s, refl)
append_of_starts_with (a ∷ t) [] h = absurd (cc)
append_of_starts_with (a ∷ t) (x ∷ s) h =
    let (rest, e) = append_of_starts_with t s (ground arith) in (rest, ground (arith, e))
