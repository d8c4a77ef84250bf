-- ===== src/Logging/Format.antt =====
-- src/logging.cc: what `multi_substitute` makes of a format.
use mathlib.Core.List.{append_assoc, append-nil}
use mp3fs.Prelude.{
  ℕ, zero, suc, ◌≤◌, ◌<◌, ◌≡◌, ◌≢◌, refl, ap, sym, subst, ◌∙◌, inl, inr, List, [], ◌∷◌, ◌++◌, map,
  Option, none, some, arith, ◌==◌, ==_iff, if◌then◌else◌, length, Text, Bool-cases, Option-cases,
}
use mp3fs.Logging.{equal, first_match, written, fault, multi_substitute, key_of}

-- The value that a letter stands for.
unfoldable pub value_of : ℕ → List (ℕ × Text) → Option Text
value_of k [] = none
value_of k ((letter, value) ∷ ls) = if letter == k then some value else value_of k ls

-- The format with each `%` and a letter that stands for something replaced, from the left.
unfoldable pub expand : (ℕ → Option Text) → Text → Text
expand value [] = []
expand value (c ∷ []) = c ∷ []
expand value (c ∷ k ∷ s) =
    let after = expand value s in
    let rest = expand value (k ∷ s) in
    if c == b'%' then elim (value k) [ none ↦ c ∷ rest | some v ↦ v ++ after ] else c ∷ rest

-- The last byte is no `%`.
abbrev pub EndsPlain : Text → Type 0
EndsPlain [] = Unit
EndsPlain (c ∷ []) = c ≢ b'%'
EndsPlain (c ∷ k ∷ s) = EndsPlain (k ∷ s)

EndsPlain-tail : (c : ℕ) (s : Text) → EndsPlain (c ∷ s) → EndsPlain s
EndsPlain-tail c [] h = tt
EndsPlain-tail c (k ∷ s) h = h

first_match_plain :
    (ls : List (ℕ × Text)) (c : ℕ) (s : Text)
    → c ≢ b'%'
    → first_match (map key_of ls) (c ∷ s) ≡ some none
unfolding first_match equal
first_match_plain [] c s h = refl
first_match_plain ((k, v) ∷ ls) c s h = ground (arith, first_match_plain ls c s h)

-- What the loop finds at a `%` that is not the last byte.
abbrev found : ℕ → Option Text → Option (Option (Text × Text))
found k none = some none
found k (some v) = some (some (b'%' ∷ k ∷ [], v))

first_match_letter :
    (ls : List (ℕ × Text)) (k : ℕ) (s : Text)
    → first_match (map key_of ls) (b'%' ∷ k ∷ s) ≡ found k (value_of k ls)
unfolding first_match equal value_of
first_match_letter [] k s = refl
first_match_letter ((j, v) ∷ ls) k s = ground (arith, first_match_letter ls k s)

expand_plain :
    (value : ℕ → Option Text) (c : ℕ) (s : Text)
    → c ≢ b'%'
    → expand value (c ∷ s) ≡ c ∷ expand value s
unfolding expand
expand_plain value c [] h = refl
expand_plain value c (k ∷ s) h = ground arith

module _ (fuel : ℕ) (ls : List (ℕ × Text)) (result : Text) where
  step_none :
      (c : ℕ) (s : Text)
      → first_match (map key_of ls) (c ∷ s) ≡ some none
      → multi_substitute (suc fuel) (map key_of ls) (c ∷ s) result
        ≡ multi_substitute fuel (map key_of ls) s (result ++ (c ∷ []))
  unfolding multi_substitute
  step_none c s h = ground arith

  step_some :
      (k : ℕ) (s v : Text)
      → first_match (map key_of ls) (b'%' ∷ k ∷ s) ≡ some (some (b'%' ∷ k ∷ [], v))
      → multi_substitute (suc fuel) (map key_of ls) (b'%' ∷ k ∷ s) result
        ≡ multi_substitute fuel (map key_of ls) s (result ++ v)
  unfolding multi_substitute
  step_some k s v h = ground arith

-- What is written in front joins what is written behind.
join : (result u v w : Text) → w ≡ u ++ v → written ((result ++ u) ++ v) ≡ written (result ++ w)
join result u v w e = ap written (append_assoc result u v ∙ ap (◌++◌ result) (sym e))

expand-some :
    (value : ℕ → Option Text) (k : ℕ) (s v : Text)
    → value k ≡ some v
    → expand value (b'%' ∷ k ∷ s) ≡ v ++ expand value s
unfolding expand
expand-some value k s v h = ground arith

expand-none :
    (value : ℕ → Option Text) (k : ℕ) (s : Text)
    → value k ≡ none
    → expand value (b'%' ∷ k ∷ s) ≡ b'%' ∷ expand value (k ∷ s)
unfolding expand
expand-none value k s h = ground arith

-- The substitution of these letters gives the expansion, for every shorter format.
abbrev Expands : ℕ → List (ℕ × Text) → Type 0
Expands fuel ls =
    (s result : Text)
    → length s ≤ fuel
    → EndsPlain s
    → multi_substitute fuel (map key_of ls) s result
      ≡ written (result ++ expand (λ k. value_of k ls) s)

expand_percent :
    (fuel : ℕ) (ls : List (ℕ × Text)) (s result : Text)
    → Expands fuel ls
    → length s ≤ fuel
    → EndsPlain (b'%' ∷ s)
    → multi_substitute (suc fuel) (map key_of ls) (b'%' ∷ s) result
      ≡ written (result ++ expand (λ k. value_of k ls) (b'%' ∷ s))
expand_percent fuel ls [] result ih l h = absurd (h refl)
expand_percent fuel ls (k ∷ s) result ih l h = elim (Option-cases (value_of k ls)) [
  | inl unknown ↦
      step_none fuel ls result b'%' (k ∷ s) (first_match_letter ls k s ∙ ap (found k) unknown)
      ∙ (ih (k ∷ s) (result ++ (b'%' ∷ [])) l h
          ∙ join result (b'%' ∷ []) _ _ (expand-none (λ k. value_of k ls) k s unknown))
  | inr (v, known) ↦
      step_some fuel ls result k s v (first_match_letter ls k s ∙ ap (found k) known)
      ∙ (ih s (result ++ v) (omega arith) (EndsPlain-tail k s h)
          ∙ join result v _ _ (expand-some (λ k. value_of k ls) k s v known))
]

-- With as much fuel as the format is long, the substitution ends, and gives the expansion of the
-- format by the letters, if the last byte of the format is no `%`.
pub multi_substitute-expand :
    (fuel : ℕ) (ls : List (ℕ × Text)) (s result : Text)
    → length s ≤ fuel
    → EndsPlain s
    → multi_substitute fuel (map key_of ls) s result
      ≡ written (result ++ expand (λ k. value_of k ls) s)
unfolding multi_substitute expand
multi_substitute-expand fuel ls [] result l h = ap written (sym (append-nil result))
multi_substitute-expand zero ls (c ∷ s) result l h = absurd (omega arith)
multi_substitute-expand (suc fuel) ls (c ∷ s) result l h = elim (Bool-cases (c == b'%')) [
  | inr plain ↦
      let other : c ≢ b'%' = ground arith in
      step_none fuel ls result c s (first_match_plain ls c s other)
      ∙ (multi_substitute-expand fuel ls s (result ++ (c ∷ [])) (omega arith) (EndsPlain-tail c s h)
          ∙ join result (c ∷ []) _ _ (expand_plain (λ k. value_of k ls) c s other))
  | inl percent ↦
      subst
        (λ x.
          EndsPlain (x ∷ s)
          → multi_substitute (suc fuel) (map key_of ls) (x ∷ s) result
            ≡ written (result ++ expand (λ k. value_of k ls) (x ∷ s)))
        (sym ((==_iff c b'%').0 percent))
        (expand_percent fuel ls s result (multi_substitute-expand fuel ls) (omega arith)) h
]

-- No letter is `%` itself.
abbrev pub PercentFree : List (ℕ × Text) → Type 0
PercentFree [] = Unit
PercentFree ((letter, value) ∷ ls) = (letter ≢ b'%') × PercentFree ls

value_of_percent : (ls : List (ℕ × Text)) → PercentFree ls → value_of b'%' ls ≡ none
unfolding value_of
value_of_percent [] h = refl
value_of_percent ((j, v) ∷ ls) h = ground (arith, value_of_percent ls h.1)

first_match_last :
    (j : ℕ) (v : Text) (ls : List (ℕ × Text))
    → first_match (map key_of ((j, v) ∷ ls)) (b'%' ∷ []) ≡ none
unfolding first_match equal
first_match_last j v ls = ground arith

overrun :
    (fuel j : ℕ) (v : Text) (ls : List (ℕ × Text)) (result : Text)
    → multi_substitute (suc fuel) (map key_of ((j, v) ∷ ls)) (b'%' ∷ []) result ≡ fault
unfolding multi_substitute
overrun fuel j v ls result = let last = first_match_last j v ls in ground arith

-- Every shorter format with a `%` at its end makes the substitution read behind it.
abbrev Overruns : ℕ → List (ℕ × Text) → Type 0
Overruns fuel ls =
    (s result : Text)
    → length s < fuel
    → multi_substitute fuel (map key_of ls) (s ++ (b'%' ∷ [])) result ≡ fault

overrun_percent :
    (fuel : ℕ) (ls : List (ℕ × Text)) (s result : Text)
    → Overruns fuel ls
    → PercentFree ls
    → length s < fuel
    → multi_substitute (suc fuel) (map key_of ls) (b'%' ∷ (s ++ (b'%' ∷ []))) result ≡ fault
overrun_percent fuel ls [] result ih free l =
    step_none fuel ls result b'%' (b'%' ∷ [])
      (first_match_letter ls b'%' [] ∙ ap (found b'%') (value_of_percent ls free))
    ∙ ih [] (result ++ (b'%' ∷ [])) l
overrun_percent fuel ls (k ∷ s) result ih free l = elim (Option-cases (value_of k ls)) [
  | inl unknown ↦
      step_none fuel ls result b'%' _ (first_match_letter ls k _ ∙ ap (found k) unknown)
      ∙ ih (k ∷ s) (result ++ (b'%' ∷ [])) l
  | inr (v, known) ↦
      step_some fuel ls result k _ v (first_match_letter ls k _ ∙ ap (found k) known)
      ∙ ih s (result ++ v) (omega arith)
]

-- If there is a letter, and none is `%` itself, a format that ends in `%` makes the substitution
-- read behind it.
pub multi_substitute-fault :
    (fuel j : ℕ) (v : Text) (ls : List (ℕ × Text)) (s result : Text)
    → PercentFree ((j, v) ∷ ls)
    → length s < fuel
    → multi_substitute fuel (map key_of ((j, v) ∷ ls)) (s ++ (b'%' ∷ [])) result ≡ fault
multi_substitute-fault zero j v ls s result free l = absurd (omega arith)
multi_substitute-fault (suc fuel) j v ls [] result free l = overrun fuel j v ls result
multi_substitute-fault (suc fuel) j v ls (c ∷ s) result free l =
    let ih : Overruns fuel ((j, v) ∷ ls) = λ t r m. multi_substitute-fault fuel j v ls t r free m in
    elim (Bool-cases (c == b'%')) [
      | inr plain ↦
          step_none fuel ((j, v) ∷ ls) result c _
            (first_match_plain ((j, v) ∷ ls) c _ (ground arith))
          ∙ ih s (result ++ (c ∷ [])) (omega arith)
      | inl percent ↦
          subst
            (λ x.
              multi_substitute (suc fuel) (map key_of ((j, v) ∷ ls)) (x ∷ (s ++ (b'%' ∷ []))) result
              ≡ fault)
            (sym ((==_iff c b'%').0 percent))
            (overrun_percent fuel ((j, v) ∷ ls) s result ih free (omega arith))
    ]
