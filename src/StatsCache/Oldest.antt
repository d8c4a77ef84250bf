-- ===== src/StatsCache/Oldest.antt =====
-- src/stats_cache.cc: `remove_entry` in a loop, and the second loop of `prune`.
use mp3fs.Prelude.{
  ℕ, suc, ◌≤◌, ◌≡◌, inl, inr, true, false, ◌&&◌, List, [], ◌∷◌, some, arith, min, leb, leb→le,
  length, Text, text_eq, text_eq_iff, Bool-cases, subst, sym, ap,
}
use mp3fs.StatsCache.{FileStat, Entry, Cache, find, remove_entry, In, remove_oldest}
use mp3fs.StatsCache.Map.{
  IsMap, holds, holds_iff, remove_entry_hit, remove_entry_miss, find-remove_entry,
  remove_entry-IsMap, length-erase,
}

-- Each entry of the cache stands in the list.
abbrev pub Covers : List Entry → Cache → Type 0
Covers es c = (k : Text) (s : FileStat) → find k c ≡ some s → In (k, s) es

pub find_of_remove_entry :
    (k : Text) (s : FileStat) (c : Cache) (e : Entry)
    → IsMap c
    → find k (remove_entry c e) ≡ some s
    → find k c ≡ some s
find_of_remove_entry k s c e m h = ground (arith, find-remove_entry k c e m)

-- What is left after the removal of an entry is not that entry.
pub ne_of_remove_entry :
    (k : Text) (s : FileStat) (c : Cache) (e : Entry)
    → IsMap c
    → find k (remove_entry c e) ≡ some s
    → ¬ ((k, s) ≡ e)
ne_of_remove_entry k s c e m h same =
    let known = find_of_remove_entry k s c e m h in
    let held = (holds_iff c e).1 (subst (λ (x : Entry). find x.0 c ≡ some x.1) same known) in
    let key : k ≡ e.0 = ap (λ (x : Entry). x.0) same in
    ground (arith, find-remove_entry k c e m, held, (text_eq_iff e.0 k).1 (sym key))

-- An entry that is not the removed one stays.
pub find-remove_entry_ne :
    (k : Text) (s : FileStat) (c : Cache) (e : Entry)
    → IsMap c
    → find k c ≡ some s
    → ¬ ((k, s) ≡ e)
    → find k (remove_entry c e) ≡ some s
find-remove_entry_ne k s c (j, t) m h other = elim (Bool-cases (text_eq j k && holds c (j, t))) [
  | inl both ↦ absurd (other (same both))
  | inr miss ↦ ground (arith, find-remove_entry k c (j, t) m)
]
  where
    same : (text_eq j k && holds c (j, t)) ≡ true → ◌≡◌ {A = Entry} (k, s) (j, t)
    same both =
        let key : j ≡ k = (text_eq_iff j k).0 (ground arith) in
        let held : find j c ≡ some t = (holds_iff c (j, t)).0 (ground arith) in
        let known : find j c ≡ some s = subst (λ x. find x c ≡ some s) (sym key) h in ground arith

pub Covers-remove_entry :
    (e : Entry) (es : List Entry) (c : Cache)
    → IsMap c
    → Covers (e ∷ es) c
    → Covers es (remove_entry c e)
Covers-remove_entry e es c m all k s h = elim (all k s (find_of_remove_entry k s c e m h)) [
  | inl same ↦ absurd (ne_of_remove_entry k s c e m h same)
  | inr rest ↦ rest
]

length-remove_entry-le : (c : Cache) (e : Entry) → length c ≤ suc (length (remove_entry c e))
length-remove_entry-le c e = elim (Bool-cases (holds c e)) [
  | inl h ↦
      rw (remove_entry_hit c e h) (omega (arith, length-erase e.0 c e.1 ((holds_iff c e).0 h)))
  | inr h ↦ rw (remove_entry_miss c e h) (omega arith)
]

remove_oldest_stop :
    (target : ℕ) (e : Entry) (es : List Entry) (c : Cache)
    → leb (length c) target ≡ true
    → remove_oldest target (e ∷ es) c ≡ c
unfolding remove_oldest
remove_oldest_stop target e es c h = ground arith

remove_oldest_step :
    (target : ℕ) (e : Entry) (es : List Entry) (c : Cache)
    → leb (length c) target ≡ false
    → remove_oldest target (e ∷ es) c ≡ remove_oldest target es (remove_entry c e)
unfolding remove_oldest
remove_oldest_step target e es c h = ground arith

-- What holds of the cache where the loop stops, and of the rest of the loop where it goes on,
-- holds of the loop.
pub remove_oldest_cases {ℓ} :
    (P : Cache → Type ℓ) (target : ℕ) (e : Entry) (es : List Entry) (c : Cache)
    → (leb (length c) target ≡ true → P c)
    → (leb (length c) target ≡ false → P (remove_oldest target es (remove_entry c e)))
    → P (remove_oldest target (e ∷ es) c)
remove_oldest_cases P target e es c stop go = elim (Bool-cases (leb (length c) target)) [
  | inl small ↦ subst P (sym (remove_oldest_stop target e es c small)) (stop small)
  | inr big ↦ subst P (sym (remove_oldest_step target e es c big)) (go big)
]

-- The second loop reaches its target.
pub length-remove_oldest-le :
    (target : ℕ) (es : List Entry) (c : Cache)
    → IsMap c
    → Covers es c
    → length (remove_oldest target es c) ≤ target
unfolding remove_oldest find
length-remove_oldest-le target [] [] m all = omega arith
length-remove_oldest-le target [] ((k, s) ∷ c) m all =
    absurd (all k s (ground (arith, text_eq_iff k k)))
length-remove_oldest-le target (e ∷ es) c m all =
    remove_oldest_cases (λ c'. length c' ≤ target) target e es c (λ small. leb→le _ _ small)
      (λ _.
        length-remove_oldest-le target es (remove_entry c e) (remove_entry-IsMap c e m)
          (Covers-remove_entry e es c m all))

-- And it removes no more than it has to.
pub remove_oldest-length-ge :
    (target : ℕ) (es : List Entry) (c : Cache)
    → min target (length c) ≤ length (remove_oldest target es c)
unfolding remove_oldest
remove_oldest-length-ge target [] c = omega arith
remove_oldest-length-ge target (e ∷ es) c =
    remove_oldest_cases (λ c'. min target (length c) ≤ length c') target e es c (λ _. omega arith)
      (λ big.
        ground
          (arith, remove_oldest-length-ge target es (remove_entry c e), length-remove_entry-le c e))

pub remove_oldest-IsMap :
    (target : ℕ) (es : List Entry) (c : Cache) → IsMap c → IsMap (remove_oldest target es c)
unfolding remove_oldest
remove_oldest-IsMap target [] c m = m
remove_oldest-IsMap target (e ∷ es) c m =
    remove_oldest_cases (λ c'. IsMap c') target e es c (λ _. m)
      (λ _. remove_oldest-IsMap target es (remove_entry c e) (remove_entry-IsMap c e m))

pub find_of_remove_oldest :
    (target : ℕ) (es : List Entry) (c : Cache) (k : Text) (s : FileStat)
    → IsMap c
    → find k (remove_oldest target es c) ≡ some s
    → find k c ≡ some s
unfolding remove_oldest
find_of_remove_oldest target [] c k s m h = h
find_of_remove_oldest target (e ∷ es) c k s m h =
    remove_oldest_cases (λ c'. find k c' ≡ some s → find k c ≡ some s) target e es c (λ _ i. i)
      (λ _. λ i.
        find_of_remove_entry k s c e m
          (find_of_remove_oldest target es (remove_entry c e) k s (remove_entry-IsMap c e m) i))
      h

-- An entry that is not among the copied ones outlives the second loop.
pub find-remove_oldest :
    (target : ℕ) (es : List Entry) (c : Cache) (k : Text) (s : FileStat)
    → IsMap c
    → find k c ≡ some s
    → ¬ In (k, s) es
    → find k (remove_oldest target es c) ≡ some s
unfolding remove_oldest
find-remove_oldest target [] c k s m h out = h
find-remove_oldest target (e ∷ es) c k s m h out =
    remove_oldest_cases (λ c'. find k c' ≡ some s) target e es c (λ _. h)
      (λ _.
        find-remove_oldest target es (remove_entry c e) k s (remove_entry-IsMap c e m)
          (find-remove_entry_ne k s c e m h (λ q. out (inl q))) (λ i. out (inr i)))
