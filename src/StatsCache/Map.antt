-- ===== src/StatsCache/Map.antt =====
-- src/stats_cache.cc: the laws of the map, and of the removal of one entry.
use mp3fs.Prelude.{
  ◌+◌, ◌≡◌, refl, ◌↔◌, inl, inr, Bool, true, false, ◌&&◌, [], ◌∷◌, none, some, arith, if◌then◌else◌,
  length, Text, text_eq, text_eq_iff, Bool-cases, Option-cases,
}
use mp3fs.StatsCache.{FileStat, Entry, Cache, stat_eq, find, erase, assign, remove_entry, In}

-- No key stands twice.
abbrev pub IsMap : Cache → Type 0
IsMap [] = Unit
IsMap ((j, s) ∷ c) = (find j c ≡ none) × IsMap c

pub stat_eq_iff : (a b : FileStat) → (stat_eq a b ≡ true) ↔ (a ≡ b)
unfolding stat_eq
stat_eq_iff a b = ground arith

module _ (k j : Text) where
  pub find-erase :
      (c : Cache) → IsMap c → find k (erase j c) ≡ (if text_eq j k then none else find k c)
  unfolding find erase
  find-erase [] m = ground arith
  find-erase ((i, s) ∷ c) m =
      ground (arith, find-erase c m.1, text_eq_iff i j, text_eq_iff i k, text_eq_iff j k)

  pub find-assign :
      (s : FileStat) (c : Cache) (t : FileStat)
      → find j c ≡ some t
      → find k (assign j s c) ≡ (if text_eq j k then some s else find k c)
  unfolding find assign
  find-assign s [] t h = cc
  find-assign s ((i, u) ∷ c) t h =
      ground (arith, find-assign s c t, text_eq_iff i j, text_eq_iff i k, text_eq_iff j k)

  find-assign-none : (s : FileStat) (c : Cache) → find k c ≡ none → find k (assign j s c) ≡ none
  unfolding find assign
  find-assign-none s [] h = refl
  find-assign-none s ((i, u) ∷ c) h =
      ground (arith, find-assign-none s c, text_eq_iff i j, text_eq_iff i k)

  find-erase-none : (c : Cache) → find k c ≡ none → find k (erase j c) ≡ none
  unfolding find erase
  find-erase-none [] h = refl
  find-erase-none ((i, u) ∷ c) h = ground (arith, find-erase-none c)

pub erase-IsMap : (j : Text) (c : Cache) → IsMap c → IsMap (erase j c)
unfolding erase
erase-IsMap j [] m = tt
erase-IsMap j ((i, s) ∷ c) m = ground (arith, erase-IsMap j c m.1, find-erase-none i j c m.0)

pub assign-IsMap : (j : Text) (s : FileStat) (c : Cache) → IsMap c → IsMap (assign j s c)
unfolding assign
assign-IsMap j s [] m = tt
assign-IsMap j s ((i, t) ∷ c) m =
    ground (arith, assign-IsMap j s c m.1, find-assign-none i j s c m.0)

pub length-erase :
    (j : Text) (c : Cache) (t : FileStat) → find j c ≡ some t → length (erase j c) + 1 ≡ length c
unfolding find erase
length-erase j [] t h = cc
length-erase j ((i, s) ∷ c) t h = ground (arith, length-erase j c t)

-- The cache holds exactly this entry.
pub holds : Cache → Entry → Bool
holds c (j, s) = elim (find j c) [ none ↦ false | some t ↦ stat_eq t s ]

pub holds_iff : (c : Cache) (e : Entry) → (holds c e ≡ true) ↔ (find e.0 c ≡ some e.1)
unfolding holds
holds_iff c (j, s) = elim (Option-cases (find j c)) [
  | inl miss ↦ ground arith
  | inr (t, hit) ↦ ground (arith, stat_eq_iff t s)
]

pub remove_entry_hit : (c : Cache) (e : Entry) → holds c e ≡ true → remove_entry c e ≡ erase e.0 c
unfolding holds remove_entry
remove_entry_hit c (j, s) h = ground arith

pub remove_entry_miss : (c : Cache) (e : Entry) → holds c e ≡ false → remove_entry c e ≡ c
unfolding holds remove_entry
remove_entry_miss c (j, s) h = ground arith

-- `remove_entry` takes out the entry if the cache still holds exactly it, and nothing else.
pub find-remove_entry :
    (k : Text) (c : Cache) (e : Entry)
    → IsMap c
    → find k (remove_entry c e) ≡ (if text_eq e.0 k && holds c e then none else find k c)
find-remove_entry k c e m =
    ground (arith, remove_entry_hit c e, remove_entry_miss c e, find-erase k e.0 c m)

pub remove_entry-IsMap : (c : Cache) (e : Entry) → IsMap c → IsMap (remove_entry c e)
remove_entry-IsMap c e m = elim (Bool-cases (holds c e)) [
  | inl h ↦ rw (remove_entry_hit c e h) (erase-IsMap e.0 c m)
  | inr h ↦ rw (remove_entry_miss c e h) m
]

-- An entry of the map is found under its key, and the other way round.
pub In-of_find : (k : Text) (s : FileStat) (c : Cache) → find k c ≡ some s → In (k, s) c
unfolding find
In-of_find k s [] h = cc
In-of_find k s ((j, t) ∷ c) h = ground (arith, In-of_find k s c, text_eq_iff j k)

pub length-assign : (k : Text) (s : FileStat) (c : Cache) → length (assign k s c) ≡ length c
unfolding assign
length-assign k s [] = refl
length-assign k s ((j, t) ∷ c) = ground (arith, length-assign k s c)
