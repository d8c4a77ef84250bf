-- ===== src/StatsCache/Lookup.antt =====
-- src/stats_cache.cc: `get_filesize` and the locked part of `put_filesize`, and histories of them.
use mp3fs.Prelude.{
  ℕ, ◌≡◌, refl, ap₂, sym, subst, ◌∙◌, ◌↔◌, ◌⊎◌, inl, inr, true, List, [], ◌∷◌, Option, none, some,
  arith, if◌then◌else◌, signed_leb, Text, text_eq, text_eq_iff, Bool-cases, Option-cases,
}
use mp3fs.StatsCache.{
  FileStat, Cache, find, get_filesize, store, Action, gets, stores, removes, act, act_all,
}
use mp3fs.StatsCache.Map.{
  IsMap, find-erase, find-assign, erase-IsMap, assign-IsMap, find-remove_entry, remove_entry-IsMap,
}

-- `get_filesize` returns true exactly when the name has an entry that is no older than the file,
-- and then gives the size of that entry.
get_filesize-eq-some_iff :
    (c : Cache) (filename : Text) (mtime now n : ℕ)
    → ((get_filesize c filename mtime now).1 ≡ some n) ↔ (
        (s : FileStat) × (find filename c ≡ some s)
        × (signed_leb mtime s.mtime ≡ true)
        × (s.size ≡ n))
unfolding get_filesize
get_filesize-eq-some_iff c filename mtime now n = elim (Option-cases (find filename c)) [
  | inl miss ↦ (λ e. ground arith, λ (s, e, f, g). ground arith)
  | inr (s, hit) ↦ (λ e. (s, hit, ground arith, ground arith), λ (t, e, f, g). ground arith)
]

-- The entry that a lookup leaves: an outdated one is gone, any other has the new access time.
unfoldable pub looked_up : Option FileStat → ℕ → ℕ → Option FileStat
looked_up none mtime now = none
looked_up (some s) mtime now =
    if signed_leb mtime s.mtime then some (record s { atime = now }) else none

-- A lookup changes the entry of its own name only: an outdated one is removed, any other gets the
-- new access time.
pub find-get_filesize :
    (c : Cache) (filename : Text) (mtime now : ℕ) (k : Text)
    → IsMap c
    → find k (get_filesize c filename mtime now).0
      ≡ (if text_eq filename k then looked_up (find filename c) mtime now else find k c)
unfolding get_filesize looked_up
find-get_filesize c filename mtime now k m = elim (Option-cases (find filename c)) [
  | inl miss ↦ ground (arith, text_eq_iff filename k)
  | inr (s, hit) ↦ ground (
    arith,
    text_eq_iff filename k,
    find-erase k filename c m,
    find-assign k filename (record s { atime = now }) c s,
  )
]

-- The entry that `put_filesize` leaves: the new one, unless the old one is of a newer file.
unfoldable pub newer : Option FileStat → FileStat → FileStat
newer none s = s
newer (some old) s = if signed_leb old.mtime s.mtime then s else old

-- The locked part of `put_filesize` changes the entry of its own name only: it becomes the new one,
-- unless the old one is of a newer file.
pub find-store :
    (c : Cache) (filename : Text) (filesize mtime now : ℕ) (k : Text)
    → find k (store c filename filesize mtime now) ≡ (
        if text_eq filename k
        then some (newer (find filename c) (record { size = filesize; atime = now; mtime = mtime }))
        else find k c)
unfolding store newer find
find-store c filename filesize mtime now k = elim (Option-cases (find filename c)) [
  | inl miss ↦ ground (arith, text_eq_iff filename k)
  | inr (s, hit) ↦ ground (
    arith,
    text_eq_iff filename k,
    find-assign k filename (record { size = filesize; atime = now; mtime = mtime }) c s,
  )
]

-- Right after a size is put, a lookup for a file that is no newer gives it back, unless the cache
-- had the size of a newer file.
pub get_filesize-store :
    (c : Cache) (filename : Text) (filesize mtime now mtime' now' : ℕ)
    → newer (find filename c) (record { size = filesize; atime = now; mtime = mtime })
      ≡ record { size = filesize; atime = now; mtime = mtime }
    → signed_leb mtime' mtime ≡ true
    → (get_filesize (store c filename filesize mtime now) filename mtime' now').1 ≡ some filesize
get_filesize-store c filename filesize mtime now mtime' now' new fresh =
    let s : FileStat = record { size = filesize; atime = now; mtime = mtime } in
    (get_filesize-eq-some_iff _ filename mtime' now' filesize).1 (
      s,
      ground
          (arith, find-store c filename filesize mtime now filename, text_eq_iff filename filename),
      fresh,
      refl,
    )

pub get_filesize-IsMap :
    (c : Cache) (filename : Text) (mtime now : ℕ)
    → IsMap c
    → IsMap (get_filesize c filename mtime now).0
unfolding get_filesize
get_filesize-IsMap c filename mtime now m = elim (Option-cases (find filename c)) [
  | inl miss ↦ ground arith
  | inr (s, hit) ↦
      ground (arith, erase-IsMap filename c m, assign-IsMap filename (record s { atime = now }) c m)
]

pub store-IsMap :
    (c : Cache) (filename : Text) (filesize mtime now : ℕ)
    → IsMap c
    → IsMap (store c filename filesize mtime now)
unfolding store
store-IsMap c filename filesize mtime now m = elim (Option-cases (find filename c)) [
  | inl miss ↦ ground arith
  | inr (s, hit) ↦
      ground
        (arith, assign-IsMap filename (record { size = filesize; atime = now; mtime = mtime }) c m)
]

pub act-IsMap : (c : Cache) (a : Action) → IsMap c → IsMap (act c a)
unfolding act
act-IsMap c (gets k mtime now) m = get_filesize-IsMap c k mtime now m
act-IsMap c (stores k filesize mtime now) m = store-IsMap c k filesize mtime now m
act-IsMap c (removes e) m = remove_entry-IsMap c e m

pub act_all-IsMap : (c : Cache) (more : List Action) → IsMap c → IsMap (act_all c more)
unfolding act_all
act_all-IsMap c [] m = m
act_all-IsMap c (a ∷ more) m = act_all-IsMap (act c a) more (act-IsMap c a m)

-- The history puts this size for this name and modified time.
abbrev pub Stored : Text → ℕ → ℕ → List Action → Type 0
Stored k n mtime [] = ⊥
Stored k n mtime (a ∷ more) = ((now : ℕ) × (a ≡ stores k n mtime now)) ⊎ Stored k n mtime more

-- The cache has this size for this name and modified time.
abbrev pub Known : Text → ℕ → ℕ → Cache → Type 0
Known k n mtime c = (t : FileStat) × (find k c ≡ some t) × (t.size ≡ n) × (t.mtime ≡ mtime)

looked_up-source :
    (o : Option FileStat) (mtime now : ℕ) (s : FileStat)
    → looked_up o mtime now ≡ some s
    → (t : FileStat) × (o ≡ some t) × (t.size ≡ s.size) × (t.mtime ≡ s.mtime)
unfolding looked_up
looked_up-source none mtime now s h = cc
looked_up-source (some t) mtime now s h = (t, refl, ground arith, ground arith)

newer-source : (o : Option FileStat) (new s : FileStat) → newer o new ≡ s → (s ≡ new) ⊎ (o ≡ some s)
unfolding newer
newer-source none new s h = inl (sym h)
newer-source (some t) new s h = ground arith

act-source :
    (c : Cache) (a : Action) (k : Text) (s : FileStat)
    → IsMap c
    → find k (act c a) ≡ some s
    → Known k s.size s.mtime c ⊎ ((now : ℕ) × (a ≡ stores k s.size s.mtime now))
unfolding act
act-source c (gets j mtime now) k s m h = elim (Bool-cases (text_eq j k)) [
  | inl same ↦
      let e : j ≡ k = (text_eq_iff j k).0 same in
      let (t, known, p, q) =
        looked_up-source (find j c) mtime now s
          (ground (arith, find-get_filesize c j mtime now k m)) in
      inl (t, subst (λ x. find x c ≡ some t) e known, p, q)
  | inr other ↦ inl (s, ground (arith, find-get_filesize c j mtime now k m), refl, refl)
]
act-source c (stores j filesize mtime now) k s m h = elim (Bool-cases (text_eq j k)) [
  | inl same ↦
      let e : j ≡ k = (text_eq_iff j k).0 same in
      let new : FileStat = record { size = filesize; atime = now; mtime = mtime } in
      elim (newer-source (find j c) new s (ground (arith, find-store c j filesize mtime now k))) [
        | inl fresh ↦ inr (now, ground arith)
        | inr kept ↦ inl (s, subst (λ x. find x c ≡ some s) e kept, refl, refl)
      ]
  | inr other ↦ inl (s, ground (arith, find-store c j filesize mtime now k), refl, refl)
]
act-source c (removes e) k s m h = inl (s, ground (arith, find-remove_entry k c e m), refl, refl)

-- After any history of locked sections, in the order in which the lock was taken, the cache knows
-- only sizes that it knew before or that a `put_filesize` of the history gave, under the same name
-- and modified time.
pub act_all-source :
    (c : Cache) (more : List Action) (k : Text) (s : FileStat)
    → IsMap c
    → find k (act_all c more) ≡ some s
    → Known k s.size s.mtime c ⊎ Stored k s.size s.mtime more
unfolding act_all
act_all-source c [] k s m h = inl (s, h, refl, refl)
act_all-source c (a ∷ more) k s m h = elim (act_all-source (act c a) more k s (act-IsMap c a m) h) [
  | inr later ↦ inr (inr later)
  | inl (t, known, p, q) ↦ elim (act-source c a k t m known) [
    | inl (u, before, p', q') ↦ inl (u, before, p' ∙ p, q' ∙ q)
    | inr (now, e) ↦ inr (inl (now, e ∙ ap₂ (λ n u. stores k n u now) p q))
  ]
]
