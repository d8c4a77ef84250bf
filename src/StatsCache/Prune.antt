-- ===== src/StatsCache/Prune.antt =====
-- src/stats_cache.cc: what `prune` and `put_filesize` leave, alone and beside other threads.
use mathlib.Core.Bool.{false≢true}
use mp3fs.Prelude.{
  half, word, ◌%◌, ◌+◌, Option-cases, ℕ, ◌≤◌, ◌≡◌, inl, inr, false, List, [], ◌∷◌, Option, some,
  arith, if◌then◌else◌, length, Text, Bool-cases, subst, sym, ap, ◌∙◌,
}
use mp3fs.StatsCache.{
  FileStat, Entry, Cache, find, store, remove_entry, Action, act_all, Others, alone, In, Sorter,
  is_stale, remove_stale, target_size, at_last_lock, prune, put_filesize, first_slot, later_slots,
}
use mp3fs.StatsCache.Map.{IsMap, remove_entry-IsMap, In-of_find}
use mp3fs.StatsCache.Lookup.{act_all-IsMap, store-IsMap}
use mp3fs.StatsCache.Oldest.{
  Covers, find_of_remove_entry, ne_of_remove_entry, find-remove_entry_ne, length-remove_oldest-le,
  find_of_remove_oldest, find-remove_oldest, remove_oldest-IsMap,
}

module _ (stat : Text → Option ℕ) where
  pub remove_stale-IsMap :
      (between : List (List Action)) (es : List Entry) (c : Cache)
      → IsMap c
      → IsMap (remove_stale stat between es c)
  unfolding remove_stale
  remove_stale-IsMap between [] c m = m
  remove_stale-IsMap between (e ∷ es) c m =
      let m' = act_all-IsMap c (first_slot between) m in
      remove_stale-IsMap (later_slots between) es _
        (ground (arith, m', remove_entry-IsMap (act_all c (first_slot between)) e m'))

  -- One round of the first loop when no other thread runs.
  abbrev round : Entry → Cache → Cache
  round e c = if is_stale stat e then remove_entry c e else c

  round-IsMap : (e : Entry) (c : Cache) → IsMap c → IsMap (round e c)
  round-IsMap e c m = ground (arith, remove_entry-IsMap c e m)

  find_of_round :
      (e : Entry) (c : Cache) (k : Text) (s : FileStat)
      → IsMap c
      → find k (round e c) ≡ some s
      → find k c ≡ some s
  find_of_round e c k s m h = ground (arith, find_of_remove_entry k s c e m)

  round_fresh :
      (e : Entry) (c : Cache) (k : Text) (s : FileStat)
      → IsMap c
      → find k (round e c) ≡ some s
      → ◌≡◌ {A = Entry} (k, s) e
      → is_stale stat (k, s) ≡ false
  round_fresh e c k s m h same = elim (Bool-cases (is_stale stat e)) [
    | inl stale ↦ absurd (ne_of_remove_entry k s c e m (rw stale at h) same)
    | inr fresh ↦ subst (λ x. is_stale stat x ≡ false) (sym same) fresh
  ]

  -- Alone, the first loop keeps only entries of the cache, and of those listed no outdated one.
  find_of_remove_stale :
      (es : List Entry) (c : Cache) (k : Text) (s : FileStat)
      → IsMap c
      → find k (remove_stale stat [] es c) ≡ some s
      → (find k c ≡ some s) × (In (k, s) es → is_stale stat (k, s) ≡ false)
  unfolding remove_stale act_all
  find_of_remove_stale [] c k s m h = (h, λ i. absurd i)
  find_of_remove_stale (e ∷ es) c k s m h =
      let (left, rest) = find_of_remove_stale es (round e c) k s (round-IsMap e c m) h in
      (
        find_of_round e c k s m left,
        λ i. elim i [ inl same ↦ round_fresh e c k s m left same | inr in_rest ↦ rest in_rest ],
      )

  -- And it keeps every entry that is not outdated.
  pub find-remove_stale :
      (es : List Entry) (c : Cache) (k : Text) (s : FileStat)
      → IsMap c
      → find k c ≡ some s
      → is_stale stat (k, s) ≡ false
      → find k (remove_stale stat [] es c) ≡ some s
  unfolding remove_stale act_all
  find-remove_stale [] c k s m h fresh = h
  find-remove_stale (e ∷ es) c k s m h fresh =
      find-remove_stale es (round e c) k s (round-IsMap e c m) kept fresh
    where
      kept : find k (round e c) ≡ some s
      kept = elim (Bool-cases (is_stale stat e)) [
        | inl stale ↦ rw stale (
            find-remove_entry_ne k s c e m h
              (λ same. false≢true (sym fresh ∙ (ap (is_stale stat) same ∙ stale))))
        | inr f ↦ rw f h
      ]

module _ (sorter : Sorter) (stat : Text → Option ℕ) (statcachesize : ℕ) where
  abbrev pub swept : Cache → Cache
  swept c = remove_stale stat [] (sorter.sort c) c

  pub swept-Covers : (c : Cache) → IsMap c → Covers (sorter.sort c) (swept c)
  swept-Covers c m k s h =
      (sorter.in-sort c (k, s)).1
        (In-of_find k s c (find_of_remove_stale stat (sorter.sort c) c k s m h).0)

  pub prune-IsMap :
      (others : Others) (c : Cache) → IsMap c → IsMap (prune sorter stat statcachesize others c)
  unfolding prune
  prune-IsMap others c m = remove_oldest-IsMap _ _ _ (
      act_all-IsMap _ others.last
        (remove_stale-IsMap stat others.between _ _ (act_all-IsMap c others.before m)))

  -- A prune with no other thread about leaves at most `target_size` entries.
  pub length-prune-le :
      (c : Cache)
      → IsMap c
      → length (prune sorter stat statcachesize alone c) ≤ target_size statcachesize
  unfolding prune act_all remove_stale
  length-prune-le c m =
      length-remove_oldest-le _ (sorter.sort c) (swept c)
        (remove_stale-IsMap stat [] (sorter.sort c) c m) (swept-Covers c m)

  -- What is not outdated is of a file that exists and has no later modified time.
  exists_of_is_stale :
      (k : Text) (s : FileStat)
      → is_stale stat (k, s) ≡ false
      → (st_mtime : ℕ) × (stat k ≡ some st_mtime)
        × ((st_mtime + half) % word ≤ (s.mtime + half) % word)
  unfolding is_stale
  exists_of_is_stale k s h = elim (Option-cases (stat k)) [
    | inl gone ↦ absurd (ground arith)
    | inr (st_mtime, there) ↦ (st_mtime, there, ground arith)
  ]

  -- A prune with no other thread about keeps only entries that were there, as they were, and whose
  -- file exists with a modified time that is not later, where the times are signed.
  pub find_of_prune :
      (c : Cache) (k : Text) (s : FileStat)
      → IsMap c
      → find k (prune sorter stat statcachesize alone c) ≡ some s
      → (find k c ≡ some s)
        × ((st_mtime : ℕ) × (stat k ≡ some st_mtime)
            × ((st_mtime + half) % word ≤ (s.mtime + half) % word))
  unfolding prune act_all
  find_of_prune c k s m h =
      let (known, fresh) = find_of_remove_stale stat (sorter.sort c) c k s m (
        find_of_remove_oldest _ (sorter.sort c) _ k s
          (remove_stale-IsMap stat [] (sorter.sort c) c m) h) in
      (known, exists_of_is_stale k s (fresh ((sorter.in-sort c (k, s)).1 (In-of_find k s c known))))

  -- After a `put_filesize` with no other thread about, the cache has its configured size at most,
  -- whatever its size was before.
  pub length-put_filesize-le :
      (c : Cache) (filename : Text) (filesize mtime now : ℕ)
      → IsMap c
      → length (put_filesize sorter stat statcachesize alone c filename filesize mtime now)
        ≤ statcachesize
  unfolding put_filesize target_size
  length-put_filesize-le c filename filesize mtime now m = ground (
    arith,
    length-prune-le (store c filename filesize mtime now)
        (store-IsMap c filename filesize mtime now m),
  )

  pub put_filesize-IsMap :
      (others : Others) (c : Cache) (filename : Text) (filesize mtime now : ℕ)
      → IsMap c
      → IsMap (put_filesize sorter stat statcachesize others c filename filesize mtime now)
  unfolding put_filesize
  put_filesize-IsMap others c filename filesize mtime now m =
      let m' = store-IsMap c filename filesize mtime now m in
      ground (arith, m', prune-IsMap others (store c filename filesize mtime now) m')

  at_last_lock-IsMap :
      (others : Others) (c : Cache) → IsMap c → IsMap (at_last_lock sorter stat others c)
  unfolding at_last_lock
  at_last_lock-IsMap others c m =
      act_all-IsMap _ others.last
        (remove_stale-IsMap stat others.between _ _ (act_all-IsMap c others.before m))

  -- Beside other threads, an entry that is in the cache when `prune` takes its last lock, and was
  -- not exactly so in the cache that it copied, is kept.
  pub find-prune :
      (others : Others) (c : Cache) (k : Text) (s : FileStat)
      → IsMap c
      → find k (at_last_lock sorter stat others c) ≡ some s
      → ¬ In (k, s) (act_all c others.before)
      → find k (prune sorter stat statcachesize others c) ≡ some s
  unfolding prune
  find-prune others c k s m h new =
      find-remove_oldest (target_size statcachesize) _ _ k s (at_last_lock-IsMap others c m) h
        (λ i. new ((sorter.in-sort _ (k, s)).0 i))
