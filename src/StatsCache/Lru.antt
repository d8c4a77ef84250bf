-- ===== src/StatsCache/Lru.antt =====
-- src/stats_cache.cc: the order in which `prune` gives up entries.
use mp3fs.Prelude.{
  ℕ, ◌+◌, ◌%◌, ◌≤◌, ◌≡◌, inl, inr, false, ◌&&◌, List, [], ◌∷◌, Option, none, some, arith, Text,
  text_eq, text_eq_iff, Bool-cases, subst, sym, half, word,
}
use mp3fs.StatsCache.{
  FileStat, Entry, Cache, find, remove_entry, act_all, alone, In, Sorter, Ascending, is_stale,
  remove_stale, remove_oldest, target_size, prune,
}
use mp3fs.StatsCache.Map.{IsMap, holds, holds_iff, find-remove_entry, remove_entry-IsMap}
use mp3fs.StatsCache.Oldest.{
  Covers, Covers-remove_entry, remove_oldest_cases, find_of_remove_oldest,
}
use mp3fs.StatsCache.Prune.{find-remove_stale, remove_stale-IsMap, swept-Covers}

-- The access time as a number that grows with the signed value.
abbrev pub age : FileStat → ℕ
age s = (s.atime + half) % word

Ascending-tail : (e : Entry) (es : List Entry) → Ascending (e ∷ es) → Ascending es
Ascending-tail e [] a = tt
Ascending-tail e (f ∷ es) a = a.1

Ascending-head : (e f : Entry) (es : List Entry) → Ascending (e ∷ es) → In f es → age e.1 ≤ age f.1
Ascending-head e f [] a i = absurd i
Ascending-head e f (g ∷ es) a (inl same) = subst (λ (x : Entry). age e.1 ≤ age x.1) (sym same) a.0
Ascending-head e f (g ∷ es) a (inr i) = let rest = Ascending-head g f es a.1 i in omega arith

-- An entry that the second loop gives up is no younger than any that it keeps.
remove_oldest-age :
    (target : ℕ) (es : List Entry) (c : Cache) (j k : Text) (s t : FileStat)
    → IsMap c
    → Ascending es
    → Covers es c
    → find j c ≡ some s
    → find j (remove_oldest target es c) ≡ none
    → find k (remove_oldest target es c) ≡ some t
    → age s ≤ age t
unfolding remove_oldest
remove_oldest-age target [] c j k s t m a all held = λ gone kept. absurd (cc)
remove_oldest-age target (e ∷ es) c j k s t m a all held =
    remove_oldest_cases (λ c'. find j c' ≡ none → find k c' ≡ some t → age s ≤ age t) target e es c
      (λ _ gone kept. absurd (cc))
      λ _ gone kept.
        let c' = remove_entry c e in
        let m' = remove_entry-IsMap c e m in
        let all' = Covers-remove_entry e es c m all in
        elim (Bool-cases (text_eq e.0 j && holds c e)) [
          | inl hit ↦
              let key : e.0 ≡ j = (text_eq_iff e.0 j).0 (ground arith) in
              let exact : find e.0 c ≡ some e.1 = (holds_iff c e).0 (ground arith) in
              let same : s ≡ e.1 = ground arith in
              let later = all' k t (find_of_remove_oldest target es c' k t m' kept) in
              rw same (Ascending-head e (k, t) es a later)
          | inr miss ↦
              remove_oldest-age target es c' j k s t m' (Ascending-tail e es a) all'
                (ground (arith, find-remove_entry j c e m)) gone kept
        ]

-- A prune with no other thread about gives up an entry whose file exists and is no newer only if
-- every entry that it keeps was used at the same time or later.
pub prune-age :
    (sorter : Sorter) (stat : Text → Option ℕ) (statcachesize : ℕ) (c : Cache) (j k : Text)
    (s t : FileStat)
    → IsMap c
    → find j c ≡ some s
    → is_stale stat (j, s) ≡ false
    → find j (prune sorter stat statcachesize alone c) ≡ none
    → find k (prune sorter stat statcachesize alone c) ≡ some t
    → age s ≤ age t
unfolding prune act_all remove_stale
prune-age sorter stat statcachesize c j k s t m held fresh =
    let es = sorter.sort c in
    remove_oldest-age (target_size statcachesize) es _ j k s t (remove_stale-IsMap stat [] es c m)
      (sorter.sort-Ascending c) (swept-Covers sorter stat statcachesize c m)
      (find-remove_stale stat es c j s m held fresh)
