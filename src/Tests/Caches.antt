-- ===== src/Tests/Caches.antt =====
-- src/stats_cache.cc with a cache of two files, and an insertion sort for `std::sort`.
use mp3fs.Prelude.{
  ◌+◌, ◌%◌, word, half, ℕ, ◌≤◌, ◌≡◌, ◌↔◌, ◌⊎◌, inl, inr, refl, ap, sym, subst, true, false, List,
  [], ◌∷◌, Option, some, none, arith, leb, if◌then◌else◌, Bool-cases, length, Text, text_eq, codes,
}
use mp3fs.StatsCache.{
  FileStat, Entry, Cache, stat_eq, find, erase, assign, get_filesize, store, remove_entry, Action,
  gets, stores, removes, act, act_all, Others, alone, Ascending, In, Sorter, is_stale, remove_stale,
  remove_oldest, target_size, at_last_lock, prune, put_filesize,
}
use mp3fs.StatsCache.Map.{IsMap}
use mp3fs.StatsCache.Lookup.{
  looked_up, newer, find-get_filesize, get_filesize-store, act_all-source, Known, Stored,
}
use mp3fs.StatsCache.Prune.{length-put_filesize-le, find_of_prune, find-prune}
use mp3fs.StatsCache.Lru.{age, prune-age}

insert : Entry → List Entry → List Entry
insert e [] = e ∷ []
insert e (f ∷ es) = if leb (age e.1) (age f.1) then e ∷ f ∷ es else f ∷ insert e es

pub insertion_sort : List Entry → List Entry
unfolding insert
insertion_sort [] = []
insertion_sort (e ∷ es) = insert e (insertion_sort es)

insert-Ascending : (e : Entry) (es : List Entry) → Ascending es → Ascending (insert e es)
unfolding insert
insert-Ascending e [] a = tt
insert-Ascending e (f ∷ []) a = ground arith
insert-Ascending e (f ∷ g ∷ es) a = ground (arith, insert-Ascending e (g ∷ es) a.1)

pub insertion_sort-Ascending : (es : List Entry) → Ascending (insertion_sort es)
unfolding insertion_sort
insertion_sort-Ascending [] = tt
insertion_sort-Ascending (e ∷ es) =
    insert-Ascending e (insertion_sort es) (insertion_sort-Ascending es)

insert_front :
    (e f : Entry) (es : List Entry)
    → leb (age e.1) (age f.1) ≡ true
    → insert e (f ∷ es) ≡ e ∷ f ∷ es
unfolding insert
insert_front e f es h = rw h refl

insert_later :
    (e f : Entry) (es : List Entry)
    → leb (age e.1) (age f.1) ≡ false
    → insert e (f ∷ es) ≡ f ∷ insert e es
unfolding insert
insert_later e f es h = rw h refl

In-insert : (x e : Entry) (es : List Entry) → In x (insert e es) ↔ In x (e ∷ es)
unfolding insert
In-insert x e [] = (λ i. i, λ i. i)
In-insert x e (f ∷ es) = elim (Bool-cases (leb (age e.1) (age f.1))) [
  | inl small ↦
      subst (λ l. In x l ↔ In x (e ∷ f ∷ es)) (sym (insert_front e f es small)) (λ i. i, λ i. i)
  | inr big ↦
      subst (λ l. In x l ↔ In x (e ∷ f ∷ es)) (sym (insert_later e f es big))
        (
          λ i. elim i [
            | inl same ↦ inr (inl same)
            | inr in_rest ↦ elim ((In-insert x e es).0 in_rest) [
              | inl new ↦ inl new
              | inr old ↦ inr (inr old)
            ]
          ],
          λ i. elim i [
            | inl new ↦ inr ((In-insert x e es).1 (inl new))
            | inr old ↦ elim old [
              | inl same ↦ inl same
              | inr in_rest ↦ inr ((In-insert x e es).1 (inr in_rest))
            ]
          ],
        )
]

pub In-insertion_sort : (es : List Entry) (x : Entry) → In x (insertion_sort es) ↔ In x es
unfolding insertion_sort
In-insertion_sort [] x = (λ i. i, λ i. i)
In-insertion_sort (e ∷ es) x =
    let there = In-insert x e (insertion_sort es) in
    let rest = In-insertion_sort es x in
    (
      λ i. elim (there.0 i) [ inl same ↦ inl same | inr in_rest ↦ inr (rest.0 in_rest) ],
      λ i. elim i [ inl same ↦ there.1 (inl same) | inr in_rest ↦ there.1 (inr (rest.1 in_rest)) ],
    )

abbrev pub sorter : Sorter
sorter = record {
  sort = insertion_sort;
  sort-Ascending = insertion_sort-Ascending;
  in-sort = In-insertion_sort;
}

abbrev song : Text
song = codes "a"

abbrev other_song : Text
other_song = codes "b"

abbrev old_stat : FileStat
old_stat = record { size = 700; atime = 50; mtime = 10 }

abbrev new_stat : FileStat
new_stat = record { size = 800; atime = 60; mtime = 20 }

abbrev two_files : Cache
two_files = (other_song, new_stat) ∷ (song, old_stat) ∷ []

-- No file has changed since its size was put.
abbrev pub unchanged : Text → Option ℕ
unchanged _ = some 5

two_files-IsMap : IsMap two_files
unfolding find text_eq
two_files-IsMap = (refl, (refl, tt))

find-song : find song two_files ≡ some old_stat
unfolding find text_eq
find-song = refl

find-get_filesize_example :
    find song (get_filesize two_files song 5 90).0
    ≡ (if text_eq song song then looked_up (find song two_files) 5 90 else find song two_files)
find-get_filesize_example = find-get_filesize two_files song 5 90 song two_files-IsMap

newer-song :
    newer (find song two_files) (record { size = 900; atime = 95; mtime = 30 })
    ≡ record { size = 900; atime = 95; mtime = 30 }
unfolding newer find text_eq
newer-song = refl

get_filesize-store_example : (get_filesize (store two_files song 900 30 95) song 25 99).1 ≡ some 900
get_filesize-store_example = get_filesize-store two_files song 900 30 95 25 99 newer-song refl

history : List Action
history = gets song 5 90 ∷ stores song 900 30 95 ∷ removes (other_song, new_stat) ∷ []

after_history :
    find song (act_all two_files history) ≡ some (record { size = 900; atime = 95; mtime = 30 })
unfolding history act_all act get_filesize store remove_entry find assign erase stat_eq text_eq
after_history = refl

act_all-source_example : Known song 900 30 two_files ⊎ Stored song 900 30 history
act_all-source_example =
    act_all-source two_files history song (record { size = 900; atime = 95; mtime = 30 })
      two_files-IsMap after_history

length-put_filesize-le_example :
    length (put_filesize sorter unchanged 2 alone two_files (codes "c") 300 7 99) ≤ 2
length-put_filesize-le_example =
    length-put_filesize-le sorter unchanged 2 two_files (codes "c") 300 7 99 two_files-IsMap

song_gone : find song (prune sorter unchanged 2 alone two_files) ≡ none
unfolding prune at_last_lock act_all remove_stale is_stale remove_oldest target_size insertion_sort
    insert remove_entry find erase stat_eq text_eq
song_gone = refl

other_kept : find other_song (prune sorter unchanged 2 alone two_files) ≡ some new_stat
unfolding prune at_last_lock act_all remove_stale is_stale remove_oldest target_size insertion_sort
    insert remove_entry find erase stat_eq text_eq
other_kept = refl

song_fresh : is_stale unchanged (song, old_stat) ≡ false
unfolding is_stale
song_fresh = refl

prune-age_example : age old_stat ≤ age new_stat
prune-age_example =
    prune-age sorter unchanged 2 two_files song other_song old_stat new_stat two_files-IsMap
      find-song song_fresh song_gone other_kept

find_of_prune_example :
    (find other_song two_files ≡ some new_stat)
    × ((st_mtime : ℕ) × (unchanged other_song ≡ some st_mtime)
        × ((st_mtime + half) % word ≤ (new_stat.mtime + half) % word))
find_of_prune_example =
    find_of_prune sorter unchanged 2 two_files other_song new_stat two_files-IsMap other_kept

-- While `prune` sorts, another thread looks the oldest file up.
abbrev one_lookup : Others
one_lookup = record { before = []; between = (gets song 5 90 ∷ []) ∷ []; last = [] }

song_used :
    find song (at_last_lock sorter unchanged one_lookup two_files)
    ≡ some (record old_stat { atime = 90 })
unfolding at_last_lock act_all act get_filesize assign remove_stale is_stale insertion_sort insert
    remove_entry find erase stat_eq text_eq
song_used = refl

song_was_older : ¬ In (song, record old_stat { atime = 90 }) (act_all two_files one_lookup.before)
unfolding act_all
song_was_older = λ i. elim i [
  | inl first ↦ omega (arith, ap (λ (e : Entry). e.1.size) first)
  | inr rest ↦ elim rest [
    | inl second ↦ omega (arith, ap (λ (e : Entry). e.1.atime) second)
    | inr none_left ↦ none_left
  ]
]

find-prune_example :
    find song (prune sorter unchanged 2 one_lookup two_files)
    ≡ some (record old_stat { atime = 90 })
find-prune_example =
    find-prune sorter unchanged 2 one_lookup two_files song (record old_stat { atime = 90 })
      two_files-IsMap song_used song_was_older
