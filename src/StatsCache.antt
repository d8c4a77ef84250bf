-- ===== src/StatsCache.antt =====
-- src/stats_cache.h and src/stats_cache.cc: the sizes of encoded files, by name and modified time.
pub mod Map
pub mod Lookup
pub mod Oldest
pub mod Prune
pub mod Lru
use mp3fs.Prelude.{
  ℕ, ◌+◌, ◌*◌, ◌/◌, ◌%◌, ◌^◌, ◌≤◌, Bool, true, false, ◌&&◌, ◌||◌, not, List, [], ◌∷◌, Option, none,
  some, ltb, leb, ◌==◌, if◌then◌else◌, signed_leb, length, Text, text_eq, ◌↔◌, ◌≡◌, ◌⊎◌, word, half,
}

-- `time_t` values are 64-bit patterns.
pub record FileStat : Type 0 where
  pub size : ℕ
  pub atime : ℕ
  pub mtime : ℕ

-- `cache_entry_t`.
abbrev pub Entry : Type 0
Entry = Text × FileStat

-- `std::map<std::string, FileStat>`.
abbrev pub Cache : Type 0
Cache = List Entry

-- `FileStat::operator==`.
unfoldable pub stat_eq : FileStat → FileStat → Bool
stat_eq a b = a.size == b.size && (a.atime == b.atime && a.mtime == b.mtime)

unfoldable pub find : Text → Cache → Option FileStat
find k [] = none
find k ((j, s) ∷ c) = if text_eq j k then some s else find k c

unfoldable pub erase : Text → Cache → Cache
erase k [] = []
erase k ((j, s) ∷ c) = if text_eq j k then c else (j, s) ∷ erase k c

-- `it->second = s`.
unfoldable pub assign : Text → FileStat → Cache → Cache
assign k s [] = []
assign k s ((j, t) ∷ c) = if text_eq j k then (j, s) ∷ c else (j, t) ∷ assign k s c

-- The new cache, and the size if the call returns true. `now` is what `time(nullptr)` returns.
unfoldable pub get_filesize : Cache → Text → ℕ → ℕ → Cache × Option ℕ
get_filesize c filename mtime now = elim (find filename c) [
  | none ↦ (c, none)
  | some s ↦
      if not (signed_leb mtime s.mtime)
      then (erase filename c, none)
      else (assign filename (record s { atime = now }) c, some s.size)
]

-- The part of `put_filesize` that runs under its lock.
unfoldable pub store : Cache → Text → ℕ → ℕ → ℕ → Cache
store c filename filesize mtime now =
    let s : FileStat = record { size = filesize; atime = now; mtime = mtime } in
    elim (find filename c) [
      | none ↦ (filename, s) ∷ c
      | some old ↦ if signed_leb old.mtime mtime then assign filename s c else c
    ]

unfoldable pub remove_entry : Cache → Entry → Cache
remove_entry c (file, s) = elim (find file c) [
  | none ↦ c
  | some t ↦ if stat_eq t s then erase file c else c
]

-- What another thread does while it holds the lock: a lookup, the first part of a
-- `put_filesize`, or a removal of its own `prune`.
pub data Action : Type 0 where
  gets : Text → ℕ → ℕ → Action
  stores : Text → ℕ → ℕ → ℕ → Action
  removes : Entry → Action

unfoldable pub act : Cache → Action → Cache
act c (gets k mtime now) = (get_filesize c k mtime now).0
act c (stores k filesize mtime now) = store c k filesize mtime now
act c (removes e) = remove_entry c e

unfoldable pub act_all : Cache → List Action → Cache
act_all c [] = c
act_all c (a ∷ more) = act_all (act c a) more

-- What the other threads do before the copy, before each lock that the first loop takes, and
-- before the last lock.
pub record Others : Type 0 where
  pub before : List Action
  pub between : List (List Action)
  pub last : List Action

-- No other thread touches the cache.
abbrev pub alone : Others
alone = record { before = []; between = []; last = [] }

-- Entries by access time, the oldest first.
abbrev pub Ascending : List Entry → Type 0
Ascending [] = Unit
Ascending (e ∷ []) = Unit
Ascending (e ∷ f ∷ es) =
    ((e.1.atime + half) % word ≤ (f.1.atime + half) % word) × Ascending (f ∷ es)

abbrev pub In : Entry → List Entry → Type 0
In e [] = ⊥
In e (x ∷ xs) = (e ≡ x) ⊎ In e xs

-- `std::sort` by access time: some ascending order of the same entries.
pub record Sorter : Type 0 where
  pub sort : List Entry → List Entry
  pub sort-Ascending : (es : List Entry) → Ascending (sort es)
  pub in-sort : (es : List Entry) (e : Entry) → In e (sort es) ↔ In e es

-- The actions of the next slot, and the slots behind it.
abbrev first_slot : List (List Action) → List Action
first_slot [] = []
first_slot (a ∷ r) = a

abbrev later_slots : List (List Action) → List (List Action)
later_slots [] = []
later_slots (a ∷ r) = r

-- `stat` gives the modified time of a file, or fails.
module _ (stat : Text → Option ℕ) where
  unfoldable pub is_stale : Entry → Bool
  is_stale (file, s) = elim (stat file) [
    | none ↦ true
    | some st_mtime ↦ not (signed_leb st_mtime s.mtime)
  ]

  -- The first loop of `prune`.
  unfoldable pub remove_stale : List (List Action) → List Entry → Cache → Cache
  remove_stale between [] c = c
  remove_stale between (e ∷ es) c =
      let c' = act_all c (first_slot between) in
      remove_stale (later_slots between) es (if is_stale e then remove_entry c' e else c')

-- The second loop of `prune`.
unfoldable pub remove_oldest : ℕ → List Entry → Cache → Cache
remove_oldest target [] c = c
remove_oldest target (e ∷ es) c = elim (leb (length c) target) [
  | true ↦ c
  | false ↦ remove_oldest target es (remove_entry c e)
]

-- `9 * params.statcachesize / 10`, in 32 bits.
unfoldable pub target_size : ℕ → ℕ
target_size statcachesize = (9 * statcachesize) % 2 ^ 32 / 10

module _ (sorter : Sorter) (stat : Text → Option ℕ) where
  -- The cache when the second loop of `prune` takes the lock.
  unfoldable pub at_last_lock : Others → Cache → Cache
  at_last_lock others c =
      let copied = act_all c others.before in
      act_all (remove_stale stat others.between (sorter.sort copied) copied) others.last

module _ (sorter : Sorter) (stat : Text → Option ℕ) (statcachesize : ℕ) where
  unfoldable pub prune : Others → Cache → Cache
  unfolding at_last_lock
  prune others c =
      let sorted_entries = sorter.sort (act_all c others.before) in
      remove_oldest (target_size statcachesize) sorted_entries (at_last_lock sorter stat others c)

  unfoldable pub put_filesize : Others → Cache → Text → ℕ → ℕ → ℕ → Cache
  put_filesize others c filename filesize mtime now =
      let c' = store c filename filesize mtime now in
      if ltb statcachesize (length c') then prune others c' else c'
