-- ===== src/LevelManager.antt =====
-- src/core/engine/level_manager.cpp: the catalog of SSTables, a list of tables for each level. An
-- operation that throws answers `none`; one that changes the catalog returns its status and the
-- catalog after it.
pub mod Order
pub mod Lookup
pub mod Neighbours
pub mod Add
pub mod Locate
pub mod Remove
pub mod Undo
mod Tests
use kvdb.Base.{
  ℕ, zero, suc, ◌+◌, ◌-◌, ◌^◌, Bool, true, false, not, ◌&&◌, ◌||◌, Option, none, some, List, [],
  ◌∷◌, ◌++◌, length, get_elem?, set, filter, any, all, find_if, last, head, erase_index, ltb, ◌==◌,
  if◌then◌else◌,
}
use kvdb.Search.{lower_bound}
use kvdb.Status.{
  StatusCode, ok_code, invalid_argument, duplicate, not_found, invariant_violation, Result, ok,
  fail, ◌>>=◌,
}
use kvdb.Entry.{ArenaEntry, entry_lt}
use kvdb.TableMeta.{TableMeta}

unfoldable pub key_is_inside_table : ArenaEntry → TableMeta → Bool
key_is_inside_table key table =
    not (entry_lt key table.smallest_key) && not (entry_lt table.largest_key key)

unfoldable pub ranges_overlap : ArenaEntry → ArenaEntry → ArenaEntry → ArenaEntry → Bool
ranges_overlap first_smallest first_largest second_smallest second_largest =
    not (entry_lt first_largest second_smallest) && not (entry_lt second_largest first_smallest)

-- `levels_`
abbrev pub LevelManager : Type 0
LevelManager = List (List TableMeta)

abbrev pub empty_levels : ℕ → LevelManager
empty_levels zero = []
empty_levels (suc n) = [] ∷ empty_levels n

-- The constructor.
unfoldable pub new_level_manager : ℕ → Option LevelManager
new_level_manager level_count = if level_count == 0 then none else some (empty_levels level_count)

abbrev pub has_id : ℕ → TableMeta → Bool
has_id id table = table.table_id == id

-- L0: newer files first, by their ids.
unfoldable pub insert_newest : TableMeta → List TableMeta → List TableMeta
insert_newest meta tables =
    let (before, after) = lower_bound (λ table. ltb meta.table_id table.table_id) tables in
    before ++ (meta ∷ after)

abbrev pub overlaps_previous : TableMeta → Option TableMeta → Bool
overlaps_previous meta none = false
overlaps_previous meta (some previous) =
    ranges_overlap previous.smallest_key previous.largest_key meta.smallest_key meta.largest_key

abbrev pub overlaps_next : TableMeta → Option TableMeta → Bool
overlaps_next meta none = false
overlaps_next meta (some next) =
    ranges_overlap meta.smallest_key meta.largest_key next.smallest_key next.largest_key

-- L1 and above: by the smallest key, if neither neighbour overlaps.
unfoldable pub insert_disjoint : TableMeta → List TableMeta → Result (List TableMeta)
insert_disjoint meta tables =
    let (before, after) =
      lower_bound (λ table. entry_lt table.smallest_key meta.smallest_key) tables in
    if overlaps_previous meta (last before)
    then fail invariant_violation
    else if overlaps_next meta (head after)
    then fail invariant_violation
    else ok (before ++ (meta ∷ after))

unfoldable pub install : TableMeta → List TableMeta → Result (List TableMeta)
install meta tables =
    if meta.level == 0 then ok (insert_newest meta tables) else insert_disjoint meta tables

-- A level with its new tables, or the catalog as it was.
abbrev pub replaced : ℕ → LevelManager → Result (List TableMeta) → StatusCode × LevelManager
replaced level levels (ok tables) = (ok_code, set levels level tables)
replaced level levels (fail code) = (code, levels)

unfoldable pub add_table : TableMeta → LevelManager → StatusCode × LevelManager
add_table meta levels =
    if meta.table_id == 0 then (invalid_argument, levels) else elim (get_elem? levels meta.level) [
      | none ↦ (invalid_argument, levels)
      | some tables ↦
          if entry_lt meta.largest_key meta.smallest_key
          then (invalid_argument, levels)
          else if any (any (has_id meta.table_id)) levels
          then (duplicate, levels)
          else replaced meta.level levels (install meta tables)
    ]

-- The removal from the level that the caller names.
unfoldable pub erase_id : ℕ → List TableMeta → Result (List TableMeta)
erase_id id tables = elim (find_if (has_id id) tables) [
  | none ↦ fail not_found
  | some (before, table, after) ↦ elim (find_if (has_id id) after) [
    | none ↦ ok (before ++ after)
    | some second ↦ fail invariant_violation
  ]
]

-- One table of the search over all levels, at its level and index.
abbrev pub visit : ℕ → TableMeta → ℕ × ℕ → Option (ℕ × ℕ) → Result (Option (ℕ × ℕ))
visit id table here none = ok (if has_id id table then some here else none)
visit id table here (some found) =
    if has_id id table then fail invariant_violation else ok (some found)

unfoldable pub locate_in_level :
    ℕ → ℕ → ℕ → List TableMeta → Option (ℕ × ℕ) → Result (Option (ℕ × ℕ))
locate_in_level id level_index table_index [] found = ok found
locate_in_level id level_index table_index (table ∷ tables) found =
    visit id table (level_index, table_index) found
    >>= locate_in_level id level_index (suc table_index) tables

unfoldable pub locate : ℕ → ℕ → LevelManager → Option (ℕ × ℕ) → Result (Option (ℕ × ℕ))
locate id level_index [] found = ok found
locate id level_index (tables ∷ levels) found =
    locate_in_level id level_index 0 tables found >>= locate id (suc level_index) levels

abbrev pub erase_at : LevelManager → ℕ → ℕ → LevelManager
erase_at [] level_index table_index = []
erase_at (tables ∷ levels) zero table_index = erase_index tables table_index ∷ levels
erase_at (tables ∷ levels) (suc level_index) table_index =
    tables ∷ erase_at levels level_index table_index

abbrev pub erased : LevelManager → Result (Option (ℕ × ℕ)) → StatusCode × LevelManager
erased levels (fail code) = (code, levels)
erased levels (ok none) = (not_found, levels)
erased levels (ok (some (level_index, table_index))) =
    (ok_code, erase_at levels level_index table_index)

unfoldable pub remove_table : ℕ → Option ℕ → LevelManager → StatusCode × LevelManager
remove_table id target_level levels =
    if id == 0 then (invalid_argument, levels) else elim target_level [
      | none ↦ erased levels (locate id 0 levels none)
      | some level ↦ elim (get_elem? levels level) [
        | none ↦ (invalid_argument, levels)
        | some tables ↦ replaced level levels (erase_id id tables)
      ]
    ]

-- `get_lx_tables`; `levels` is the same and throws where this is null.
unfoldable pub get_lx_tables : LevelManager → ℕ → Option (List TableMeta)
get_lx_tables levels level = get_elem? levels level

-- The cast to `uint32_t` loses nothing, since the constructor took the count as one.
unfoldable pub level_count : LevelManager → ℕ
level_count levels = length levels

abbrev pub is_nil : List TableMeta → Bool
is_nil [] = true
is_nil (table ∷ tables) = false

unfoldable pub empty : LevelManager → Bool
empty levels = all is_nil levels

abbrev pub if_inside : ArenaEntry → Option TableMeta → List TableMeta
if_inside key none = []
if_inside key (some table) = if key_is_inside_table key table then table ∷ [] else []

unfoldable pub candidates : ℕ → ArenaEntry → List TableMeta → List TableMeta
candidates level key tables =
    if level == 0
    then filter (key_is_inside_table key) tables
    else if_inside key (head (lower_bound (λ table. entry_lt table.largest_key key) tables).1)

unfoldable pub find_candidate_tables_in_level :
    LevelManager → ℕ → ArenaEntry → Result (List TableMeta)
find_candidate_tables_in_level levels level key = elim (get_elem? levels level) [
  | none ↦ fail not_found
  | some tables ↦ ok (candidates level key tables)
]

abbrev pub overlaps_range : ArenaEntry → ArenaEntry → TableMeta → Bool
overlaps_range smallest largest table =
    ranges_overlap table.smallest_key table.largest_key smallest largest

-- The loop that collects tables until one starts above `largest`.
unfoldable pub collect_until : ArenaEntry → List TableMeta → List TableMeta
collect_until largest [] = []
collect_until largest (table ∷ tables) =
    let rest = collect_until largest tables in
    if entry_lt largest table.smallest_key then [] else table ∷ rest

unfoldable pub overlapping : ℕ → ArenaEntry → ArenaEntry → List TableMeta → List TableMeta
overlapping level smallest largest tables =
    if level == 0
    then filter (overlaps_range smallest largest) tables
    else collect_until largest (lower_bound (λ table. entry_lt table.largest_key smallest) tables).1

unfoldable pub find_overlapping_tables : LevelManager → ℕ → ArenaEntry → ArenaEntry → List TableMeta
find_overlapping_tables levels level smallest largest = elim (get_elem? levels level) [
  | none ↦ []
  | some tables ↦
      if entry_lt largest smallest then [] else overlapping level smallest largest tables
]

-- The sum of file sizes, or the throw on an overflow of `size_t`.
unfoldable pub sum_sizes : List TableMeta → ℕ → Option ℕ
sum_sizes [] result = some result
sum_sizes (table ∷ tables) result =
    let rest = sum_sizes tables (result + table.file_size) in
    if ltb (2 ^ 64 - 1 - result) table.file_size then none else rest

unfoldable pub get_layer_size : LevelManager → ℕ → Option ℕ
get_layer_size levels level = elim (get_elem? levels level) [
  | none ↦ none
  | some tables ↦ sum_sizes tables 0
]
