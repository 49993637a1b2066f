-- ===== src/LevelManager/Tests.antt =====
-- Runs of the level operations, and the theorems at a catalog of two levels.
use mathlib.Core.Path.{subst}
use kvdb.Base.{
  ℕ, ◌≡◌, refl, none, some, [], ◌∷◌, filter, any, if◌then◌else◌, ◌==◌, arith, not, ◌&&◌,
}
use kvdb.Search.{lower_bound, bisect}
use kvdb.Status.{ok_code, invalid_argument, invariant_violation, not_found, ok}
use kvdb.Entry.{ArenaEntry, entry_lt, memcmp}
use kvdb.TableMeta.{TableMeta}
use kvdb.LevelManager.{
  LevelManager, empty_levels, add_table, remove_table, install, insert_disjoint, ranges_overlap,
  key_is_inside_table, find_candidate_tables_in_level, find_overlapping_tables, overlaps_range,
  get_layer_size, sum_sizes,
}
use kvdb.LevelManager.Order.{IsValid, empty_levels-IsValid, count_all}
use kvdb.LevelManager.Lookup.{find_candidate_tables_in_level-filter, find_overlapping_tables-filter}
use kvdb.LevelManager.Add.{add_table-IsValid, add_table_disjoint}
use kvdb.LevelManager.Remove.{remove_table-IsValid, remove_table-count_all}
use kvdb.LevelManager.Undo.{remove_table-add_table}

abbrev table : ℕ → ℕ → ArenaEntry → ArenaEntry → TableMeta
table id level smallest largest = record {
  table_id = id;
  level = level;
  path = [];
  min_seq = 1;
  max_seq = 9;
  file_size = 100;
  record_count = 2;
  tombstone_count = 0;
  data_block_count = 1;
  data_bytes = 50;
  smallest_key = smallest;
  largest_key = largest;
}

abbrev low : TableMeta
low = table 1 1 (1 ∷ []) (3 ∷ [])

abbrev high : TableMeta
high = table 2 1 (5 ∷ []) (7 ∷ 7 ∷ [])

abbrev middle : TableMeta
middle = table 3 1 (4 ∷ []) (4 ∷ 9 ∷ [])

abbrev wide : TableMeta
wide = table 3 1 (2 ∷ []) (6 ∷ [])

abbrev catalog : LevelManager
catalog = [] ∷ (low ∷ high ∷ []) ∷ []

catalog_built : (add_table low (add_table high (empty_levels 2)).1).1 ≡ catalog
unfolding add_table install insert_disjoint ranges_overlap lower_bound bisect entry_lt memcmp
catalog_built = refl

catalog-IsValid : IsValid catalog
catalog-IsValid = subst IsValid catalog_built (
    add_table-IsValid low (add_table high (empty_levels 2)).1
      (add_table-IsValid high (empty_levels 2) (empty_levels-IsValid 2)))

add_middle : add_table middle catalog ≡ (ok_code, [] ∷ (low ∷ middle ∷ high ∷ []) ∷ [])
unfolding add_table install insert_disjoint ranges_overlap lower_bound bisect entry_lt memcmp
add_middle = refl

layer_size : get_layer_size catalog 1 ≡ some 200
unfolding get_layer_size sum_sizes
layer_size = refl

add_table-IsValid_example : IsValid (add_table middle catalog).1
add_table-IsValid_example = add_table-IsValid middle catalog catalog-IsValid

add_table_disjoint_example : (add_table wide catalog).0 ≡ (
    if wide.table_id == 0
    then invalid_argument
    else if any (overlaps_range (2 ∷ []) (6 ∷ [])) (low ∷ high ∷ [])
    then invariant_violation
    else ok_code)
unfolding entry_lt memcmp
add_table_disjoint_example =
    add_table_disjoint wide catalog (low ∷ high ∷ []) catalog-IsValid refl (ground arith) refl refl

remove_table-IsValid_example : IsValid (remove_table 2 none catalog).1
remove_table-IsValid_example = remove_table-IsValid 2 none catalog catalog-IsValid

remove_table-count_all_example :
    ((remove_table 2 none catalog).0 ≡ (
      if 2 == 0 then invalid_argument else if count_all 2 catalog == 0 then not_found else ok_code))
    × ((other : ℕ)
        → count_all other (remove_table 2 none catalog).1
          ≡ (if not (2 == 0) && (other == 2) then 0 else count_all other catalog))
remove_table-count_all_example = remove_table-count_all 2 catalog catalog-IsValid

remove_table-add_table_example :
    remove_table 3 none (add_table middle catalog).1 ≡ (ok_code, catalog)
unfolding add_table install insert_disjoint ranges_overlap lower_bound bisect entry_lt memcmp
remove_table-add_table_example = remove_table-add_table middle catalog catalog-IsValid refl

find_candidate_tables_in_level-filter_example :
    find_candidate_tables_in_level catalog 1 (6 ∷ [])
    ≡ ok (filter (key_is_inside_table (6 ∷ [])) (low ∷ high ∷ []))
find_candidate_tables_in_level-filter_example =
    find_candidate_tables_in_level-filter catalog 1 (6 ∷ []) (low ∷ high ∷ []) catalog-IsValid.0
      refl

find_overlapping_tables-filter_example :
    find_overlapping_tables catalog 1 (2 ∷ []) (6 ∷ [])
    ≡ filter (overlaps_range (2 ∷ []) (6 ∷ [])) (low ∷ high ∷ [])
unfolding entry_lt memcmp
find_overlapping_tables-filter_example =
    find_overlapping_tables-filter catalog 1 (2 ∷ []) (6 ∷ []) (low ∷ high ∷ []) catalog-IsValid.0
      refl refl
