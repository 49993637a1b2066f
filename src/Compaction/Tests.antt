-- ===== src/Compaction/Tests.antt =====
-- Runs of the scheduler, and its theorem at a catalog of three levels.
use mathlib.Core.Path.{subst}
use kvdb.Base.{ℕ, some, ◌≡◌, refl, true, false, none, [], ◌∷◌, arith}
use kvdb.Search.{lower_bound, bisect}
use kvdb.Status.{ok, is_ok, invalid_argument}
use kvdb.Entry.{ArenaEntry, entry_lt, memcmp}
use kvdb.TableMeta.{TableMeta}
use kvdb.LevelManager.{
  LevelManager, empty_levels, add_table, install, insert_newest, insert_disjoint, ranges_overlap,
  find_overlapping_tables, overlapping, collect_until, get_lx_tables,
}
use kvdb.LevelManager.Order.{IsValid, empty_levels-IsValid}
use kvdb.LevelManager.Add.{add_table-IsValid}
use kvdb.Compaction.{
  CompactionOptions, validate_options, plan_of, widen_all, widen_plan_range, should_compact,
  pick_compaction, pick_level_compaction, validate_plan, validate_inputs, validate_tables,
  table_range_is_valid, range_contains, CompactionPlan,
}
use kvdb.Compaction.Job.{plan_is_current, is_bottommost_destination, empty_from}
use kvdb.Compaction.Job.Current.{plan_is_current-pick_compaction}
use kvdb.Compaction.Plans.{IsPicked}
use kvdb.Compaction.Closed.{find_overlapping_tables-plan_of}
use kvdb.Compaction.Schedule.{pick_compaction-should_compact}

abbrev table : ℕ → ℕ → ArenaEntry → ArenaEntry → TableMeta
table id level smallest largest = record {
  table_id = id;
  level = level;
  path = [];
  min_seq = 1;
  max_seq = 9;
  file_size = 100;
  record_count = 2;
  tombstone_count = 0;
  data_block_count = 1;
  data_bytes = 50;
  smallest_key = smallest;
  largest_key = largest;
}

abbrev flushed : TableMeta
flushed = table 7 0 (2 ∷ []) (4 ∷ [])

abbrev older : TableMeta
older = table 3 1 (3 ∷ []) (8 ∷ [])

abbrev manager : LevelManager
manager = (flushed ∷ []) ∷ (older ∷ []) ∷ [] ∷ []

manager_built : (add_table flushed (add_table older (empty_levels 3)).1).1 ≡ manager
unfolding add_table install insert_newest insert_disjoint ranges_overlap lower_bound bisect entry_lt
    memcmp
manager_built = refl

manager-IsValid : IsValid manager
manager-IsValid = subst IsValid manager_built (
    add_table-IsValid flushed (add_table older (empty_levels 3)).1
      (add_table-IsValid older (empty_levels 3) (empty_levels-IsValid 3)))

abbrev options : CompactionOptions
options = record {
  max_levels = 3;
  l0_file_count_trigger = 1;
  max_bytes_per_level = 0 ∷ 150 ∷ 0 ∷ [];
  target_file_size_per_level = 10 ∷ 10 ∷ 20 ∷ [];
}

options_valid : is_ok (validate_options options) ≡ true
unfolding validate_options
options_valid = refl

too_few_levels : validate_options (record options { max_levels = 1 }) ≡ invalid_argument
unfolding validate_options
too_few_levels = refl

widened : (plan_of manager 0 options flushed []).largest_key ≡ 8 ∷ []
unfolding plan_of widen_all widen_plan_range find_overlapping_tables overlapping collect_until
    lower_bound bisect ranges_overlap entry_lt memcmp
widened = refl

pick_compaction-should_compact_example :
    (should_compact manager options ≡ true → IsPicked (pick_compaction manager options))
    × (should_compact manager options ≡ false → pick_compaction manager options ≡ ok none)
pick_compaction-should_compact_example =
    pick_compaction-should_compact manager options manager-IsValid options_valid (omega arith)

find_overlapping_tables-plan_of_example :
    find_overlapping_tables manager 1
      (plan_of manager 0 options flushed []).smallest_key
      (plan_of manager 0 options flushed []).largest_key
    ≡ (plan_of manager 0 options flushed []).overlapping_tables
unfolding entry_lt memcmp
find_overlapping_tables-plan_of_example =
    find_overlapping_tables-plan_of manager 0 options flushed [] manager-IsValid refl

abbrev flush_plan : CompactionPlan
flush_plan = plan_of manager 0 options flushed []

flush_picked : pick_compaction manager options ≡ ok (some flush_plan)
unfolding pick_compaction validate_options pick_level_compaction get_lx_tables validate_plan
    validate_inputs validate_tables table_range_is_valid range_contains plan_of widen_all
    widen_plan_range find_overlapping_tables overlapping collect_until lower_bound bisect entry_lt
    memcmp
flush_picked = refl

plan_is_current-pick_compaction_example : plan_is_current flush_plan manager ≡ true
plan_is_current-pick_compaction_example =
    plan_is_current-pick_compaction manager options flush_plan manager-IsValid flush_picked

lowest_level : is_bottommost_destination manager 1 ≡ true
unfolding is_bottommost_destination empty_from get_lx_tables
lowest_level = refl

not_lowest_level : is_bottommost_destination manager 0 ≡ false
unfolding is_bottommost_destination empty_from get_lx_tables
not_lowest_level = refl
