-- ===== src/Compaction.antt =====
-- src/core/compaction/compaction_options.cpp, compaction_plan.cpp and compaction_scheduler.cpp: the
-- options and their validation, the plan of one compaction and its validation, and the choice of the
-- next plan from the catalog of tables.
pub mod Ranges
pub mod Ids
pub mod Plans
pub mod Schedule
pub mod Job
pub mod Closed
mod Tests
use kvdb.Base.{
  ℕ, zero, suc, ◌+◌, ◌-◌, ◌^◌, Bool, true, false, not, ◌&&◌, ◌||◌, Option, none, some, List, [],
  ◌∷◌, length, get_elem?, any, ltb, leb, ◌==◌, if◌then◌else◌,
}
use kvdb.Status.{
  StatusCode, ok_code, invalid_argument, invalid_state, corruption, is_ok, Result, ok, fail,
}
use kvdb.Entry.{ArenaEntry, entry_lt}
use kvdb.TableMeta.{TableMeta}
use kvdb.LevelManager.{LevelManager, get_lx_tables, find_overlapping_tables}

pub record CompactionOptions : Type 0 where
  pub max_levels : ℕ
  pub l0_file_count_trigger : ℕ
  pub max_bytes_per_level : List ℕ
  pub target_file_size_per_level : List ℕ

-- `v[i]`; the calls stay within the sizes that `validate_options` has compared.
abbrev pub entry_at : List ℕ → ℕ → ℕ
entry_at v i = elim (get_elem? v i) [ none ↦ 0 | some n ↦ n ]

-- Whether the test holds at one of `count` levels from `level` on: the loops of `validate_options`.
abbrev pub any_level : (ℕ → Bool) → ℕ → ℕ → Bool
any_level test level zero = false
any_level test level (suc count) = test level || any_level test (suc level) count

-- `CompactionOptions::validate`
unfoldable pub validate_options : CompactionOptions → StatusCode
validate_options o =
    if ltb o.max_levels 2
    then invalid_argument
    else if o.l0_file_count_trigger == 0
    then invalid_argument
    else if ltb (length o.max_bytes_per_level) o.max_levels
    then invalid_argument
    else if ltb (length o.target_file_size_per_level) o.max_levels
    then invalid_argument
    else if any_level (λ level. entry_at o.max_bytes_per_level level == 0) 1 (o.max_levels - 2)
    then invalid_argument
    else if any_level (λ level. entry_at o.target_file_size_per_level level == 0) 1
        (o.max_levels - 1)
    then invalid_argument
    else ok_code

pub data CompactionReason : Type 0 where
  manual : CompactionReason
  l0_reached_limit : CompactionReason
  lx_reached_limit : CompactionReason

abbrev pub is_l0_reason : CompactionReason → Bool
is_l0_reason l0_reached_limit = true
is_l0_reason _ = false

abbrev pub is_lx_reason : CompactionReason → Bool
is_lx_reason lx_reached_limit = true
is_lx_reason _ = false

pub record CompactionPlan : Type 0 where
  pub reason : CompactionReason
  pub source_level : ℕ
  pub target_level : ℕ
  pub source_tables : List TableMeta
  pub overlapping_tables : List TableMeta
  pub smallest_key : ArenaEntry
  pub largest_key : ArenaEntry
  pub max_output_file_size : ℕ

unfoldable pub table_range_is_valid : TableMeta → Bool
table_range_is_valid table = not (entry_lt table.largest_key table.smallest_key)

unfoldable pub range_contains : ArenaEntry → ArenaEntry → TableMeta → Bool
range_contains plan_smallest plan_largest table =
    not (entry_lt table.smallest_key plan_smallest) && not (entry_lt plan_largest table.largest_key)

-- `validate_table` on the tables of one level: the ids seen with them, or a rejection.
unfoldable pub validate_tables :
    ArenaEntry → ArenaEntry → ℕ → List TableMeta → List ℕ → Option (List ℕ)
validate_tables smallest largest expected_level [] table_ids = some table_ids
validate_tables smallest largest expected_level (table ∷ tables) table_ids =
    let rest =
      validate_tables smallest largest expected_level tables (table.table_id ∷ table_ids) in
    if table.table_id == 0 || not (table.level == expected_level)
    then none
    else if not (table_range_is_valid table) || not (range_contains smallest largest table)
    then none
    else if any (λ id. id == table.table_id) table_ids
    then none
    else rest

abbrev pub is_empty {ℓ} : {A : Type ℓ} → List A → Bool
is_empty [] = true
is_empty (x ∷ xs) = false

-- The loops of `CompactionPlan::validate`.
unfoldable pub validate_inputs : CompactionPlan → Bool
validate_inputs p =
    elim (validate_tables p.smallest_key p.largest_key p.source_level p.source_tables []) [
      | none ↦ false
      | some ids ↦
          elim (validate_tables p.smallest_key p.largest_key p.target_level p.overlapping_tables
            ids) [ none ↦ false | some all_ids ↦ true ]
    ]

-- `CompactionPlan::validate`
unfoldable pub validate_plan : CompactionPlan → Bool
validate_plan p =
    if is_empty p.source_tables
    then false
    else if p.source_level == 2 ^ 32 - 1 || not (p.target_level == p.source_level + 1)
    then false
    else if p.max_output_file_size == 0
    then false
    else if entry_lt p.largest_key p.smallest_key
    then false
    else if is_l0_reason p.reason && not (p.source_level == 0)
    then false
    else if is_lx_reason p.reason && p.source_level == 0
    then false
    else validate_inputs p

unfoldable pub sum_saturating : List TableMeta → ℕ → ℕ
sum_saturating [] total = total
sum_saturating (table ∷ tables) total =
    let rest = sum_saturating tables (total + table.file_size) in
    if ltb (2 ^ 64 - 1 - total) table.file_size then 2 ^ 64 - 1 else rest

unfoldable pub level_size_bytes : LevelManager → ℕ → ℕ
level_size_bytes manager level = elim (get_lx_tables manager level) [
  | none ↦ 0
  | some tables ↦ sum_saturating tables 0
]

-- The plan's key range, widened by a table, and by each table of a list.
unfoldable pub widen_plan_range : ArenaEntry × ArenaEntry → TableMeta → ArenaEntry × ArenaEntry
widen_plan_range (smallest, largest) table = (
  if entry_lt table.smallest_key smallest then table.smallest_key else smallest,
  if entry_lt largest table.largest_key then table.largest_key else largest,
)

unfoldable pub widen_all : ArenaEntry × ArenaEntry → List TableMeta → ArenaEntry × ArenaEntry
widen_all range [] = range
widen_all range (table ∷ tables) = widen_all (widen_plan_range range table) tables

abbrev pub smaller_file : TableMeta → TableMeta → Bool
smaller_file lhs rhs =
    if not (lhs.file_size == rhs.file_size)
    then ltb lhs.file_size rhs.file_size
    else ltb rhs.table_id lhs.table_id

-- `std::max_element` with that comparison.
unfoldable pub largest_file : TableMeta → List TableMeta → TableMeta
largest_file best [] = best
largest_file best (table ∷ tables) =
    largest_file (if smaller_file best table then table else best) tables

-- The plan for the sources chosen, of which `first` is one.
unfoldable pub plan_of :
    LevelManager → ℕ → CompactionOptions → TableMeta → List TableMeta → CompactionPlan
plan_of manager level o first others =
    let sources = first ∷ others in
    let (smallest, largest) = widen_all (first.smallest_key, first.largest_key) sources in
    let overlapping = find_overlapping_tables manager (level + 1) smallest largest in
    let (final_smallest, final_largest) = widen_all (smallest, largest) overlapping in
    record {
      reason = if level == 0 then l0_reached_limit else lx_reached_limit;
      source_level = level;
      target_level = level + 1;
      source_tables = sources;
      overlapping_tables = overlapping;
      smallest_key = final_smallest;
      largest_key = final_largest;
      max_output_file_size = entry_at o.target_file_size_per_level (level + 1);
    }

abbrev pub checked : CompactionPlan → Result (Option CompactionPlan)
checked plan = if not (validate_plan plan) then fail corruption else ok (some plan)

unfoldable pub pick_level_compaction :
    LevelManager → ℕ → CompactionOptions → Result (Option CompactionPlan)
pick_level_compaction manager level o = elim (get_lx_tables manager level) [
  | none ↦ fail invalid_state
  | some [] ↦ fail invalid_state
  | some (first ∷ others) ↦
      if not (ltb (level + 1) o.max_levels)
      then fail invalid_state
      else if level == 0
      then checked (plan_of manager level o first others)
      else checked (plan_of manager level o (largest_file first others) [])
]

abbrev pub l0_is_full : LevelManager → CompactionOptions → Bool
l0_is_full manager o = elim (get_lx_tables manager 0) [
  | none ↦ false
  | some l0 ↦ not (ltb (length l0) o.l0_file_count_trigger)
]

abbrev pub is_over_budget : LevelManager → CompactionOptions → ℕ → Bool
is_over_budget manager o level =
    ltb (entry_at o.max_bytes_per_level level) (level_size_bytes manager level)

unfoldable pub should_compact : LevelManager → CompactionOptions → Bool
should_compact manager o =
    if not (is_ok (validate_options o))
    then false
    else l0_is_full manager o || any_level (is_over_budget manager o) 1 (o.max_levels - 2)

-- The loop of `pick_compaction` over the levels above L0.
unfoldable pub pick_from : LevelManager → CompactionOptions → ℕ → ℕ → Result (Option CompactionPlan)
pick_from manager o level zero = ok none
pick_from manager o level (suc count) =
    let rest = pick_from manager o (suc level) count in
    if is_over_budget manager o level then pick_level_compaction manager level o else rest

unfoldable pub pick_compaction : LevelManager → CompactionOptions → Result (Option CompactionPlan)
pick_compaction manager o =
    if not (is_ok (validate_options o))
    then fail (validate_options o)
    else if l0_is_full manager o
    then pick_level_compaction manager 0 o
    else pick_from manager o 1 (o.max_levels - 2)
