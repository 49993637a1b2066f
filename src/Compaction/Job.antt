-- ===== src/Compaction/Job.antt =====
-- The checks of src/core/compaction/compaction_job.cpp that a job makes on the catalog before it merges:
-- whether its plan is current, and whether its output is the lowest level with data.
pub mod Bottom
pub mod Current
use kvdb.Base.{
  ℕ, zero, suc, ◌+◌, ◌-◌, ◌^◌, ◌≤◌, ◌<◌, ◌≡◌, inl, inr, refl, sym, ap, ◌∙◌, Bool, true, false, not,
  ◌&&◌, ◌||◌, Bool-cases, Option-cases, ltb, ◌==◌, if◌then◌else◌, List, [], ◌∷◌, length, drop, any,
  all, All, All-imp, get_elem?, filter, Option, none, some, arith,
}
use kvdb.Status.{Result, ok, fail, is_ok}
use kvdb.Entry.{ArenaEntry, entry_lt}
use kvdb.TableMeta.{TableMeta}
use kvdb.LevelManager.{LevelManager, get_lx_tables, is_nil, find_overlapping_tables}
use kvdb.LevelManager.Order.{IsValid}
use kvdb.LevelManager.Lookup.{find_overlapping_tables-filter}
use kvdb.Compaction.{
  CompactionOptions, CompactionPlan, validate_options, is_over_budget, l0_is_full, checked, plan_of,
  widen_all, largest_file, pick_level_compaction, pick_from, pick_compaction,
}
use kvdb.Compaction.Ids.{All-filter, largest_file-All}

unfoldable pub level_contains_table : LevelManager → ℕ → ℕ → Bool
unfolding get_lx_tables
level_contains_table manager level table_id = elim (get_lx_tables manager level) [
  | none ↦ false
  | some tables ↦ any (λ table. table.table_id == table_id) tables
]

unfoldable pub plan_is_current : CompactionPlan → LevelManager → Bool
plan_is_current plan manager =
    all (λ table. level_contains_table manager plan.source_level table.table_id) plan.source_tables
    && all (λ table. level_contains_table manager plan.target_level table.table_id)
        plan.overlapping_tables

-- The loop over the levels from `level` on; it ends at the first that the catalog does not have.
unfoldable pub empty_from : ℕ → LevelManager → ℕ → Bool
empty_from zero manager level = true
empty_from (suc fuel) manager level = elim (get_lx_tables manager level) [
  | none ↦ true
  | some tables ↦
      let rest = empty_from fuel manager (suc level) in
      if not (is_nil tables) then false else if level == 2 ^ 32 - 1 then true else rest
]

unfoldable pub is_bottommost_destination : LevelManager → ℕ → Bool
is_bottommost_destination manager target_level =
    if target_level == 2 ^ 32 - 1
    then true
    else empty_from (suc (length manager)) manager (target_level + 1)
