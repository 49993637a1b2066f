-- ===== src/Compaction/Schedule.antt =====
-- The scheduler: the plan that it makes from a valid catalog passes the plan's validation, and a
-- plan is made exactly where `should_compact` asks for one.
use mathlib.Core.Path.{subst}
use kvdb.Base.{
  ℕ, zero, suc, ◌+◌, ◌-◌, ◌^◌, ◌≤◌, ◌<◌, ◌≡◌, ◌≢◌, refl, Bool, true, false, none, some, List, [],
  ◌∷◌, get_elem?, arith, Bool-cases, Option-cases, inl, inr, ◌==◌, ==_iff,
}
use kvdb.Status.{is_ok, ok}
use kvdb.TableMeta.{TableMeta}
use kvdb.LevelManager.{LevelManager, get_lx_tables}
use kvdb.LevelManager.Order.{IsValid, count}
use kvdb.Compaction.{
  CompactionOptions, validate_options, should_compact, pick_from, pick_compaction, entry_at,
  any_level, l0_is_full, is_over_budget, level_size_bytes, sum_saturating,
}
use kvdb.Compaction.Plans.{IsPicked, pick_level-IsPicked}

any_level-at :
    (test : ℕ → Bool) (level count i : ℕ)
    → any_level test level count ≡ false
    → level ≤ i
    → i < level + count
    → test i ≡ false
any_level-at test level zero i h a b = absurd (omega arith)
any_level-at test level (suc count) i h a b = elim (Bool-cases (level == i)) [
  | inl e ↦
      let same : level ≡ i = (==_iff level i).0 e in subst (λ n. test n ≡ false) same (ground arith)
  | inr n ↦ any_level-at test (suc level) count i (ground arith) (ground arith) (omega arith)
]

over_budget-nonempty :
    (manager : LevelManager) (o : CompactionOptions) (level : ℕ)
    → is_over_budget manager o level ≡ true
    → (first : TableMeta) × (others : List TableMeta) × (get_elem? manager level
        ≡ some (first ∷ others))
unfolding level_size_bytes sum_saturating get_lx_tables
over_budget-nonempty manager o level h = elim (Option-cases (get_elem? manager level)) [
  | inl e ↦ absurd (ground arith)
  | inr (ts, e) ↦ go ts e
]
  where
    go :
        (ts : List TableMeta)
        → get_elem? manager level ≡ some ts
        → (first : TableMeta) × (others : List TableMeta) × (get_elem? manager level
            ≡ some (first ∷ others))
    go [] e = absurd (ground arith)
    go (first ∷ others) e = (first, others, e)

module _ (manager : LevelManager) (o : CompactionOptions) (valid : IsValid manager)
    (sizes : (level : ℕ)
      → 1 ≤ level
      → level < o.max_levels
      → entry_at o.target_file_size_per_level level ≢ 0)
    (small : o.max_levels < 2 ^ 32) where
  pick_from-IsPicked :
      (level count : ℕ)
      → level + count < o.max_levels
      → any_level (is_over_budget manager o) level count ≡ true
      → IsPicked (pick_from manager o level count)
  unfolding pick_from
  pick_from-IsPicked level zero below h = cc
  pick_from-IsPicked level (suc count) below h =
      elim (Bool-cases (is_over_budget manager o level)) [
        | inl e ↦
            let (first, others, present) = over_budget-nonempty manager o level e in
            rw e (
              pick_level-IsPicked manager level o first others valid present
                (sizes (level + 1) (omega arith) (omega arith)) (omega arith) small)
        | inr e ↦ rw e (pick_from-IsPicked (suc level) count (omega arith) (ground arith))
      ]

  pick_from-none :
      (level count : ℕ)
      → any_level (is_over_budget manager o) level count ≡ false
      → pick_from manager o level count ≡ ok none
  unfolding pick_from
  pick_from-none level zero h = refl
  pick_from-none level (suc count) h = ground (arith, pick_from-none (suc level) count)

options-sizes :
    (o : CompactionOptions)
    → is_ok (validate_options o) ≡ true
    → (level : ℕ) → 1 ≤ level
    → level < o.max_levels
    → entry_at o.target_file_size_per_level level ≢ 0
unfolding validate_options
options-sizes o h level above below z =
    let none_zero : any_level (λ l. entry_at o.target_file_size_per_level l == 0) 1
          (o.max_levels - 1)
        ≡ false =
      ground arith in
    let nonzero = any_level-at _ 1 (o.max_levels - 1) level none_zero above (ground arith) in
    absurd (ground arith)

full-nonempty :
    (manager : LevelManager) (o : CompactionOptions)
    → is_ok (validate_options o) ≡ true
    → l0_is_full manager o ≡ true
    → (first : TableMeta) × (others : List TableMeta) × (get_elem? manager 0
        ≡ some (first ∷ others))
unfolding get_lx_tables validate_options
full-nonempty [] o valid h = absurd (ground arith)
full-nonempty ([] ∷ levels) o valid h = absurd (ground arith)
full-nonempty ((first ∷ others) ∷ levels) o valid h = (first, others, refl)

options-levels : (o : CompactionOptions) → is_ok (validate_options o) ≡ true → 2 ≤ o.max_levels
unfolding validate_options
options-levels o h = ground arith

-- With valid options and a valid catalog, a plan is made exactly if should_compact answers true, and
-- that plan passes its validation: the scheduler's error branches are not reached. The number of
-- levels is a 32-bit number.
pub pick_compaction-should_compact :
    (manager : LevelManager) (o : CompactionOptions)
    → IsValid manager
    → is_ok (validate_options o) ≡ true
    → o.max_levels < 2 ^ 32
    → (should_compact manager o ≡ true → IsPicked (pick_compaction manager o))
      × (should_compact manager o ≡ false → pick_compaction manager o ≡ ok none)
unfolding pick_compaction should_compact
pick_compaction-should_compact manager o valid good small =
    let sizes = options-sizes o good in
    let two = options-levels o good in
    elim (Bool-cases (l0_is_full manager o)) [
      | inl full ↦
          let (first, others, present) = full-nonempty manager o good full in
          (
            λ _.
                rw (good, full)
                  (pick_level-IsPicked manager 0 o first others valid present
                    (sizes 1 (omega arith) (omega arith)) (omega arith) small),
            λ e. absurd (ground arith),
          )
      | inr room ↦ (
        λ e.
            rw (good, room)
              (pick_from-IsPicked manager o valid sizes small 1 (o.max_levels - 2) (omega arith)
                (ground arith)),
        λ e.
            rw (good, room)
              (pick_from-none manager o valid sizes small 1 (o.max_levels - 2) (ground arith)),
      )
    ]
