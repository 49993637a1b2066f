-- ===== src/Compaction/Job/Current.antt =====
-- The plans of the scheduler, checked by a job of src/core/compaction/compaction_job.cpp.
use kvdb.Base.{
  ℕ, zero, suc, ◌+◌, ◌-◌, ◌≡◌, inl, inr, refl, sym, ap, ◌∙◌, Bool, true, ◌&&◌, Bool-cases,
  Option-cases, ltb, ◌==◌, List, [], ◌∷◌, any, all, All, All-imp, get_elem?, some, arith,
}
use kvdb.Status.{ok, is_ok}
use kvdb.Entry.{ArenaEntry, entry_lt}
use kvdb.TableMeta.{TableMeta}
use kvdb.LevelManager.{LevelManager, get_lx_tables, find_overlapping_tables}
use kvdb.LevelManager.Order.{IsValid}
use kvdb.LevelManager.Lookup.{find_overlapping_tables-filter}
use kvdb.Compaction.{
  CompactionOptions, CompactionPlan, validate_options, is_over_budget, l0_is_full, checked, plan_of,
  widen_all, largest_file, pick_level_compaction, pick_from, pick_compaction,
}
use kvdb.Compaction.Ids.{All-filter, largest_file-All}
use kvdb.Compaction.Job.{level_contains_table, plan_is_current}

all-All : {A : Type 0} (p : A → Bool) (xs : List A) → All (λ x. p x ≡ true) xs → all p xs ≡ true
all-All p [] h = refl
all-All p (x ∷ xs) h = rw (h.0) (all-All p xs h.1)

any_own_id : (ts : List TableMeta) → All (λ t. any (λ u. u.table_id == t.table_id) ts ≡ true) ts
any_own_id [] = tt
any_own_id (t ∷ ts) = (ground arith, All-imp (λ u h. ground arith) ts (any_own_id ts))

-- The tables that stand on a level of the catalog.
abbrev AreOn : LevelManager → ℕ → List TableMeta → Type 0
AreOn manager level ts = All (λ t. level_contains_table manager level t.table_id ≡ true) ts

level-AreOn :
    (manager : LevelManager) (level : ℕ) (ts : List TableMeta)
    → get_elem? manager level ≡ some ts
    → AreOn manager level ts
unfolding level_contains_table get_lx_tables
level-AreOn manager level ts e = All-imp (λ t h. rw (level_contains_table, e) h) ts (any_own_id ts)

overlapping-AreOn :
    (manager : LevelManager) (level : ℕ) (smallest largest : ArenaEntry)
    → IsValid manager
    → AreOn manager level (find_overlapping_tables manager level smallest largest)
unfolding find_overlapping_tables
overlapping-AreOn manager level smallest largest h = elim (Option-cases (get_elem? manager level)) [
  | inl f ↦ rw (find_overlapping_tables, f) tt
  | inr (us, f) ↦ elim (Bool-cases (entry_lt largest smallest)) [
    | inl r ↦ rw (find_overlapping_tables, f, r) tt
    | inr r ↦
        rw (find_overlapping_tables-filter manager level smallest largest us h.0 f r)
          (All-filter _ _ us (level-AreOn manager level us f))
  ]
]

both-true : (a b : Bool) → a ≡ true → b ≡ true → (a && b) ≡ true
both-true a b h k = rw (h, k) refl

plan_of-current :
    (manager : LevelManager) (level : ℕ) (o : CompactionOptions) (first : TableMeta)
    (others : List TableMeta)
    → IsValid manager
    → AreOn manager level (first ∷ others)
    → plan_is_current (plan_of manager level o first others) manager ≡ true
unfolding plan_is_current plan_of
plan_of-current manager level o first others h on =
    let chosen = widen_all (first.smallest_key, first.largest_key) (first ∷ others) in
    let sources =
      all-All (λ t. level_contains_table manager level t.table_id) (first ∷ others) on in
    let targets =
      all-All (λ t. level_contains_table manager (level + 1) t.table_id)
        (find_overlapping_tables manager (level + 1) chosen.0 chosen.1)
        (overlapping-AreOn manager (level + 1) chosen.0 chosen.1 h) in
    both-true _ _ sources targets

checked-inv : (p q : CompactionPlan) → checked p ≡ ok (some q) → p ≡ q
checked-inv p q e = ground arith

pick_level-current :
    (manager : LevelManager) (level : ℕ) (o : CompactionOptions) (plan : CompactionPlan)
    → IsValid manager
    → pick_level_compaction manager level o ≡ ok (some plan)
    → plan_is_current plan manager ≡ true
unfolding pick_level_compaction get_lx_tables
pick_level-current manager level o plan h e = elim (Option-cases (get_elem? manager level)) [
  | inl f ↦ absurd (ground arith)
  | inr (ts, f) ↦ go ts f
]
  where
    current :
        (first : TableMeta) (others : List TableMeta)
        → AreOn manager level (first ∷ others)
        → checked (plan_of manager level o first others) ≡ ok (some plan)
        → plan_is_current plan manager ≡ true
    current first others on c =
        ap (λ p. plan_is_current p manager)
          (sym (checked-inv (plan_of manager level o first others) plan c))
        ∙ plan_of-current manager level o first others h on

    go :
        (ts : List TableMeta)
        → get_elem? manager level ≡ some ts
        → plan_is_current plan manager ≡ true
    go [] f = absurd (ground arith)
    go (first ∷ others) f =
        let on = level-AreOn manager level (first ∷ others) f in
        let in_range : ltb (level + 1) o.max_levels ≡ true = ground arith in
        elim (Bool-cases (level == 0)) [
          | inl z ↦
              current first others on (sym (rw (pick_level_compaction, f, in_range, z) refl) ∙ e)
          | inr z ↦
              current (largest_file first others) [] (largest_file-All _ first others on.0 on.1, tt)
                (sym (rw (pick_level_compaction, f, in_range, z) refl) ∙ e)
        ]

pick_from-current :
    (manager : LevelManager) (o : CompactionOptions) (level count : ℕ) (plan : CompactionPlan)
    → IsValid manager
    → pick_from manager o level count ≡ ok (some plan)
    → plan_is_current plan manager ≡ true
unfolding pick_from
pick_from-current manager o level zero plan h e = absurd (ground arith)
pick_from-current manager o level (suc count) plan h e =
    elim (Bool-cases (is_over_budget manager o level)) [
      | inl t ↦ pick_level-current manager level o plan h (ground arith)
      | inr t ↦ pick_from-current manager o (suc level) count plan h (ground arith)
    ]

-- A plan that the scheduler picks from a valid catalog is current: a job that runs on that catalog
-- finds all its tables on the levels that the plan names.
pub plan_is_current-pick_compaction :
    (manager : LevelManager) (o : CompactionOptions) (plan : CompactionPlan)
    → IsValid manager
    → pick_compaction manager o ≡ ok (some plan)
    → plan_is_current plan manager ≡ true
unfolding pick_compaction
plan_is_current-pick_compaction manager o plan h e =
    elim (Bool-cases (is_ok (validate_options o))) [
      | inr t ↦ absurd (ground arith)
      | inl t ↦ elim (Bool-cases (l0_is_full manager o)) [
        | inl u ↦ pick_level-current manager 0 o plan h (ground arith)
        | inr u ↦ pick_from-current manager o 1 (o.max_levels - 2) plan h (ground arith)
      ]
    ]
