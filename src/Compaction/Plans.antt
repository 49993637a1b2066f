-- ===== src/Compaction/Plans.antt =====
-- The plan of one level: what the scheduler makes from a valid catalog passes the plan's validation.
use mathlib.Core.Path.{subst}
use kvdb.Base.{
  ℕ, suc, ◌+◌, ◌^◌, ◌≤◌, ◌<◌, ◌≡◌, ◌≢◌, refl, sym, true, Option, some, List, [], ◌∷◌, All, All-imp,
  get_elem?, arith, Bool-cases, Option-cases, inl, inr, ◌==◌, ltb,
}
use kvdb.Status.{Result, ok}
use kvdb.Entry.{ArenaEntry, entry_lt}
use kvdb.TableMeta.{TableMeta}
use kvdb.LevelManager.{LevelManager, find_overlapping_tables, get_lx_tables, overlaps_range}
use kvdb.LevelManager.Order.{BelongsTo, IsValid, count}
use kvdb.LevelManager.Lookup.{IsLevel-of, find_overlapping_tables-filter}
use kvdb.Compaction.{
  CompactionOptions, CompactionPlan, validate_inputs, validate_plan, plan_of, checked, widen_all,
  largest_file, pick_level_compaction, entry_at,
}
use kvdb.Compaction.Ranges.{Contains, Contains-Within, Contains-order, widen_all-Within}
use kvdb.Compaction.Ids.{
  validate_tables-some, count-filter, All-filter, largest_file-All, count-largest_file, count_one,
  count_two,
}

-- What the lookup of the target level returns.
abbrev IsTarget : ℕ → List TableMeta → List TableMeta → Type 0
IsTarget level ts us = All (BelongsTo (level + 1)) us × ((id : ℕ) → count id ts + count id us ≤ 1)

next_level : (n : ℕ) → n + 1 ≡ suc n
next_level n = omega arith

overlapping-IsTarget :
    (manager : LevelManager) (level : ℕ) (ts : List TableMeta) (smallest largest : ArenaEntry)
    → IsValid manager
    → get_elem? manager level ≡ some ts
    → IsTarget level ts (find_overlapping_tables manager (level + 1) smallest largest)
unfolding find_overlapping_tables
overlapping-IsTarget manager level ts smallest largest h e =
    elim (Option-cases (get_elem? manager (level + 1))) [
      | inl f ↦ rw (find_overlapping_tables, f) nothing
      | inr (us, f) ↦ elim (Bool-cases (entry_lt largest smallest)) [
        | inl r ↦ rw (find_overlapping_tables, f, r) nothing
        | inr r ↦
            subst (IsTarget level ts)
              (sym (find_overlapping_tables-filter manager (level + 1) smallest largest us h.0 f r))
              (
                All-filter _ _ us (IsLevel-of (level + 1) manager us h.0 f).0,
                λ id. omega (
                  arith,
                  count-filter id (overlaps_range smallest largest) us,
                  count_two id manager level ts us e
                      (subst (λ n. get_elem? manager n ≡ some us) (next_level level) f),
                  h.1 id,
                ),
              )
      ]
    ]
  where
    nothing : IsTarget level ts []
    nothing = (tt, λ id. omega (arith, count_one id manager level ts e, h.1 id))

inputs-valid :
    (p : CompactionPlan)
    → All (BelongsTo p.source_level) p.source_tables
    → All (BelongsTo p.target_level) p.overlapping_tables
    → All (Contains (p.smallest_key, p.largest_key)) p.source_tables
    → All (Contains (p.smallest_key, p.largest_key)) p.overlapping_tables
    → ((id : ℕ) → count id p.source_tables + count id p.overlapping_tables ≤ 1)
    → validate_inputs p ≡ true
unfolding validate_inputs
inputs-valid p b c s t h =
    let (ids, e, counts) =
      validate_tables-some p.smallest_key p.largest_key p.source_level p.source_tables [] b s
        (λ id. omega (arith, h id)) in
    let (all, f, _) =
      validate_tables-some p.smallest_key p.largest_key p.target_level p.overlapping_tables ids c t
        (λ id. omega (arith, h id, counts id)) in
    rw (validate_inputs, e, f) refl

plan_of-valid :
    (manager : LevelManager) (level : ℕ) (o : CompactionOptions) (ts : List TableMeta)
    (first : TableMeta) (others : List TableMeta)
    → IsValid manager
    → get_elem? manager level ≡ some ts
    → All (BelongsTo level) (first ∷ others)
    → ((id : ℕ) → count id (first ∷ others) ≤ count id ts)
    → entry_at o.target_file_size_per_level (level + 1) ≢ 0
    → level + 1 < 2 ^ 32
    → validate_plan (plan_of manager level o first others) ≡ true
unfolding validate_plan plan_of
plan_of-valid manager level o ts first others h e b fewer size small =
    let start : ArenaEntry × ArenaEntry = (first.smallest_key, first.largest_key) in
    let chosen = widen_all start (first ∷ others) in
    let (_, sources) = widen_all-Within start (first ∷ others) in
    let us = find_overlapping_tables manager (level + 1) chosen.0 chosen.1 in
    let (target, ids) = overlapping-IsTarget manager level ts chosen.0 chosen.1 h e in
    let (within, targets) = widen_all-Within chosen us in
    let final = widen_all chosen us in
    let contained =
      All-imp (λ t c. Contains-Within chosen final t within c) (first ∷ others) sources in
    let nonempty = Contains-order final first b.0.2 contained.0 in
    let inputs : validate_inputs (plan_of manager level o first others) ≡ true =
      (inputs-valid (plan_of manager level o first others) b target contained targets
        (λ id. omega (arith, fewer id, ids id))) in
    ground arith

-- A plan that passes its validation.
abbrev pub IsPicked : Result (Option CompactionPlan) → Type 0
IsPicked answer = (plan : CompactionPlan) × (answer ≡ ok (some plan)) × (validate_plan plan ≡ true)

checked-IsPicked : (p : CompactionPlan) → validate_plan p ≡ true → IsPicked (checked p)
checked-IsPicked p h = (p, ground arith, h)

pub pick_level-IsPicked :
    (manager : LevelManager) (level : ℕ) (o : CompactionOptions) (first : TableMeta)
    (others : List TableMeta)
    → IsValid manager
    → get_elem? manager level ≡ some (first ∷ others)
    → entry_at o.target_file_size_per_level (level + 1) ≢ 0
    → level + 1 < o.max_levels
    → o.max_levels < 2 ^ 32
    → IsPicked (pick_level_compaction manager level o)
unfolding get_lx_tables pick_level_compaction
pick_level-IsPicked manager level o first others h e size below small =
    let b = (IsLevel-of level manager (first ∷ others) h.0 e).0 in
    let in_range : ltb (level + 1) o.max_levels ≡ true = ground arith in
    elim (Bool-cases (level == 0)) [
      | inl z ↦
          rw (pick_level_compaction, e, in_range, z)
            (checked-IsPicked (plan_of manager level o first others) (
              plan_of-valid manager level o (first ∷ others) first others h e b (λ id. omega arith)
                size (omega arith)))
      | inr z ↦
          rw (pick_level_compaction, e, in_range, z)
            (checked-IsPicked (plan_of manager level o (largest_file first others) []) (
              plan_of-valid manager level o (first ∷ others) (largest_file first others) [] h e
                (largest_file-All _ first others b.0 b.1, tt)
                (λ id. count-largest_file id first others) size (omega arith)))
    ]
