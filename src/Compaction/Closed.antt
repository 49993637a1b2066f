-- ===== src/Compaction/Closed.antt =====
-- The key range of a plan is closed: widened by the tables of the target level, it meets no others.
use mathlib.Core.Path.{subst}
use kvdb.Base.{
  ℕ, suc, ◌+◌, ◌≡◌, ◌⊎◌, inl, inr, refl, sym, ap, ◌∙◌, Bool, true, false, List, [], ◌∷◌, All,
  All-imp, All-both_imp, filter, get_elem?, arith, Bool-cases, Option-cases,
}
use kvdb.Entry.{ArenaEntry, entry_lt}
use kvdb.Entry.Order.{entry_lt_trans, entry_le_lt_trans, entry_lt_le_trans}
use kvdb.TableMeta.{TableMeta}
use kvdb.LevelManager.{LevelManager, find_overlapping_tables, overlaps_range, ranges_overlap}
use kvdb.LevelManager.Order.{HasRange, IsDisjoint, IsLevel, IsValid}
use kvdb.LevelManager.Lookup.{IsLevel-of, find_overlapping_tables-filter}
use kvdb.Compaction.{CompactionOptions, widen_plan_range, widen_all, plan_of}
use kvdb.Compaction.Ranges.{Within, Contains-Within, Contains-order, widen_all-Within}

-- Of two tables of a disjoint level one is before the other, unless they are the same.
abbrev Sides : TableMeta → TableMeta → Type 0
Sides t u =
    (t ≡ u)
    ⊎ (entry_lt t.largest_key u.smallest_key ≡ true)
    ⊎ (entry_lt u.largest_key t.smallest_key ≡ true)

All-Sides : (ts : List TableMeta) → IsDisjoint ts → All (λ t. All (Sides t) ts) ts
All-Sides [] d = tt
All-Sides (x ∷ xs) d = (
  (inl refl, All-imp (λ u k. inr (inl k)) xs d.0),
  All-both_imp (λ t k rest. (inr (inr k), rest)) xs d.0 (All-Sides xs d.1),
)

filter-congr {ℓ} :
    {A : Type ℓ} (p q : A → Bool) (xs : List A)
    → All (λ x. p x ≡ q x) xs
    → filter p xs ≡ filter q xs
filter-congr p q [] h = refl
filter-congr p q (x ∷ xs) h = ground (arith, filter-congr p q xs h.1)

-- Widening by tables that all start after a key, or all end before it, stays on that side of it.
widen_all-above :
    (key : ArenaEntry) (range : ArenaEntry × ArenaEntry) (us : List TableMeta)
    → entry_lt key range.0 ≡ true
    → All (λ u. entry_lt key u.smallest_key ≡ true) us
    → entry_lt key (widen_all range us).0 ≡ true
unfolding widen_all widen_plan_range
widen_all-above key range [] h k = h
widen_all-above key range (u ∷ us) h k =
    widen_all-above key (widen_plan_range range u) us (ground arith) k.1

widen_all-below :
    (key : ArenaEntry) (range : ArenaEntry × ArenaEntry) (us : List TableMeta)
    → entry_lt range.1 key ≡ true
    → All (λ u. entry_lt u.largest_key key ≡ true) us
    → entry_lt (widen_all range us).1 key ≡ true
unfolding widen_all widen_plan_range
widen_all-below key range [] h k = h
widen_all-below key range (u ∷ us) h k =
    widen_all-below key (widen_plan_range range u) us (ground arith) k.1

abbrev meets : ArenaEntry × ArenaEntry → TableMeta → Bool
meets range = overlaps_range range.0 range.1

meets-Within :
    (inner outer : ArenaEntry × ArenaEntry) (t : TableMeta)
    → Within inner outer
    → meets inner t ≡ true
    → meets outer t ≡ true
unfolding ranges_overlap
meets-Within inner outer t (h, k) m = ground (
  arith,
  entry_lt_le_trans t.largest_key outer.0 inner.0,
  entry_le_lt_trans inner.1 outer.1 t.smallest_key,
)

-- A table that the chosen range does not meet lies on one side of it, and so of every table that it
-- does meet.
after_it :
    (range : ArenaEntry × ArenaEntry) (t u : TableMeta)
    → HasRange t
    → entry_lt t.largest_key range.0 ≡ true
    → meets range t ≡ false
    → meets range u ≡ true
    → Sides t u
    → entry_lt t.largest_key u.smallest_key ≡ true
unfolding ranges_overlap
after_it range t u r b m k (inl same) = cc (ap (meets range) same)
after_it range t u r b m k (inr (inl s)) = s
after_it range t u r b m k (inr (inr s)) =
    let far = entry_lt_le_trans u.largest_key t.smallest_key t.largest_key s r in
    ground (arith, entry_lt_trans u.largest_key t.largest_key range.0 far b)

before_it :
    (range : ArenaEntry × ArenaEntry) (t u : TableMeta)
    → HasRange t
    → entry_lt range.1 t.smallest_key ≡ true
    → meets range t ≡ false
    → meets range u ≡ true
    → Sides t u
    → entry_lt u.largest_key t.smallest_key ≡ true
unfolding ranges_overlap
before_it range t u r b m k (inl same) = cc (ap (meets range) same)
before_it range t u r b m k (inr (inl s)) =
    let far = entry_le_lt_trans t.smallest_key t.largest_key u.smallest_key r s in
    ground (arith, entry_lt_trans range.1 t.smallest_key u.smallest_key b far)
before_it range t u r b m k (inr (inr s)) = s

All-filter_imp {ℓ} :
    {A : Type ℓ} (P : A → Type 0) (p : A → Bool) (xs : List A)
    → All (λ x. p x ≡ true → P x) xs
    → All P (filter p xs)
All-filter_imp P p [] h = tt
All-filter_imp P p (x ∷ xs) h = elim (Bool-cases (p x)) [
  | inl e ↦ rw e (h.0 e, All-filter_imp P p xs h.1)
  | inr e ↦ rw e (All-filter_imp P p xs h.1)
]

meets-widen_all :
    (range : ArenaEntry × ArenaEntry) (ts : List TableMeta) (t : TableMeta)
    → HasRange t
    → All (Sides t) ts
    → meets (widen_all range (filter (meets range) ts)) t ≡ meets range t
unfolding ranges_overlap
meets-widen_all range ts t r sides =
    let us = filter (meets range) ts in
    let (within, _) = widen_all-Within range us in
    elim (Bool-cases (meets range t)) [
      | inl m ↦ cc (meets-Within range (widen_all range us) t within m)
      | inr m ↦ elim (Bool-cases (entry_lt t.largest_key range.0)) [
        | inl b ↦
            let beyond = widen_all-above t.largest_key range us b (
              All-filter_imp _ (meets range) ts
                (All-imp (λ u s k. after_it range t u r b m k s) ts sides)) in
            ground arith
        | inr n ↦
            let b : entry_lt range.1 t.smallest_key ≡ true = ground arith in
            let beyond = widen_all-below t.smallest_key range us b (
              All-filter_imp _ (meets range) ts
                (All-imp (λ u s k. before_it range t u r b m k s) ts sides)) in
            ground arith
      ]
    ]

filter-widen_all :
    (level : ℕ) (range : ArenaEntry × ArenaEntry) (ts : List TableMeta)
    → IsLevel (suc level) ts
    → filter (meets (widen_all range (filter (meets range) ts))) ts ≡ filter (meets range) ts
filter-widen_all level range ts (b, d) = filter-congr _ (meets range) ts (
    All-both_imp (λ t belongs sides. meets-widen_all range ts t belongs.2 sides) ts b
      (All-Sides ts d))

-- In a valid catalog, the key range of the plan for a level, which is widened by the tables of the
-- target level that it meets, meets no others: looking the widened range up again returns the tables
-- of the plan.
pub find_overlapping_tables-plan_of :
    (manager : LevelManager) (level : ℕ) (o : CompactionOptions) (first : TableMeta)
    (others : List TableMeta)
    → IsValid manager
    → HasRange first
    → find_overlapping_tables manager
        (level + 1)
        (plan_of manager level o first others).smallest_key
        (plan_of manager level o first others).largest_key
      ≡ (plan_of manager level o first others).overlapping_tables
unfolding plan_of find_overlapping_tables
find_overlapping_tables-plan_of manager level o first others h r =
    let start : ArenaEntry × ArenaEntry = (first.smallest_key, first.largest_key) in
    let chosen = widen_all start (first ∷ others) in
    let (_, sources) = widen_all-Within start (first ∷ others) in
    let order = Contains-order chosen first r sources.0 in
    elim (Option-cases (get_elem? manager (level + 1))) [
      | inl e ↦ rw (find_overlapping_tables, e) refl
      | inr (ts, e) ↦
          let found =
            find_overlapping_tables-filter manager (level + 1) chosen.0 chosen.1 ts h.0 e order in
          let us = filter (meets chosen) ts in
          let final = widen_all chosen us in
          let (within, _) = widen_all-Within chosen us in
          let final_order =
            Contains-order final first r (Contains-Within chosen final first within sources.0) in
          let again =
            find_overlapping_tables-filter manager (level + 1) final.0 final.1 ts h.0 e
              final_order in
          let in_level =
            subst (λ n. IsLevel n ts) (next_level level)
              (IsLevel-of (level + 1) manager ts h.0 e) in
          ap
            (λ vs.
              find_overlapping_tables manager (level + 1) (widen_all chosen vs).0
                (widen_all chosen vs).1)
            found
          ∙ again
          ∙ filter-widen_all level chosen ts in_level
          ∙ sym found
    ]
  where
    next_level : (n : ℕ) → n + 1 ≡ suc n
    next_level n = omega arith
