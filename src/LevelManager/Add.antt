-- ===== src/LevelManager/Add.antt =====
-- `add_table`: it keeps the catalog valid, and when it accepts a table.
use mathlib.Core.Path.{subst}
use kvdb.Base.{
  ℕ, zero, suc, ◌+◌, ◌≡◌, ◌≢◌, refl, sym, ap, ◌∙◌, Bool, true, false, some, List, [], ◌∷◌, ◌++◌,
  All, All-imp, All-insert, All-append_left, All-append_right, All-both_imp, Pairwise-insert, any,
  arith, Bool-cases, Option-cases, inl, inr, get_elem?, set, if◌then◌else◌, ltb, ◌==◌, ==_iff,
}
use kvdb.Search.{lower_bound-span, span, IsPartitioned, span-append, span_before, span_after}
use kvdb.Status.{ok_code, invalid_argument, invariant_violation, Result, ok, fail}
use kvdb.Entry.{entry_lt}
use kvdb.TableMeta.{TableMeta}
use kvdb.LevelManager.{
  LevelManager, insert_newest, insert_disjoint, install, add_table, replaced, overlaps_range,
  has_id,
}
use kvdb.LevelManager.Order.{
  HasRange, IsDisjoint, IsNewestFirst, IsOrdered, BelongsTo, IsLevel, AreLevels, IsValid, count,
  count_all,
}
use kvdb.LevelManager.Lookup.{IsLevel-of}
use kvdb.LevelManager.Neighbours.{
  inserted, place, overlaps, ends_before, starts_after, smallest-IsPartitioned, none_of_any,
  insert_disjoint-any,
}

inserted-IsDisjoint :
    (meta : TableMeta) (ts : List TableMeta)
    → HasRange meta
    → All HasRange ts
    → IsDisjoint ts
    → any (overlaps meta) ts ≡ false
    → IsDisjoint (inserted meta ts)
inserted-IsDisjoint meta ts m r d e =
    let test = λ (t : TableMeta). entry_lt t.smallest_key meta.smallest_key in
    let whole = sym (span-append test ts) in
    let (before, after) = place meta ts in
    let ranges : All HasRange (before ++ after) = subst (All HasRange) whole r in
    let apart : All (λ t. overlaps meta t ≡ false) (before ++ after) =
      (subst (All (λ t. overlaps meta t ≡ false)) whole (none_of_any (overlaps meta) ts e)) in
    let later : All (λ t. HasRange t × (entry_lt t.smallest_key meta.smallest_key ≡ false)) after =
      (All-both_imp (λ t a b. (a, b)) after (All-append_right _ before after ranges)
        (span_after test ts (smallest-IsPartitioned meta.smallest_key ts r d))) in
    Pairwise-insert _ before meta after (subst IsDisjoint whole d)
      (All-both_imp (λ t a b. ends_before t meta m a b) before (span_before test ts)
        (All-append_left _ before after apart))
      (All-both_imp (λ t (a, b) c. starts_after t meta a b c) after later
        (All-append_right _ before after apart))

abbrev newer_than : TableMeta → TableMeta → Bool
newer_than meta t = ltb meta.table_id t.table_id

newest-IsPartitioned :
    (id : ℕ) (ts : List TableMeta) → IsNewestFirst ts → IsPartitioned (λ t. ltb id t.table_id) ts
newest-IsPartitioned id [] h = tt
newest-IsPartitioned id (t ∷ ts) h =
    (λ e. All-imp (λ u k. ground arith) ts h.0, newest-IsPartitioned id ts h.1)

abbrev inserted_newest : TableMeta → List TableMeta → List TableMeta
inserted_newest meta ts =
    let (before, after) = span (λ t. ltb meta.table_id t.table_id) ts in before ++ (meta ∷ after)

inserted_newest-IsNewestFirst :
    (meta : TableMeta) (ts : List TableMeta)
    → IsNewestFirst ts
    → any (has_id meta.table_id) ts ≡ false
    → IsNewestFirst (inserted_newest meta ts)
inserted_newest-IsNewestFirst meta ts h e =
    let test = λ (t : TableMeta). ltb meta.table_id t.table_id in
    let whole = sym (span-append test ts) in
    let (before, after) = span test ts in
    let other : All (λ t. has_id meta.table_id t ≡ false) (before ++ after) =
      (subst (All (λ t. has_id meta.table_id t ≡ false)) whole
        (none_of_any (has_id meta.table_id) ts e)) in
    Pairwise-insert _ before meta after (subst IsNewestFirst whole h)
      (All-imp (λ t k. ground arith) before (span_before test ts))
      (All-both_imp (λ t a b. ground arith) after
        (span_after test ts (newest-IsPartitioned meta.table_id ts h))
        (All-append_right _ before after other))

count-append : (id : ℕ) (xs ys : List TableMeta) → count id (xs ++ ys) ≡ count id xs + count id ys
count-append id [] ys = omega arith
count-append id (x ∷ xs) ys = omega (arith, count-append id xs ys)

pub count_insert :
    (id : ℕ) (xs : List TableMeta) (t : TableMeta) (ys : List TableMeta)
    → count id (xs ++ (t ∷ ys)) ≡ (if has_id id t then 1 else 0) + count id (xs ++ ys)
count_insert id [] t ys = refl
count_insert id (x ∷ xs) t ys = omega (arith, count_insert id xs t ys)

count_none : (id : ℕ) (ts : List TableMeta) → any (has_id id) ts ≡ false → count id ts ≡ 0
count_none id [] h = refl
count_none id (t ∷ ts) h = ground (arith, count_none id ts)

count_all_none :
    (id : ℕ) (levels : LevelManager)
    → any (any (has_id id)) levels ≡ false
    → count_all id levels ≡ 0
count_all_none id [] h = refl
count_all_none id (ts ∷ levels) h = ground (arith, count_none id ts, count_all_none id levels)

pub count_all-set :
    (id : ℕ) (levels : LevelManager) (level : ℕ) (ts us : List TableMeta)
    → get_elem? levels level ≡ some ts
    → count_all id (set levels level us) + count id ts ≡ count_all id levels + count id us
count_all-set id [] level ts us e = cc
count_all-set id (vs ∷ levels) zero ts us e =
    let same : vs ≡ ts = cc in omega (arith, ap (count id) same)
count_all-set id (vs ∷ levels) (suc level) ts us e =
    omega (arith, count_all-set id levels level ts us e)

set-AreLevels_from :
    (first level : ℕ) (levels : LevelManager) (us : List TableMeta)
    → AreLevels first levels
    → IsLevel (first + level) us
    → AreLevels first (set levels level us)
set-AreLevels_from first level [] us h k = tt
set-AreLevels_from first zero (ts ∷ levels) us h k =
    (subst (λ n. IsLevel n us) (omega arith) k, h.1)
set-AreLevels_from first (suc level) (ts ∷ levels) us h k = (
  h.0,
  set-AreLevels_from (suc first) level levels us h.1 (subst (λ n. IsLevel n us) (omega arith) k),
)

pub set-AreLevels :
    (level : ℕ) (levels : LevelManager) (us : List TableMeta)
    → AreLevels 0 levels
    → IsLevel level us
    → AreLevels 0 (set levels level us)
set-AreLevels level levels us h k =
    set-AreLevels_from 0 level levels us h (subst (λ n. IsLevel n us) (omega arith) k)

any_at :
    {A : Type 0} (p : A → Bool) (levels : List (List A)) (level : ℕ) (ts : List A)
    → get_elem? levels level ≡ some ts
    → any (any p) levels ≡ false
    → any p ts ≡ false
any_at p [] level ts e h = cc
any_at p (us ∷ levels) zero ts e h = let same : us ≡ ts = cc in rw (← same) (ground arith)
any_at p (us ∷ levels) (suc level) ts e h = any_at p levels level ts e (ground arith)

-- A level with one more table: valid, with that table counted once more.
abbrev IsGrown : ℕ → TableMeta → List TableMeta → Result (List TableMeta) → Type 0
IsGrown level meta ts (fail code) = Unit
IsGrown level meta ts (ok us) =
    IsLevel level us × ((id : ℕ) → count id us ≡ (if has_id id meta then 1 else 0) + count id ts)

grown :
    (level : ℕ) (meta : TableMeta) (ts before after : List TableMeta)
    → before ++ after ≡ ts
    → BelongsTo level meta
    → All (BelongsTo level) ts
    → IsOrdered level (before ++ (meta ∷ after))
    → IsGrown level meta ts (ok (before ++ (meta ∷ after)))
grown level meta ts before after whole b h ordered = (
  (
    All-insert (BelongsTo level) before meta after b (subst (All (BelongsTo level)) (sym whole) h),
    ordered,
  ),
  λ id.
      count_insert id before meta after
      ∙ ap (λ n. (if has_id id meta then 1 else 0) + n) (ap (count id) whole),
)

install-IsGrown :
    (level : ℕ) (meta : TableMeta) (ts : List TableMeta)
    → meta.level ≡ level
    → BelongsTo level meta
    → IsLevel level ts
    → any (has_id meta.table_id) ts ≡ false
    → IsGrown level meta ts (install meta ts)
unfolding install insert_newest
install-IsGrown zero meta ts e b (all_belong, ordered) fresh =
    let test = λ (t : TableMeta). ltb meta.table_id t.table_id in
    let is_zero : (meta.level == 0) ≡ true = ground arith in
    rw (is_zero, lower_bound-span test ts (newest-IsPartitioned meta.table_id ts ordered))
      (grown 0 meta ts (span test ts).0 (span test ts).1 (span-append test ts) b all_belong
        (inserted_newest-IsNewestFirst meta ts ordered fresh))
install-IsGrown (suc level) meta ts e b (all_belong, ordered) fresh =
    let r = All-imp (λ t k. k.2) ts all_belong in
    let not_zero : (meta.level == 0) ≡ false = ground arith in
    elim (Bool-cases (any (overlaps meta) ts)) [
      | inl o ↦ rw (not_zero, insert_disjoint-any meta ts r ordered, o) tt
      | inr o ↦
          rw (not_zero, insert_disjoint-any meta ts r ordered, o)
            (grown (suc level) meta ts (place meta ts).0 (place meta ts).1 (span-append _ ts) b
              all_belong (inserted-IsDisjoint meta ts b.2 r ordered o))
    ]

add_table-install :
    (meta : TableMeta) (levels : LevelManager) (ts : List TableMeta)
    → IsValid levels
    → get_elem? levels meta.level ≡ some ts
    → meta.table_id ≢ 0
    → HasRange meta
    → any (any (has_id meta.table_id)) levels ≡ false
    → IsValid (replaced meta.level levels (install meta ts)).1
add_table-install meta levels ts (ordered, unique) e id_set r fresh = go (install meta ts) (
    install-IsGrown meta.level meta ts refl (refl, id_set, r)
      (IsLevel-of meta.level levels ts ordered e)
      (any_at (has_id meta.table_id) levels meta.level ts e fresh))
  where
    go :
        (result : Result (List TableMeta))
        → IsGrown meta.level meta ts result
        → IsValid (replaced meta.level levels result).1
    go (fail code) g = (ordered, unique)
    go (ok us) (level, counts) = (
      set-AreLevels meta.level levels us ordered level,
      λ id. elim (Bool-cases (has_id id meta)) [
        | inl k ↦
            let same : meta.table_id ≡ id = (==_iff meta.table_id id).0 k in
            let none : count_all id levels ≡ 0 =
              subst (λ i. count_all i levels ≡ 0) same
                (count_all_none meta.table_id levels fresh) in
            ground (arith, count_all-set id levels meta.level ts us e, counts id)
        | inr k ↦ ground (arith, count_all-set id levels meta.level ts us e, counts id, unique id)
      ],
    )

-- add_table keeps the catalog valid, whether it accepts the table or answers an error: L0 by falling
-- ids, the other levels by disjoint rising key ranges, every table on the level it names, and no id
-- twice in the catalog.
pub add_table-IsValid :
    (meta : TableMeta) (levels : LevelManager) → IsValid levels → IsValid (add_table meta levels).1
unfolding add_table
add_table-IsValid meta levels h = elim (Bool-cases (meta.table_id == 0)) [
  | inl z ↦ rw z h
  | inr z ↦ elim (Option-cases (get_elem? levels meta.level)) [
    | inl e ↦ rw (z, e) h
    | inr (ts, e) ↦ elim (Bool-cases (entry_lt meta.largest_key meta.smallest_key)) [
      | inl r ↦ rw (z, e, r) h
      | inr r ↦ elim (Bool-cases (any (any (has_id meta.table_id)) levels)) [
        | inl d ↦ rw (z, e, r, d) h
        | inr d ↦ rw (z, e, r, d) (add_table-install meta levels ts h e (ground arith) r d)
      ]
    ]
  ]
]

-- In a valid catalog, for a table with a valid key range, an id that no table has, and an existing level
-- above L0: add_table answers InvalidArgument if the id is 0. For any other id the table is accepted
-- exactly if its range meets that of no table of the level, though the code compares it with its two
-- neighbours only; otherwise add_table answers InvariantViolation.
pub add_table_disjoint :
    (meta : TableMeta) (levels : LevelManager) (ts : List TableMeta)
    → IsValid levels
    → get_elem? levels meta.level ≡ some ts
    → meta.level ≢ 0
    → HasRange meta
    → any (any (has_id meta.table_id)) levels ≡ false
    → (add_table meta levels).0 ≡ (
        if meta.table_id == 0
        then invalid_argument
        else if any (overlaps_range meta.smallest_key meta.largest_key) ts
        then invariant_violation
        else ok_code)
unfolding add_table install
add_table_disjoint meta levels ts h e above_zero r fresh =
    ground
      (arith, e, r, fresh, disjoint_level meta.level refl (IsLevel-of meta.level levels ts h.0 e))
  where
    disjoint_level :
        (level : ℕ)
        → meta.level ≡ level
        → IsLevel level ts
        → insert_disjoint meta ts ≡ (
            if any (overlaps_range meta.smallest_key meta.largest_key) ts
            then fail invariant_violation
            else ok (inserted meta ts))
    disjoint_level zero k l = absurd (above_zero k)
    disjoint_level (suc level) k l = insert_disjoint-any meta ts (All-imp (λ t b. b.2) ts l.0) l.1
