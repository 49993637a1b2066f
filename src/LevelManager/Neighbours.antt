-- ===== src/LevelManager/Neighbours.antt =====
-- `insert_disjoint`: the two neighbours of the place that the binary search finds decide whether any
-- table of the level overlaps.
use mathlib.Core.Path.{subst}
use kvdb.Base.{
  ◌≡◌, refl, sym, ap, ◌∙◌, Bool, true, false, List, [], ◌∷◌, ◌++◌, All, All-imp,
  Pairwise-append_left, Pairwise-append_right, All-append_right, ◌||◌, head, last, any, arith,
  Bool-cases, inl, inr, if◌then◌else◌,
}
use kvdb.Search.{lower_bound-span, span, IsPartitioned, span-append, span_before, span_after}
use kvdb.Status.{invariant_violation, Result, ok, fail}
use kvdb.Entry.{ArenaEntry, entry_lt}
use kvdb.Entry.Order.{entry_lt_trans, entry_le_lt_trans, entry_lt_le_trans, entry_lt_asym}
use kvdb.TableMeta.{TableMeta}
use kvdb.LevelManager.{
  ranges_overlap, insert_disjoint, overlaps_previous, overlaps_next, overlaps_range,
}
use kvdb.LevelManager.Order.{HasRange, IsDisjoint}

abbrev pub overlaps : TableMeta → TableMeta → Bool
overlaps meta = overlaps_range meta.smallest_key meta.largest_key

-- The tables of a level that start before `meta`, and the others.
abbrev pub place : TableMeta → List TableMeta → List TableMeta × List TableMeta
place meta = span (λ t. entry_lt t.smallest_key meta.smallest_key)

abbrev pub inserted : TableMeta → List TableMeta → List TableMeta
inserted meta tables = let (before, after) = place meta tables in before ++ (meta ∷ after)

-- The insertion that `insert_disjoint` makes, by a scan.
abbrev scan_disjoint : TableMeta → List TableMeta × List TableMeta → Result (List TableMeta)
scan_disjoint meta (before, after) =
    if overlaps_previous meta (last before)
    then fail invariant_violation
    else if overlaps_next meta (head after)
    then fail invariant_violation
    else ok (before ++ (meta ∷ after))

pub smallest-IsPartitioned :
    (key : ArenaEntry) (ts : List TableMeta)
    → All HasRange ts
    → IsDisjoint ts
    → IsPartitioned (λ t. entry_lt t.smallest_key key) ts
smallest-IsPartitioned key [] r d = tt
smallest-IsPartitioned key (t ∷ ts) r d = (
  λ e.
      All-imp
        (λ u k. entry_lt_asym key u.smallest_key (
          entry_le_lt_trans key t.smallest_key u.smallest_key e
            (entry_le_lt_trans t.smallest_key t.largest_key u.smallest_key r.0 k)))
        ts d.0,
  smallest-IsPartitioned key ts r.1 d.1,
)

-- Of two tables that do not overlap, the one that starts first ends before the other.
pub ends_before :
    (x y : TableMeta)
    → HasRange y
    → entry_lt x.smallest_key y.smallest_key ≡ true
    → overlaps y x ≡ false
    → entry_lt x.largest_key y.smallest_key ≡ true
unfolding ranges_overlap
ends_before x y r h k = ground (
  arith,
  entry_lt_le_trans x.smallest_key y.smallest_key y.largest_key h r,
  entry_lt_asym x.smallest_key y.largest_key,
)

pub starts_after :
    (x y : TableMeta)
    → HasRange x
    → entry_lt x.smallest_key y.smallest_key ≡ false
    → overlaps y x ≡ false
    → entry_lt y.largest_key x.smallest_key ≡ true
unfolding ranges_overlap
starts_after x y r h k = elim (Bool-cases (entry_lt x.largest_key y.smallest_key)) [
  | inl b ↦ cc (entry_le_lt_trans x.smallest_key x.largest_key y.smallest_key r b)
  | inr b ↦ ground arith
]

overlaps_before :
    (meta : TableMeta) (ts : List TableMeta)
    → IsDisjoint ts
    → All (λ t. entry_lt t.smallest_key meta.smallest_key ≡ true) ts
    → any (overlaps meta) ts ≡ overlaps_previous meta (last ts)
unfolding ranges_overlap
overlaps_before meta [] d h = refl
overlaps_before meta (t ∷ []) d h = ground arith
overlaps_before meta (t ∷ u ∷ us) d h = ground (
  arith,
  overlaps_before meta (u ∷ us) d.1 h.1,
  entry_lt_trans t.largest_key u.smallest_key meta.smallest_key d.0.0 h.1.0,
)

ranges_overlap_comm : (a b c d : ArenaEntry) → ranges_overlap a b c d ≡ ranges_overlap c d a b
unfolding ranges_overlap
ranges_overlap_comm a b c d = ground arith

any_none {ℓ} :
    {A : Type ℓ} (p : A → Bool) (xs : List A) → All (λ x. p x ≡ false) xs → any p xs ≡ false
any_none p [] h = refl
any_none p (x ∷ xs) h = ground (arith, any_none p xs h.1)

pub none_of_any {ℓ} :
    {A : Type ℓ} (p : A → Bool) (xs : List A) → any p xs ≡ false → All (λ x. p x ≡ false) xs
none_of_any p [] h = tt
none_of_any p (x ∷ xs) h = (ground arith, none_of_any p xs (ground arith))

any-append {ℓ} :
    {A : Type ℓ} (p : A → Bool) (xs ys : List A) → any p (xs ++ ys) ≡ (any p xs || any p ys)
any-append p [] ys = refl
any-append p (x ∷ xs) ys = ground (arith, any-append p xs ys)

above :
    (meta u : TableMeta) → entry_lt meta.largest_key u.smallest_key ≡ true → overlaps meta u ≡ false
unfolding ranges_overlap
above meta u g = ground arith

overlaps_after :
    (meta : TableMeta) (ts : List TableMeta)
    → All HasRange ts
    → IsDisjoint ts
    → All (λ t. entry_lt t.smallest_key meta.smallest_key ≡ false) ts
    → any (overlaps meta) ts ≡ overlaps_next meta (head ts)
overlaps_after meta [] r d h = refl
overlaps_after meta (t ∷ ts) r d h = elim (Bool-cases (overlaps meta t)) [
  | inl e ↦
      ground
        (arith, ranges_overlap_comm t.smallest_key t.largest_key meta.smallest_key meta.largest_key)
  | inr e ↦
      let gap = starts_after t meta r.0 h.0 e in
      let no_other : any (overlaps meta) ts ≡ false =
        (any_none (overlaps meta) ts (
          All-imp
            (λ u k. above meta u (
              entry_lt_trans meta.largest_key t.smallest_key u.smallest_key gap
                (entry_le_lt_trans t.smallest_key t.largest_key u.smallest_key r.0 k)))
            ts d.0)) in
      ground
        (arith, ranges_overlap_comm t.smallest_key t.largest_key meta.smallest_key meta.largest_key)
]

-- The two neighbours decide for the whole level.
neighbours :
    (meta : TableMeta) (ts : List TableMeta)
    → All HasRange ts
    → IsDisjoint ts
    → any (overlaps meta) ts ≡ (
        overlaps_previous meta (last (place meta ts).0)
        || overlaps_next meta (head (place meta ts).1))
neighbours meta ts r d =
    let test = λ (t : TableMeta). entry_lt t.smallest_key meta.smallest_key in
    let whole = sym (span-append test ts) in
    let (before, after) = place meta ts in
    let disjoint : IsDisjoint (before ++ after) = subst IsDisjoint whole d in
    let ranges : All HasRange (before ++ after) = subst (All HasRange) whole r in
    ap (any (overlaps meta)) whole
    ∙ any-append (overlaps meta) before after
    ∙ ap (λ b. b || any (overlaps meta) after)
        (overlaps_before meta before (Pairwise-append_left _ before after disjoint)
          (span_before test ts))
    ∙ ap (λ b. overlaps_previous meta (last before) || b)
        (overlaps_after meta after (All-append_right _ before after ranges)
          (Pairwise-append_right _ before after disjoint)
          (span_after test ts (smallest-IsPartitioned meta.smallest_key ts r d)))

pub insert_disjoint-any :
    (meta : TableMeta) (ts : List TableMeta)
    → All HasRange ts
    → IsDisjoint ts
    → insert_disjoint meta ts ≡ (
        if any (overlaps_range meta.smallest_key meta.largest_key) ts
        then fail invariant_violation
        else ok (inserted meta ts))
unfolding insert_disjoint
insert_disjoint-any meta ts r d =
    ap (scan_disjoint meta)
      (lower_bound-span _ ts (smallest-IsPartitioned meta.smallest_key ts r d))
    ∙ ground (arith, neighbours meta ts r d)
