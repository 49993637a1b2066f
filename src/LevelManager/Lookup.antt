-- ===== src/LevelManager/Lookup.antt =====
-- What the two lookups on a level return: exactly the tables that a scan of the level would.
use mathlib.Core.Path.{subst}
use kvdb.Base.{
  ℕ, zero, suc, ◌+◌, ◌≡◌, refl, ap, ◌∙◌, Bool, true, false, List, [], ◌∷◌, All, All-imp, filter,
  head, arith, Bool-cases, inl, inr, get_elem?, some, ◌==◌,
}
use kvdb.Search.{lower_bound-span, span}
use kvdb.Status.{ok}
use kvdb.Entry.{ArenaEntry, entry_lt}
use kvdb.Entry.Order.{entry_lt_trans, entry_le_lt_trans}
use kvdb.TableMeta.{TableMeta}
use kvdb.LevelManager.{
  LevelManager, key_is_inside_table, ranges_overlap, candidates, if_inside, overlapping,
  overlaps_range, collect_until, find_candidate_tables_in_level, find_overlapping_tables,
}
use kvdb.LevelManager.Order.{HasRange, IsDisjoint, IsLevel, AreLevels, largest-IsPartitioned}

filter_none {ℓ} :
    {A : Type ℓ} (p : A → Bool) (xs : List A) → All (λ x. p x ≡ false) xs → filter p xs ≡ []
filter_none p [] h = refl
filter_none p (x ∷ xs) h = rw h.0 (filter_none p xs h.1)

candidates_scan :
    (key : ArenaEntry) (ts : List TableMeta)
    → All HasRange ts
    → IsDisjoint ts
    → if_inside key (head (span (λ t. entry_lt t.largest_key key) ts).1)
      ≡ filter (key_is_inside_table key) ts
unfolding key_is_inside_table
candidates_scan key [] r d = refl
candidates_scan key (t ∷ ts) r d = elim (Bool-cases (entry_lt t.largest_key key)) [
  | inl b ↦ ground (arith, candidates_scan key ts r.1 d.1)
  | inr b ↦
      let no_other : filter (key_is_inside_table key) ts ≡ [] =
        (filter_none (key_is_inside_table key) ts (
          All-imp (λ u h. ground (arith, entry_le_lt_trans key t.largest_key u.smallest_key b h)) ts
            d.0)) in
      ground arith
]

collect_scan :
    (smallest largest : ArenaEntry) (ts : List TableMeta)
    → All HasRange ts
    → IsDisjoint ts
    → All (λ t. entry_lt t.largest_key smallest ≡ false) ts
    → collect_until largest ts ≡ filter (overlaps_range smallest largest) ts
unfolding collect_until ranges_overlap
collect_scan smallest largest [] r d h = refl
collect_scan smallest largest (t ∷ ts) r d h = elim (Bool-cases (entry_lt largest t.smallest_key)) [
  | inl b ↦
      let above = λ (u : TableMeta) (k : entry_lt t.largest_key u.smallest_key ≡ true).
        entry_lt_trans largest t.smallest_key u.smallest_key b
          (entry_le_lt_trans t.smallest_key t.largest_key u.smallest_key r.0 k) in
      let no_other : filter (overlaps_range smallest largest) ts ≡ [] =
        (filter_none (overlaps_range smallest largest) ts
          (All-imp (λ u k. ground (arith, above u k)) ts d.0)) in
      ground arith
  | inr b ↦ ground (arith, collect_scan smallest largest ts r.1 d.1 h.1)
]

overlapping_scan :
    (smallest largest : ArenaEntry) (ts : List TableMeta)
    → All HasRange ts
    → IsDisjoint ts
    → collect_until largest (span (λ t. entry_lt t.largest_key smallest) ts).1
      ≡ filter (overlaps_range smallest largest) ts
unfolding ranges_overlap
overlapping_scan smallest largest [] r d = collect_scan smallest largest [] r d tt
overlapping_scan smallest largest (t ∷ ts) r d =
    elim (Bool-cases (entry_lt t.largest_key smallest)) [
      | inl b ↦ ground (arith, overlapping_scan smallest largest ts r.1 d.1)
      | inr b ↦ ground (
        arith,
        collect_scan smallest largest (t ∷ ts) r d
            (b, (largest-IsPartitioned smallest (t ∷ ts) r d).0 b),
      )
    ]

pub IsLevel-at :
    (first level : ℕ) (levels : LevelManager) (ts : List TableMeta)
    → AreLevels first levels
    → get_elem? levels level ≡ some ts
    → IsLevel (first + level) ts
IsLevel-at first level [] ts h e = cc
IsLevel-at first zero (us ∷ levels) ts h e =
    let same : us ≡ ts = cc in
    subst (λ n. IsLevel n ts) (omega arith) (subst (IsLevel first) same h.0)
IsLevel-at first (suc level) (us ∷ levels) ts h e =
    subst (λ n. IsLevel n ts) (omega arith) (IsLevel-at (suc first) level levels ts h.1 e)

pub IsLevel-of :
    (level : ℕ) (levels : LevelManager) (ts : List TableMeta)
    → AreLevels 0 levels
    → get_elem? levels level ≡ some ts
    → IsLevel level ts
IsLevel-of level levels ts h e =
    subst (λ n. IsLevel n ts) (omega arith) (IsLevel-at 0 level levels ts h e)

suc_ne_zero : (n : ℕ) → (suc n == 0) ≡ false
suc_ne_zero n = ground arith

candidates-filter :
    (level : ℕ) (key : ArenaEntry) (ts : List TableMeta)
    → IsLevel level ts
    → candidates level key ts ≡ filter (key_is_inside_table key) ts
unfolding candidates
candidates-filter zero key ts h = refl
candidates-filter (suc level) key ts (b, d) =
    let r = All-imp (λ t k. k.2) ts b in
    rw (suc_ne_zero level) (
      ap (λ p. if_inside key (head p.1)) (lower_bound-span _ ts (largest-IsPartitioned key ts r d))
      ∙ candidates_scan key ts r d)

overlapping-filter :
    (level : ℕ) (smallest largest : ArenaEntry) (ts : List TableMeta)
    → IsLevel level ts
    → overlapping level smallest largest ts ≡ filter (overlaps_range smallest largest) ts
unfolding overlapping
overlapping-filter zero smallest largest ts h = refl
overlapping-filter (suc level) smallest largest ts (b, d) =
    let r = All-imp (λ t k. k.2) ts b in
    rw (suc_ne_zero level) (
      ap (λ p. collect_until largest p.1)
        (lower_bound-span _ ts (largest-IsPartitioned smallest ts r d))
      ∙ overlapping_scan smallest largest ts r d)

-- In a catalog whose levels are in order, the lookup of a key on a level returns exactly the tables
-- of the level whose key range contains the key, in the level's order: above L0 the binary search
-- misses none.
pub find_candidate_tables_in_level-filter :
    (levels : LevelManager) (level : ℕ) (key : ArenaEntry) (ts : List TableMeta)
    → AreLevels 0 levels
    → get_elem? levels level ≡ some ts
    → find_candidate_tables_in_level levels level key ≡ ok (filter (key_is_inside_table key) ts)
unfolding find_candidate_tables_in_level
find_candidate_tables_in_level-filter levels level key ts h e =
    ground (arith, e, (candidates-filter level key ts (IsLevel-of level levels ts h e)))

-- In a catalog whose levels are in order, the lookup of a key range that is not empty returns
-- exactly the tables of the level whose key range meets it, in the level's order.
pub find_overlapping_tables-filter :
    (levels : LevelManager) (level : ℕ) (smallest largest : ArenaEntry) (ts : List TableMeta)
    → AreLevels 0 levels
    → get_elem? levels level ≡ some ts
    → entry_lt largest smallest ≡ false
    → find_overlapping_tables levels level smallest largest
      ≡ filter (overlaps_range smallest largest) ts
unfolding find_overlapping_tables
find_overlapping_tables-filter levels level smallest largest ts h e r =
    ground (arith, overlapping-filter level smallest largest ts (IsLevel-of level levels ts h e))
