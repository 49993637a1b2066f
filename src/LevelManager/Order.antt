-- ===== src/LevelManager/Order.antt =====
-- The invariants of the levels: L0 by falling ids, L1 and above by disjoint rising key ranges, every
-- table on the level it names, and no id twice in the catalog.
use kvdb.Base.{
  refl, arith, ℕ, zero, suc, ◌+◌, ◌≤◌, ◌<◌, ◌≡◌, ◌≢◌, true, false, List, [], ◌∷◌, All, Pairwise,
  Bool-cases, inl, inr, if◌then◌else◌,
}
use kvdb.Search.{IsPartitioned}
use kvdb.Entry.{ArenaEntry, entry_lt}
use kvdb.Entry.Order.{entry_lt_trans, entry_le_lt_trans}
use kvdb.TableMeta.{TableMeta}
use kvdb.LevelManager.{LevelManager, empty_levels, has_id}

abbrev pub HasRange : TableMeta → Type 0
HasRange t = entry_lt t.largest_key t.smallest_key ≡ false

abbrev pub IsDisjoint : List TableMeta → Type 0
IsDisjoint = Pairwise (λ t u. entry_lt t.largest_key u.smallest_key ≡ true)

abbrev pub IsNewestFirst : List TableMeta → Type 0
IsNewestFirst = Pairwise (λ t u. u.table_id < t.table_id)

abbrev pub IsOrdered : ℕ → List TableMeta → Type 0
IsOrdered zero = IsNewestFirst
IsOrdered (suc level) = IsDisjoint

-- A table that may stand on the level.
abbrev pub BelongsTo : ℕ → TableMeta → Type 0
BelongsTo level t = (t.level ≡ level) × (t.table_id ≢ 0) × HasRange t

abbrev pub IsLevel : ℕ → List TableMeta → Type 0
IsLevel level ts = All (BelongsTo level) ts × IsOrdered level ts

abbrev pub AreLevels : ℕ → LevelManager → Type 0
AreLevels level [] = Unit
AreLevels level (ts ∷ levels) = IsLevel level ts × AreLevels (suc level) levels

-- How many tables of a level, and of the catalog, have an id.
abbrev pub count : ℕ → List TableMeta → ℕ
count id [] = 0
count id (t ∷ ts) = (if has_id id t then 1 else 0) + count id ts

abbrev pub count_all : ℕ → LevelManager → ℕ
count_all id [] = 0
count_all id (ts ∷ levels) = count id ts + count_all id levels

abbrev pub IsValid : LevelManager → Type 0
IsValid levels = AreLevels 0 levels × ((id : ℕ) → count_all id levels ≤ 1)

pub largest_passes :
    (key : ArenaEntry) (x y : TableMeta)
    → HasRange y
    → entry_lt x.largest_key y.smallest_key ≡ true
    → entry_lt x.largest_key key ≡ false
    → entry_lt y.largest_key key ≡ false
largest_passes key x y r h k = elim (Bool-cases (entry_lt y.largest_key key)) [
  | inl b ↦
      let above = entry_le_lt_trans y.smallest_key y.largest_key key r b in
      cc (entry_lt_trans x.largest_key y.smallest_key key h above, k)
  | inr b ↦ b
]

pub largest-IsPartitioned :
    (key : ArenaEntry) (ts : List TableMeta)
    → All HasRange ts
    → IsDisjoint ts
    → IsPartitioned (λ t. entry_lt t.largest_key key) ts
largest-IsPartitioned key [] r d = tt
largest-IsPartitioned key (t ∷ ts) r d =
    (λ e. later ts r.1 d.0 e, largest-IsPartitioned key ts r.1 d.1)
  where
    later :
        (us : List TableMeta)
        → All HasRange us
        → All (λ u. entry_lt t.largest_key u.smallest_key ≡ true) us
        → entry_lt t.largest_key key ≡ false
        → All (λ u. entry_lt u.largest_key key ≡ false) us
    later [] r h e = tt
    later (u ∷ us) r h e = (largest_passes key t u r.0 h.0 e, later us r.1 h.1 e)

pub empty_levels-IsValid : (n : ℕ) → IsValid (empty_levels n)
empty_levels-IsValid n = (ordered 0 n, λ id. omega (arith, none id n))
  where
    ordered : (level n : ℕ) → AreLevels level (empty_levels n)
    ordered level zero = tt
    ordered zero (suc n) = ((tt, tt), ordered 1 n)
    ordered (suc level) (suc n) = ((tt, tt), ordered (suc (suc level)) n)

    none : (id n : ℕ) → count_all id (empty_levels n) ≡ 0
    none id zero = refl
    none id (suc n) = omega (arith, none id n)
