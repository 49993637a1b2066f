-- ===== src/Compaction/Ranges.antt =====
-- The widening of a plan's key range: the range reaches every table it was widened by.
use kvdb.Base.{◌≡◌, true, false, List, [], ◌∷◌, All, Bool-cases, inl, inr, arith}
use kvdb.Entry.{ArenaEntry, entry_lt}
use kvdb.Entry.Order.{entry_lt_le_trans, entry_lt_irrefl, entry_lt_asym}
use kvdb.TableMeta.{TableMeta}
use kvdb.LevelManager.Order.{HasRange}
use kvdb.Compaction.{range_contains, widen_plan_range, widen_all}

entry_le_trans :
    (a b c : ArenaEntry) → entry_lt b a ≡ false → entry_lt c b ≡ false → entry_lt c a ≡ false
entry_le_trans a b c h k = elim (Bool-cases (entry_lt c a)) [
  | inl e ↦ cc (entry_lt_le_trans c a b e h, k)
  | inr e ↦ e
]

-- The first range lies in the second.
abbrev pub Within : ArenaEntry × ArenaEntry → ArenaEntry × ArenaEntry → Type 0
Within inner outer = (entry_lt inner.0 outer.0 ≡ false) × (entry_lt outer.1 inner.1 ≡ false)

abbrev pub Contains : ArenaEntry × ArenaEntry → TableMeta → Type 0
Contains range t = range_contains range.0 range.1 t ≡ true

widen-Within :
    (range : ArenaEntry × ArenaEntry) (t : TableMeta)
    → Within range (widen_plan_range range t) × Contains (widen_plan_range range t) t
unfolding widen_plan_range range_contains
widen-Within (smallest, largest) t = (
  (
    ground (arith, entry_lt_asym t.smallest_key smallest, entry_lt_irrefl smallest),
    ground (arith, entry_lt_asym largest t.largest_key, entry_lt_irrefl largest),
  ),
  ground (arith, entry_lt_irrefl t.smallest_key, entry_lt_irrefl t.largest_key),
)

pub Contains-Within :
    (inner outer : ArenaEntry × ArenaEntry) (t : TableMeta)
    → Within inner outer
    → Contains inner t
    → Contains outer t
unfolding range_contains
Contains-Within inner outer t (h, k) c = ground (
  arith,
  entry_le_trans outer.0 inner.0 t.smallest_key h,
  entry_le_trans t.largest_key inner.1 outer.1,
)

pub widen_all-Within :
    (range : ArenaEntry × ArenaEntry) (ts : List TableMeta)
    → Within range (widen_all range ts) × All (Contains (widen_all range ts)) ts
unfolding widen_all
widen_all-Within range [] = ((entry_lt_irrefl range.0, entry_lt_irrefl range.1), tt)
widen_all-Within range (t ∷ ts) =
    let (within, contains) = widen-Within range t in
    let (further, others) = widen_all-Within (widen_plan_range range t) ts in
    let wide = widen_plan_range range t in
    let all = widen_all wide ts in
    (
      (
        entry_le_trans all.0 wide.0 range.0 further.0 within.0,
        entry_le_trans range.1 wide.1 all.1 within.1 further.1,
      ),
      (Contains-Within wide all t further contains, others),
    )

-- A range that reaches a table with a range of its own is not empty.
pub Contains-order :
    (range : ArenaEntry × ArenaEntry) (t : TableMeta)
    → HasRange t
    → Contains range t
    → entry_lt range.1 range.0 ≡ false
unfolding range_contains
Contains-order range t r c = ground (
  arith,
  entry_le_trans range.0 t.smallest_key t.largest_key,
  entry_le_trans range.0 t.largest_key range.1,
)
