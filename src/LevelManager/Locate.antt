-- ===== src/LevelManager/Locate.antt =====
-- Where the searches of `remove_table` stop, and the catalog without the table found.
use kvdb.Base.{
  ℕ, zero, suc, ◌+◌, ◌≤◌, ◌≡◌, ◌⊎◌, refl, sym, ap, ◌∙◌, true, false, Option, none, some, List, [],
  ◌∷◌, ◌++◌, length, All-remove, Pairwise-remove, find_if, erase_index, arith, Bool-cases, inl, inr,
  get_elem?, set,
}
use kvdb.Status.{ok}
use kvdb.TableMeta.{TableMeta}
use kvdb.LevelManager.{LevelManager, erase_at, locate, locate_in_level, has_id}
use kvdb.LevelManager.Order.{IsLevel, IsValid, count, count_all}
use kvdb.LevelManager.Lookup.{IsLevel-of}
use kvdb.LevelManager.Add.{count_insert, count_all-set, set-AreLevels}

-- Where `find_if` stops.
abbrev pub FoundIn :
    (id : ℕ) → List TableMeta → Option (List TableMeta × TableMeta × List TableMeta) → Type 0
FoundIn id ts none = count id ts ≡ 0
FoundIn id ts (some (before, t, after)) =
    (before ++ (t ∷ after) ≡ ts) × (has_id id t ≡ true) × (count id before ≡ 0)

pub find_if-FoundIn : (id : ℕ) (ts : List TableMeta) → FoundIn id ts (find_if (has_id id) ts)
find_if-FoundIn id [] = refl
find_if-FoundIn id (t ∷ ts) = elim (Bool-cases (has_id id t)) [
  | inl e ↦ rw e (refl, e, refl)
  | inr e ↦ go e (find_if (has_id id) ts) refl (find_if-FoundIn id ts)
]
  where
    go :
        has_id id t ≡ false
        → (o : Option (List TableMeta × TableMeta × List TableMeta)) → find_if (has_id id) ts ≡ o
        → FoundIn id ts o
        → FoundIn id (t ∷ ts) (find_if (has_id id) (t ∷ ts))
    go e none f h = rw (e, f) (ground arith)
    go e (some (before, u, after)) f h = rw (e, f) (ap (λ us. t ∷ us) h.0, h.1, ground arith)

locate_in_level_none :
    (id level index : ℕ) (ts : List TableMeta) (found : Option (ℕ × ℕ))
    → count id ts ≡ 0
    → locate_in_level id level index ts found ≡ ok found
unfolding locate_in_level
locate_in_level_none id level index [] found h = refl
locate_in_level_none id level index (t ∷ ts) none h =
    ground (arith, locate_in_level_none id level (suc index) ts none)
locate_in_level_none id level index (t ∷ ts) (some f) h =
    ground (arith, locate_in_level_none id level (suc index) ts (some f))

pub locate_none :
    (id level : ℕ) (levels : LevelManager) (found : Option (ℕ × ℕ))
    → count_all id levels ≡ 0
    → locate id level levels found ≡ ok found
unfolding locate
locate_none id level [] found h = refl
locate_none id level (ts ∷ levels) found h =
    ground
      (arith, locate_in_level_none id level 0 ts found, locate_none id (suc level) levels found)

locate_in_level_at :
    (id level index : ℕ) (before : List TableMeta) (t : TableMeta) (after : List TableMeta)
    → has_id id t ≡ true
    → count id (before ++ after) ≡ 0
    → locate_in_level id level index (before ++ (t ∷ after)) none
      ≡ ok (some (level, index + length before))
unfolding locate_in_level
locate_in_level_at id level index [] t after e h =
    ground (arith, locate_in_level_none id level (suc index) after (some (level, index)))
locate_in_level_at id level index (u ∷ before) t after e h =
    ground (arith, locate_in_level_at id level (suc index) before t after)

pub count_at :
    (id : ℕ) (levels : LevelManager) (level : ℕ) (before : List TableMeta) (t : TableMeta)
    (after : List TableMeta)
    → get_elem? levels level ≡ some (before ++ (t ∷ after))
    → has_id id t ≡ true
    → 1 ≤ count_all id levels
count_at id [] level before t after e m = cc
count_at id (ts ∷ levels) zero before t after e m =
    let same : ts ≡ before ++ (t ∷ after) = cc in
    let counted = ap (count id) same ∙ count_insert id before t after in ground arith
count_at id (ts ∷ levels) (suc level) before t after e m =
    omega (arith, count_at id levels level before t after e m)

pub locate_at :
    (id first level : ℕ) (levels : LevelManager) (before : List TableMeta) (t : TableMeta)
    (after : List TableMeta)
    → get_elem? levels level ≡ some (before ++ (t ∷ after))
    → has_id id t ≡ true
    → count_all id levels ≤ 1
    → locate id first levels none ≡ ok (some (first + level, length before))
unfolding locate
locate_at id first level [] before t after e m h = cc
locate_at id first zero (ts ∷ levels) before t after e m h =
    let same : ts ≡ before ++ (t ∷ after) = cc in
    let counted = ap (count id) same ∙ count_insert id before t after in
    let alone : count id (before ++ after) ≡ 0 = ground arith in
    let others : count_all id levels ≡ 0 = ground arith in
    rw (same, locate_in_level_at id first 0 before t after m alone)
      (locate_none id (suc first) levels (some (first, 0 + length before)) others
        ∙ ap (λ p. ok (some p)) (ground arith))
locate_at id first (suc level) (ts ∷ levels) before t after e m h =
    let present = count_at id levels level before t after e m in
    let absent : count id ts ≡ 0 = omega (arith, present) in
    rw (locate_in_level_none id first 0 ts none absent) (
      locate_at id (suc first) level levels before t after e m (omega arith)
      ∙ ap (λ n. ok (some (n, length before))) (omega arith))

erase_index-length :
    (before : List TableMeta) (t : TableMeta) (after : List TableMeta)
    → erase_index (before ++ (t ∷ after)) (length before) ≡ before ++ after
erase_index-length [] t after = refl
erase_index-length (u ∷ before) t after = ap (λ ts. u ∷ ts) (erase_index-length before t after)

pub erase_at-set :
    (levels : LevelManager) (level : ℕ) (before : List TableMeta) (t : TableMeta)
    (after : List TableMeta)
    → get_elem? levels level ≡ some (before ++ (t ∷ after))
    → erase_at levels level (length before) ≡ set levels level (before ++ after)
erase_at-set [] level before t after e = refl
erase_at-set (ts ∷ levels) zero before t after e =
    let same : ts ≡ before ++ (t ∷ after) = cc in
    ap (λ us. us ∷ levels)
      (ap (λ us. erase_index us (length before)) same ∙ erase_index-length before t after)
erase_at-set (ts ∷ levels) (suc level) before t after e =
    ap (λ us. ts ∷ us) (erase_at-set levels level before t after e)

-- A level without one of its tables is a level.
removed-IsLevel :
    (level : ℕ) (before : List TableMeta) (t : TableMeta) (after : List TableMeta)
    → IsLevel level (before ++ (t ∷ after))
    → IsLevel level (before ++ after)
removed-IsLevel zero before t after h =
    (All-remove _ before t after h.0, Pairwise-remove _ before t after h.1)
removed-IsLevel (suc level) before t after h =
    (All-remove _ before t after h.0, Pairwise-remove _ before t after h.1)

pub removed-IsValid :
    (level : ℕ) (levels : LevelManager) (before : List TableMeta) (t : TableMeta)
    (after : List TableMeta)
    → IsValid levels
    → get_elem? levels level ≡ some (before ++ (t ∷ after))
    → IsValid (set levels level (before ++ after))
removed-IsValid level levels before t after (ordered, unique) e = (
  set-AreLevels level levels (before ++ after) ordered
      (removed-IsLevel level before t after (IsLevel-of level levels _ ordered e)),
  λ id. omega (
    arith,
    count_all-set id levels level (before ++ (t ∷ after)) (before ++ after) e,
    count_insert id before t after,
    unique id,
  ),
)

-- A catalog either has no table with an id, or one at some place.
pub find_table :
    (id : ℕ) (levels : LevelManager)
    → (count_all id levels ≡ 0)
      ⊎ ((level : ℕ) × (before : List TableMeta) × (t : TableMeta) × (after : List TableMeta)
          × (get_elem? levels level ≡ some (before ++ (t ∷ after)))
          × (has_id id t ≡ true))
find_table id [] = inl refl
find_table id (ts ∷ levels) =
    go (find_table id levels) (find_if (has_id id) ts) (find_if-FoundIn id ts)
  where
    Place : LevelManager → Type 0
    Place levels =
        (level : ℕ) × (before : List TableMeta) × (t : TableMeta) × (after : List TableMeta)
        × (get_elem? levels level ≡ some (before ++ (t ∷ after)))
        × (has_id id t ≡ true)

    go :
        ((count_all id levels ≡ 0) ⊎ Place levels)
        → (o : Option (List TableMeta × TableMeta × List TableMeta)) → FoundIn id ts o
        → (count_all id (ts ∷ levels) ≡ 0) ⊎ Place (ts ∷ levels)
    go (inl z) none h = inl (omega arith)
    go (inr (level, before, t, after, e, m)) none h = inr (suc level, before, t, after, e, m)
    go rest (some (before, t, after)) h = inr (0, before, t, after, ap some (sym h.0), h.1)
