-- ===== src/LevelManager/Remove.antt =====
-- `remove_table`: the search over all levels and the removal from a named level.
use mathlib.Core.Path.{subst}
use kvdb.Base.{
  ℕ, ◌≤◌, ◌≡◌, ◌≢◌, refl, sym, ap, ◌∙◌, true, false, Option, none, some, List, ◌∷◌, ◌++◌, length,
  find_if, arith, Bool-cases, Option-cases, inl, inr, get_elem?, set, if◌then◌else◌, ◌==◌, ==_iff,
  not, ◌&&◌,
}
use kvdb.Status.{ok_code, not_found, invalid_argument}
use kvdb.TableMeta.{TableMeta}
use kvdb.LevelManager.{LevelManager, remove_table, erase_id, replaced, erase_at, has_id}
use kvdb.LevelManager.Order.{IsValid, count_all}
use kvdb.LevelManager.Add.{count_insert, count_all-set}
use kvdb.LevelManager.Locate.{
  FoundIn, find_if-FoundIn, locate_none, locate_at, count_at, erase_at-set, removed-IsValid,
  find_table,
}

-- The search without a level, where the table stands.
pub remove_table_at :
    (id level : ℕ) (levels : LevelManager) (before : List TableMeta) (t : TableMeta)
    (after : List TableMeta)
    → get_elem? levels level ≡ some (before ++ (t ∷ after))
    → has_id id t ≡ true
    → count_all id levels ≤ 1
    → id ≢ 0
    → remove_table id none levels ≡ (ok_code, set levels level (before ++ after))
unfolding remove_table
remove_table_at id level levels before t after e m h n =
    let not_zero : (id == 0) ≡ false = ground arith in
    rw (not_zero, locate_at id 0 level levels before t after e m h)
      (ap (λ l. (ok_code, erase_at levels l (length before))) (omega arith)
        ∙ ap (λ ls. (ok_code, ls)) (erase_at-set levels level before t after e))

remove_table_absent :
    (id : ℕ) (levels : LevelManager)
    → count_all id levels ≡ 0
    → id ≢ 0
    → remove_table id none levels ≡ (not_found, levels)
unfolding remove_table
remove_table_absent id levels h n =
    let not_zero : (id == 0) ≡ false = ground arith in
    rw (not_zero, locate_none id 0 levels none h) refl

-- remove_table keeps the catalog valid, with and without a level named, whether it removes a table
-- or answers an error.
pub remove_table-IsValid :
    (id : ℕ) (target_level : Option ℕ) (levels : LevelManager)
    → IsValid levels
    → IsValid (remove_table id target_level levels).1
unfolding remove_table erase_id
remove_table-IsValid id none levels h = elim (Bool-cases (id == 0)) [
  | inl z ↦ rw z h
  | inr z ↦ elim (find_table id levels) [
    | inl absent ↦
        subst (λ p. IsValid p.1) (sym (remove_table_absent id levels absent (ground arith))) h
    | inr (level, before, t, after, e, m) ↦
        subst (λ p. IsValid p.1)
          (sym (remove_table_at id level levels before t after e m (h.1 id) (ground arith)))
          (removed-IsValid level levels before t after h e)
  ]
]
remove_table-IsValid id (some level) levels h = elim (Bool-cases (id == 0)) [
  | inl z ↦ rw z h
  | inr z ↦ elim (Option-cases (get_elem? levels level)) [
    | inl e ↦ rw (z, e) h
    | inr (ts, e) ↦ rw (z, e) (go ts e (find_if (has_id id) ts) refl (find_if-FoundIn id ts))
  ]
]
  where
    go :
        (ts : List TableMeta)
        → get_elem? levels level ≡ some ts
        → (o : Option (List TableMeta × TableMeta × List TableMeta)) → find_if (has_id id) ts ≡ o
        → FoundIn id ts o
        → IsValid (replaced level levels (erase_id id ts)).1
    go ts e none f k = rw (replaced, erase_id, f) h
    go ts e (some (before, t, after)) f k = elim (Option-cases (find_if (has_id id) after)) [
      | inl g ↦
          rw (replaced, erase_id, f, g)
            (removed-IsValid level levels before t after h (e ∙ ap some (sym k.0)))
      | inr (second, g) ↦ rw (replaced, erase_id, f, g) h
    ]

remove_table_zero :
    (id : ℕ) (levels : LevelManager)
    → (id == 0) ≡ true
    → remove_table id none levels ≡ (invalid_argument, levels)
unfolding remove_table
remove_table_zero id levels z = rw z refl

remove_table_counts :
    (id : ℕ) (levels : LevelManager)
    → IsValid levels
    → id ≢ 0
    → ((remove_table id none levels).0 ≡ (if count_all id levels == 0 then not_found else ok_code))
      × ((other : ℕ)
          → count_all other (remove_table id none levels).1
            ≡ (if other == id then 0 else count_all other levels))
remove_table_counts id levels h n = elim (find_table id levels) [
  | inl absent ↦ rw (remove_table_absent id levels absent n) (
    ground arith,
    λ other. elim (Bool-cases (other == id)) [
      | inl k ↦ rw k (subst (λ i. count_all i levels ≡ 0) (sym ((==_iff other id).0 k)) absent)
      | inr k ↦ rw k refl
    ],
  )
  | inr (level, before, t, after, e, m) ↦
      let present = count_at id levels level before t after e m in
      rw (remove_table_at id level levels before t after e m (h.1 id) n) (
        ground arith,
        λ other.
            let counted = count_insert other before t after in
            let moved =
              count_all-set other levels level (before ++ (t ∷ after)) (before ++ after) e in
            ground (arith, h.1 other),
      )
]

-- In a valid catalog, remove_table without a level answers InvalidArgument for the id 0. For any other
-- id it answers Ok if some table has the id, and NotFound otherwise; after it no table has the id. Of
-- every id that was not to be removed there are as many tables as before.
pub remove_table-count_all :
    (id : ℕ) (levels : LevelManager)
    → IsValid levels
    → ((remove_table id none levels).0 ≡ (
        if id == 0
        then invalid_argument
        else if count_all id levels == 0
        then not_found
        else ok_code))
      × ((other : ℕ)
          → count_all other (remove_table id none levels).1
            ≡ (if not (id == 0) && (other == id) then 0 else count_all other levels))
remove_table-count_all id levels h = elim (Bool-cases (id == 0)) [
  | inl z ↦ rw (remove_table_zero id levels z) (rw z refl, λ other. rw z refl)
  | inr z ↦
      let (answer, counts) = remove_table_counts id levels h (ground arith) in
      (rw z answer, λ other. rw z (counts other))
]
