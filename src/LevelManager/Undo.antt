-- ===== src/LevelManager/Undo.antt =====
-- Removing a table that was just added.
use mathlib.Core.Path.{subst}
use kvdb.Base.{
  ℕ, zero, suc, ◌≡◌, ◌≢◌, refl, sym, ap, ◌∙◌, false, none, some, List, [], ◌∷◌, ◌++◌, any, arith,
  Bool-cases, Option-cases, inl, inr, get_elem?, set, ltb, last, head, ◌==◌, ==_iff,
}
use kvdb.Search.{lower_bound, lower_bound-append}
use kvdb.Status.{ok_code, Result, ok, fail}
use kvdb.Entry.{entry_lt}
use kvdb.TableMeta.{TableMeta}
use kvdb.LevelManager.{
  LevelManager, remove_table, replaced, has_id, add_table, install, insert_newest, insert_disjoint,
  overlaps_previous, overlaps_next,
}
use kvdb.LevelManager.Order.{IsValid}
use kvdb.LevelManager.Add.{add_table-IsValid}
use kvdb.LevelManager.Remove.{remove_table_at}

set-set :
    (levels : LevelManager) (level : ℕ) (ts us : List TableMeta)
    → get_elem? levels level ≡ some us
    → set (set levels level ts) level us ≡ levels
set-set [] level ts us e = refl
set-set (vs ∷ levels) zero ts us e = let same : vs ≡ us = cc in ap (λ ws. ws ∷ levels) (sym same)
set-set (vs ∷ levels) (suc level) ts us e = ap (λ ls. vs ∷ ls) (set-set levels level ts us e)

get_elem?-set :
    (levels : LevelManager) (level : ℕ) (ts us : List TableMeta)
    → get_elem? levels level ≡ some us
    → get_elem? (set levels level ts) level ≡ some ts
get_elem?-set [] level ts us e = cc
get_elem?-set (vs ∷ levels) zero ts us e = refl
get_elem?-set (vs ∷ levels) (suc level) ts us e = get_elem?-set levels level ts us e

-- Where an accepted table stands in its level.
abbrev InsertedIn : TableMeta → List TableMeta → Result (List TableMeta) → Type 0
InsertedIn meta ts (fail code) = code ≢ ok_code
InsertedIn meta ts (ok us) =
    (before : List TableMeta) × (after : List TableMeta) × (before ++ after ≡ ts)
    × (us ≡ before ++ (meta ∷ after))

install-InsertedIn : (meta : TableMeta) (ts : List TableMeta) → InsertedIn meta ts (install meta ts)
unfolding install insert_newest insert_disjoint
install-InsertedIn meta ts = elim (Bool-cases (meta.level == 0)) [
  | inl z ↦
      let test = λ (t : TableMeta). ltb meta.table_id t.table_id in
      rw z ((lower_bound test ts).0, (lower_bound test ts).1, lower_bound-append test ts, refl)
  | inr z ↦
      let test = λ (t : TableMeta). entry_lt t.smallest_key meta.smallest_key in
      elim (Bool-cases (overlaps_previous meta (last (lower_bound test ts).0))) [
        | inl o ↦ rw (z, o) (λ k. cc)
        | inr o ↦ elim (Bool-cases (overlaps_next meta (head (lower_bound test ts).1))) [
          | inl p ↦ rw (z, o, p) (λ k. cc)
          | inr p ↦
              rw (z, o, p)
                ((lower_bound test ts).0, (lower_bound test ts).1, lower_bound-append test ts, refl)
        ]
      ]
]

-- What an accepted table does to the catalog.
add_table_accepted :
    (meta : TableMeta) (levels : LevelManager)
    → (add_table meta levels).0 ≡ ok_code
    → (before : List TableMeta) × (after : List TableMeta) × (get_elem? levels meta.level
        ≡ some (before ++ after))
      × ((add_table meta levels).1 ≡ set levels meta.level (before ++ (meta ∷ after)))
      × (meta.table_id ≢ 0)
unfolding add_table
add_table_accepted meta levels h = elim (Bool-cases (meta.table_id == 0)) [
  | inl z ↦ absurd (ground arith)
  | inr z ↦ elim (Option-cases (get_elem? levels meta.level)) [
    | inl e ↦ absurd (ground arith)
    | inr (ts, e) ↦ elim (Bool-cases (entry_lt meta.largest_key meta.smallest_key)) [
      | inl r ↦ absurd (ground arith)
      | inr r ↦ elim (Bool-cases (any (any (has_id meta.table_id)) levels)) [
        | inl d ↦ absurd (ground arith)
        | inr d ↦
            rw (z, e, r, d)
              (go ts e z (install meta ts) (install-InsertedIn meta ts) (rw (z, e, r, d) at h))
      ]
    ]
  ]
]
  where
    go :
        (ts : List TableMeta)
        → get_elem? levels meta.level ≡ some ts
        → (meta.table_id == 0) ≡ false
        → (result : Result (List TableMeta)) → InsertedIn meta ts result
        → (replaced meta.level levels result).0 ≡ ok_code
        → (before : List TableMeta) × (after : List TableMeta) × (some ts ≡ some (before ++ after))
          × ((replaced meta.level levels result).1
              ≡ set levels meta.level (before ++ (meta ∷ after)))
          × (meta.table_id ≢ 0)
    go ts e z (fail code) i a = absurd (i a)
    go ts e z (ok us) (before, after, whole, new) a =
        (before, after, ap some (sym whole), ap (set levels meta.level) new, ground arith)

-- In a valid catalog, removing a table just after add_table accepted it restores the catalog.
pub remove_table-add_table :
    (meta : TableMeta) (levels : LevelManager)
    → IsValid levels
    → (add_table meta levels).0 ≡ ok_code
    → remove_table meta.table_id none (add_table meta levels).1 ≡ (ok_code, levels)
remove_table-add_table meta levels h a =
    let (before, after, e, new, id_set) = add_table_accepted meta levels a in
    let grown = subst IsValid new (add_table-IsValid meta levels h) in
    let there = get_elem?-set levels meta.level (before ++ (meta ∷ after)) (before ++ after) e in
    ap (remove_table meta.table_id none) new
    ∙ remove_table_at meta.table_id meta.level _ before meta after there
        ((==_iff meta.table_id meta.table_id).1 refl) (grown.1 meta.table_id) id_set
    ∙ ap (λ ls. (ok_code, ls)) (set-set levels meta.level _ (before ++ after) e)
