-- ===== src/Compaction/Ids.antt =====
-- The ids that `validate_table` collects: tables of different levels of a valid catalog share none.
use kvdb.Base.{
  ℕ, zero, suc, ◌+◌, ◌≤◌, ◌≡◌, refl, ap, Bool, false, some, List, [], ◌∷◌, All, any, filter,
  get_elem?, arith, Bool-cases, inl, inr, if◌then◌else◌, ◌==◌,
}
use kvdb.Entry.{ArenaEntry}
use kvdb.TableMeta.{TableMeta}
use kvdb.LevelManager.{LevelManager}
use kvdb.LevelManager.Order.{BelongsTo, count, count_all}
use kvdb.Compaction.{validate_tables, table_range_is_valid, largest_file, smaller_file}
use kvdb.Compaction.Ranges.{Contains}

abbrev pub times : ℕ → List ℕ → ℕ
times id [] = 0
times id (x ∷ xs) = (if x == id then 1 else 0) + times id xs

not_seen : (id : ℕ) (xs : List ℕ) → times id xs ≡ 0 → any (λ x. x == id) xs ≡ false
not_seen id [] h = refl
not_seen id (x ∷ xs) h = ground (arith, not_seen id xs)

pub validate_tables-some :
    (smallest largest : ArenaEntry) (level : ℕ) (ts : List TableMeta) (seen : List ℕ)
    → All (BelongsTo level) ts
    → All (Contains (smallest, largest)) ts
    → ((id : ℕ) → count id ts + times id seen ≤ 1)
    → (ids : List ℕ) × (validate_tables smallest largest level ts seen ≡ some ids)
      × ((id : ℕ) → times id ids ≡ count id ts + times id seen)
unfolding validate_tables table_range_is_valid
validate_tables-some smallest largest level [] seen b c h = (seen, refl, λ id. omega arith)
validate_tables-some smallest largest level (t ∷ ts) seen (b, bs) (c, cs) h =
    let (ids, e, counts) =
      validate_tables-some smallest largest level ts (t.table_id ∷ seen) bs cs
        (λ id. ground (arith, h id)) in
    let fresh : times t.table_id seen ≡ 0 = ground (arith, h t.table_id) in
    let unseen = not_seen t.table_id seen fresh in
    (ids, ground arith, λ id. ground (arith, counts id))

pub count-filter :
    (id : ℕ) (p : TableMeta → Bool) (ts : List TableMeta) → count id (filter p ts) ≤ count id ts
count-filter id p [] = omega arith
count-filter id p (t ∷ ts) = ground (arith, count-filter id p ts)

pub All-filter {ℓ} :
    {A : Type ℓ} (P : A → Type 0) (p : A → Bool) (xs : List A) → All P xs → All P (filter p xs)
All-filter P p [] h = tt
All-filter P p (x ∷ xs) h = elim (Bool-cases (p x)) [
  | inl e ↦ rw e (h.0, All-filter P p xs h.1)
  | inr e ↦ rw e (All-filter P p xs h.1)
]

pub largest_file-All :
    (P : TableMeta → Type 0) (best : TableMeta) (ts : List TableMeta)
    → P best
    → All P ts
    → P (largest_file best ts)
unfolding largest_file
largest_file-All P best [] p h = p
largest_file-All P best (t ∷ ts) p h = elim (Bool-cases (smaller_file best t)) [
  | inl e ↦ rw e (largest_file-All P t ts h.0 h.1)
  | inr e ↦ rw e (largest_file-All P best ts p h.1)
]

pub count-largest_file :
    (id : ℕ) (best : TableMeta) (ts : List TableMeta)
    → count id (largest_file best ts ∷ []) ≤ count id (best ∷ ts)
unfolding largest_file
count-largest_file id best [] = omega arith
count-largest_file id best (t ∷ ts) = elim (Bool-cases (smaller_file best t)) [
  | inl e ↦ rw (largest_file, e) (omega (arith, count-largest_file id t ts))
  | inr e ↦ rw (largest_file, e) (omega (arith, count-largest_file id best ts))
]

pub count_one :
    (id : ℕ) (levels : LevelManager) (i : ℕ) (ts : List TableMeta)
    → get_elem? levels i ≡ some ts
    → count id ts ≤ count_all id levels
count_one id [] i ts e = cc
count_one id (us ∷ levels) zero ts e = let same : us ≡ ts = cc in omega (arith, ap (count id) same)
count_one id (us ∷ levels) (suc i) ts e = omega (arith, count_one id levels i ts e)

-- Two neighbouring levels together hold an id no more often than the catalog.
pub count_two :
    (id : ℕ) (levels : LevelManager) (i : ℕ) (ts us : List TableMeta)
    → get_elem? levels i ≡ some ts
    → get_elem? levels (suc i) ≡ some us
    → count id ts + count id us ≤ count_all id levels
count_two id [] i ts us e f = cc
count_two id (vs ∷ levels) zero ts us e f =
    let same : vs ≡ ts = cc in omega (arith, ap (count id) same, count_one id levels 0 us f)
count_two id (vs ∷ levels) (suc i) ts us e f = omega (arith, count_two id levels i ts us e f)
