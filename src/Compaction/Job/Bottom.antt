-- ===== src/Compaction/Job/Bottom.antt =====
-- When the destination of a job of src/core/compaction/compaction_job.cpp is the lowest level with data.
use kvdb.Base.{
  ℕ, zero, suc, ◌+◌, ◌-◌, ◌^◌, ◌<◌, ◌≡◌, inl, inr, refl, sym, ap, false, Bool-cases, Option-cases,
  ◌==◌, List, [], ◌∷◌, length, drop, all, get_elem?, none, some, arith,
}
use kvdb.LevelManager.{LevelManager, get_lx_tables, is_nil}
use kvdb.Compaction.Job.{empty_from, is_bottommost_destination}

drop-get_none : {A : Type 0} (xs : List A) (i : ℕ) → get_elem? xs i ≡ none → drop i xs ≡ []
drop-get_none [] zero e = refl
drop-get_none [] (suc i) e = refl
drop-get_none (x ∷ xs) zero e = absurd (ground arith)
drop-get_none (x ∷ xs) (suc i) e = drop-get_none xs i e

drop-get_some :
    {A : Type 0} (xs : List A) (i : ℕ) (x : A)
    → get_elem? xs i ≡ some x
    → (drop i xs ≡ x ∷ drop (suc i) xs) × (i < length xs)
drop-get_some [] i x e = absurd (ground arith)
drop-get_some (y ∷ xs) zero x e =
    let same : y ≡ x = ground arith in (ap (λ z. z ∷ xs) same, omega arith)
drop-get_some (y ∷ xs) (suc i) x e = let (h, k) = drop-get_some xs i x e in (h, omega arith)

empty_from-all :
    (fuel : ℕ) (manager : LevelManager) (level : ℕ)
    → length manager < fuel + level
    → length manager < 2 ^ 32
    → empty_from fuel manager level ≡ all is_nil (drop level manager)
unfolding empty_from get_lx_tables
empty_from-all zero manager level h k = elim (Option-cases (get_elem? manager level)) [
  | inl e ↦ ap (all is_nil) (sym (drop-get_none manager level e))
  | inr (ts, e) ↦ let (_, i) = drop-get_some manager level ts e in absurd (omega arith)
]
empty_from-all (suc fuel) manager level h k = elim (Option-cases (get_elem? manager level)) [
  | inl e ↦ rw (empty_from, e, drop-get_none manager level e) refl
  | inr (ts, e) ↦
      let (d, i) = drop-get_some manager level ts e in
      let inside : (level == 2 ^ 32 - 1) ≡ false = ground arith in
      rw (empty_from, e, d, inside, empty_from-all fuel manager (suc level) (omega arith) k)
        (ground arith)
]

-- A destination is bottommost exactly if all levels below it are empty, in a catalog with a 32-bit
-- number of levels.
pub is_bottommost_destination-all :
    (manager : LevelManager) (target_level : ℕ)
    → length manager < 2 ^ 32
    → target_level < 2 ^ 32
    → is_bottommost_destination manager target_level ≡ all is_nil (drop (target_level + 1) manager)
unfolding is_bottommost_destination
is_bottommost_destination-all manager target_level h k =
    elim (Bool-cases (target_level == 2 ^ 32 - 1)) [
      | inl e ↦ elim (Option-cases (get_elem? manager (target_level + 1))) [
        | inl f ↦ rw (is_bottommost_destination, e, drop-get_none manager (target_level + 1) f) refl
        | inr (ts, f) ↦
            let (_, i) = drop-get_some manager (target_level + 1) ts f in absurd (ground arith)
      ]
      | inr e ↦
          rw (is_bottommost_destination, e)
            (empty_from-all (suc (length manager)) manager (target_level + 1) (omega arith) h)
    ]
