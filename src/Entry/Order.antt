-- ===== src/Entry/Order.antt =====
-- `operator<` and `operator==` of `ArenaEntry` against the lexicographic order of byte sequences.
use kvdb.Base.{
  compare, Ordering, ◌≡◌, ◌⊎◌, inl, inr, refl, Bool-cases, ap, Bool, true, false, [], ◌∷◌, length,
  arith,
}
use kvdb.Entry.{ArenaEntry, memcmp, entry_lt, entry_eq}

-- The lexicographic order: a proper prefix comes first.
abbrev pub lex : ArenaEntry → ArenaEntry → Bool
lex [] [] = false
lex [] (y ∷ b) = true
lex (x ∷ a) [] = false
lex (x ∷ a) (y ∷ b) = elim (compare x y) [
  | Ordering.lt ↦ true
  | Ordering.eq ↦ lex a b
  | Ordering.gt ↦ false
]

pub entry_lt-lex : (a b : ArenaEntry) → entry_lt a b ≡ lex a b
unfolding entry_lt memcmp
entry_lt-lex [] [] = ground arith
entry_lt-lex [] (y ∷ b) = ground arith
entry_lt-lex (x ∷ a) [] = ground arith
entry_lt-lex (x ∷ a) (y ∷ b) = ground (arith, entry_lt-lex a b)

lex_irrefl : (a : ArenaEntry) → lex a a ≡ false
lex_irrefl [] = refl
lex_irrefl (x ∷ a) = ground (arith, lex_irrefl a)

lex_trans : (a b c : ArenaEntry) → lex a b ≡ true → lex b c ≡ true → lex a c ≡ true
lex_trans [] [] c h k = k
lex_trans (x ∷ a) [] c h k = cc
lex_trans [] (y ∷ b) [] h k = cc
lex_trans [] (y ∷ b) (z ∷ c) h k = refl
lex_trans (x ∷ a) (y ∷ b) [] h k = cc
lex_trans (x ∷ a) (y ∷ b) (z ∷ c) h k = ground (arith, lex_trans a b c)

lex_connected : (a b : ArenaEntry) → lex a b ≡ false → lex b a ≡ false → a ≡ b
lex_connected [] [] h k = refl
lex_connected [] (y ∷ b) h k = cc
lex_connected (x ∷ a) [] h k = cc
lex_connected (x ∷ a) (y ∷ b) h k = ground (arith, lex_connected a b)

pub entry_lt_irrefl : (a : ArenaEntry) → entry_lt a a ≡ false
entry_lt_irrefl a = rw entry_lt-lex (lex_irrefl a)

pub entry_lt_trans :
    (a b c : ArenaEntry) → entry_lt a b ≡ true → entry_lt b c ≡ true → entry_lt a c ≡ true
entry_lt_trans a b c h k =
    rw entry_lt-lex (lex_trans a b c (rw entry_lt-lex at h) (rw entry_lt-lex at k))

pub entry_lt_connected : (a b : ArenaEntry) → entry_lt a b ≡ false → entry_lt b a ≡ false → a ≡ b
entry_lt_connected a b h k = lex_connected a b (rw entry_lt-lex at h) (rw entry_lt-lex at k)

same : (a b : ArenaEntry) → length a ≡ length b → memcmp (length a) a b ≡ Ordering.eq → a ≡ b
unfolding memcmp
same [] [] h k = refl
same [] (y ∷ b) h k = absurd (omega arith)
same (x ∷ a) [] h k = absurd (omega arith)
same (x ∷ a) (y ∷ b) h k = ground (arith, same a b)

memcmp_refl : (a : ArenaEntry) → memcmp (length a) a a ≡ Ordering.eq
unfolding memcmp
memcmp_refl [] = refl
memcmp_refl (x ∷ a) = ground (arith, memcmp_refl a)

pub eq_of_entry_eq : (a b : ArenaEntry) → entry_eq a b ≡ true → a ≡ b
unfolding entry_eq
eq_of_entry_eq [] [] h = refl
eq_of_entry_eq [] (y ∷ b) h = ground arith
eq_of_entry_eq (x ∷ a) [] h = ground arith
eq_of_entry_eq (x ∷ a) (y ∷ b) h = ground (arith, same (x ∷ a) (y ∷ b))

pub entry_eq_refl : (a : ArenaEntry) → entry_eq a a ≡ true
unfolding entry_eq
entry_eq_refl a = ground (arith, memcmp_refl a)

pub entry_lt_asym : (a b : ArenaEntry) → entry_lt a b ≡ true → entry_lt b a ≡ false
entry_lt_asym a b h = elim (Bool-cases (entry_lt b a)) [
  | inl k ↦ cc (entry_lt_trans a b a h k, entry_lt_irrefl a)
  | inr k ↦ k
]

ne_of_lt : (a b : ArenaEntry) → entry_lt a b ≡ true → entry_eq a b ≡ false
ne_of_lt a b h = elim (Bool-cases (entry_eq a b)) [
  | inl k ↦ cc (ap (entry_lt a) (eq_of_entry_eq a b k), entry_lt_irrefl a)
  | inr k ↦ k
]

entry_eq_comm_false : (a b : ArenaEntry) → entry_eq a b ≡ false → entry_eq b a ≡ false
entry_eq_comm_false a b h = elim (Bool-cases (entry_eq b a)) [
  | inl k ↦ cc (eq_of_entry_eq b a k, entry_eq_refl a)
  | inr k ↦ k
]

-- The two comparisons of byte ranges fit together: of `a < b`, `a == b` and `b < a` exactly one
-- holds, and `a == b` means the same bytes.
pub entry_trichotomy :
    (a b : ArenaEntry)
    → ((entry_lt a b ≡ true) × (entry_eq a b ≡ false) × (entry_lt b a ≡ false))
      ⊎ ((entry_lt a b ≡ false) × (entry_eq a b ≡ true) × (entry_lt b a ≡ false) × (a ≡ b))
      ⊎ ((entry_lt a b ≡ false) × (entry_eq a b ≡ false) × (entry_lt b a ≡ true))
entry_trichotomy a b = elim (Bool-cases (entry_lt a b)) [
  | inl below ↦ inl (below, ne_of_lt a b below, entry_lt_asym a b below)
  | inr h ↦ inr (elim (Bool-cases (entry_lt b a)) [
    | inl above ↦ inr (h, entry_eq_comm_false b a (ne_of_lt b a above), above)
    | inr k ↦
        let same_bytes = entry_lt_connected a b h k in
        inl (h, rw same_bytes (entry_eq_refl b), k, same_bytes)
  ])
]

pub entry_le_lt_trans :
    (a b c : ArenaEntry) → entry_lt b a ≡ false → entry_lt b c ≡ true → entry_lt a c ≡ true
entry_le_lt_trans a b c h k = elim (Bool-cases (entry_lt a b)) [
  | inl below ↦ entry_lt_trans a b c below k
  | inr n ↦ rw (entry_lt_connected a b n h) k
]

pub entry_lt_le_trans :
    (a b c : ArenaEntry) → entry_lt a b ≡ true → entry_lt c b ≡ false → entry_lt a c ≡ true
entry_lt_le_trans a b c h k = elim (Bool-cases (entry_lt b c)) [
  | inl below ↦ entry_lt_trans a b c h below
  | inr n ↦ rw (← entry_lt_connected b c n k) h
]
