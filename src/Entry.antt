-- ===== src/Entry.antt =====
-- `ArenaEntry` of include/core/allocator/arena.h and src/core/allocator/arena.cpp. An entry is the
-- bytes that its pointer and size denote; an entry of size 0 is the empty list, whatever its
-- pointer. A null pointer with a size above 0 is rejected by the constructor and is no value here.
pub mod Order
mod Tests
use kvdb.Base.{
  ℕ, zero, suc, compare, Ordering, min, Bool, true, false, not, ◌||◌, List, [], ◌∷◌, length, ltb,
  ◌==◌, if◌then◌else◌,
}

abbrev pub ArenaEntry : Type 0
ArenaEntry = List ℕ

-- `std::memcmp(a, b, n)`: the order of the first unequal bytes. The source never passes an n
-- beyond either length; the last clause is that case.
unfoldable pub memcmp : ℕ → List ℕ → List ℕ → Ordering
memcmp zero a b = Ordering.eq
memcmp (suc n) (x ∷ a) (y ∷ b) = elim (compare x y) [
  | Ordering.lt ↦ Ordering.lt
  | Ordering.eq ↦ memcmp n a b
  | Ordering.gt ↦ Ordering.gt
]
memcmp (suc n) _ _ = Ordering.eq

-- `operator<`
unfoldable pub entry_lt : ArenaEntry → ArenaEntry → Bool
entry_lt a b =
    let common = min (length a) (length b) in
    let by_size = ltb (length a) (length b) in
    if ltb 0 common
    then elim (memcmp common a b) [
      | Ordering.lt ↦ true
      | Ordering.eq ↦ by_size
      | Ordering.gt ↦ false
    ]
    else by_size

-- `operator==`
unfoldable pub entry_eq : ArenaEntry → ArenaEntry → Bool
entry_eq a b =
    if not (length a == length b)
    then false
    else (length a == 0) || elim (memcmp (length a) a b) [ Ordering.eq ↦ true | _ ↦ false ]

-- `operator>`, `operator>=` and `operator<=`
unfoldable pub entry_gt : ArenaEntry → ArenaEntry → Bool
entry_gt a b = entry_lt b a

unfoldable pub entry_ge : ArenaEntry → ArenaEntry → Bool
entry_ge a b = not (entry_lt a b)

unfoldable pub entry_le : ArenaEntry → ArenaEntry → Bool
entry_le a b = not (entry_lt b a)
