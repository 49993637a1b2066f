-- ===== src/Entry/Tests.antt =====
-- Entry.antt at concrete bytes: `abc` and `abd`, and a proper prefix.
use kvdb.Base.{◌≡◌, ◌⊎◌, refl, true, false, [], ◌∷◌}
use kvdb.Entry.{ArenaEntry, memcmp, entry_lt, entry_eq, entry_ge}
use kvdb.Entry.Order.{entry_trichotomy}

abbrev abc : ArenaEntry
abc = 97 ∷ 98 ∷ 99 ∷ []

abbrev abd : ArenaEntry
abd = 97 ∷ 98 ∷ 100 ∷ []

prefix_first : (entry_lt (97 ∷ []) abc ≡ true) × (entry_ge (97 ∷ []) abc ≡ false)
unfolding entry_lt entry_ge memcmp
prefix_first = (refl, refl)

entry_trichotomy_example :
    ((entry_lt abc abd ≡ true) × (entry_eq abc abd ≡ false) × (entry_lt abd abc ≡ false))
    ⊎ ((entry_lt abc abd ≡ false)
        × (entry_eq abc abd ≡ true)
        × (entry_lt abd abc ≡ false)
        × (abc ≡ abd))
    ⊎ ((entry_lt abc abd ≡ false) × (entry_eq abc abd ≡ false) × (entry_lt abd abc ≡ true))
entry_trichotomy_example = entry_trichotomy abc abd
