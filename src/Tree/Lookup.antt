-- ===== src/Tree/Lookup.antt =====
-- The lookup returns the first version of its key in the order of the tree.
use kvdb.Base.{
  ◌≡◌, refl, sym, ap, ◌∙◌, Bool, true, false, Option, none, some, List, [], ◌∷◌, ◌++◌, append_assoc,
  Bool-cases, inl, inr, All, All-imp, All-append, if◌then◌else◌,
}
use kvdb.Entry.{ArenaEntry, entry_lt, entry_eq}
use kvdb.Entry.Order.{entry_le_lt_trans, entry_lt_le_trans, entry_lt_connected, entry_eq_refl}
use kvdb.Record.{InternalRecord}
use kvdb.Record.Order.{key_le_of_lt}
use kvdb.Record.Versions.{
  IsSorted, first_version, or_else, IsSorted-append_left, IsSorted-append_right, All-before,
  first_version_above, first_version_below, first_version-append,
}
use kvdb.Tree.{Tree, nil, node, inorder, find_loop, find_latest_by_key}

-- A key that is neither passed nor equal lies above.
strictly_below :
    (a key : ArenaEntry) → entry_lt a key ≡ false → entry_eq a key ≡ false → entry_lt key a ≡ true
strictly_below a key h n = elim (Bool-cases (entry_lt key a)) [
  | inl above ↦ above
  | inr k ↦ cc (entry_lt_connected a key h k, entry_eq_refl key)
]

or_else-none : (o : Option InternalRecord) → or_else o none ≡ o
or_else-none none = refl
or_else-none (some x) = refl

or_else_test :
    (o result : Option InternalRecord) (x : InternalRecord) (b : Bool)
    → or_else o (if b then some x else result)
      ≡ or_else (or_else o (if b then some x else none)) result
or_else_test none result x true = refl
or_else_test none result x false = refl
or_else_test (some y) result x b = refl

module _ (key : ArenaEntry) (xs : List InternalRecord) (x : InternalRecord)
    (ys : List InternalRecord) (h : IsSorted (xs ++ (x ∷ ys))) where
  -- The search goes right: nothing on the left has the key.
  first_version_right :
      entry_lt x.key_entry key ≡ true → first_version key (xs ++ (x ∷ ys)) ≡ first_version key ys
  first_version_right a =
      ap (first_version key) (sym (append_assoc xs (x ∷ []) ys))
      ∙ first_version-append key (xs ++ (x ∷ [])) ys
      ∙ ap (λ o. or_else o (first_version key ys)) (first_version_below key (xs ++ (x ∷ [])) below)
    where
      below : All (λ y. entry_lt y.key_entry key ≡ true) (xs ++ (x ∷ []))
      below =
          All-append (λ y. entry_lt y.key_entry key ≡ true) xs (x ∷ [])
            (All-imp (λ y b. entry_le_lt_trans y.key_entry x.key_entry key (key_le_of_lt y x b) a)
              xs (All-before xs x ys h))
            (a, tt)

  -- The search goes left: of the rest only `x` can have the key.
  first_version_left :
      entry_lt x.key_entry key ≡ false
      → first_version key (xs ++ (x ∷ ys))
        ≡ or_else (first_version key xs) (if entry_eq x.key_entry key then some x else none)
  first_version_left a =
      first_version-append key xs (x ∷ ys) ∙ ap (or_else (first_version key xs)) from_x
    where
      from_x : first_version key (x ∷ ys) ≡ (if entry_eq x.key_entry key then some x else none)
      from_x = elim (Bool-cases (entry_eq x.key_entry key)) [
        | inl m ↦ unfold first_version in rw m
        | inr n ↦
            let above = strictly_below x.key_entry key a n in
            unfold first_version in
            rw n (
              first_version_above key ys (
                All-imp
                  (λ y b. entry_lt_le_trans key x.key_entry y.key_entry above (key_le_of_lt x y b))
                  ys (IsSorted-append_right xs (x ∷ ys) h).0))
      ]

module _ {E : Type 0} where
  find_loop-first_version :
      (key : ArenaEntry) (t : Tree E) (result : Option InternalRecord)
      → IsSorted (inorder t)
      → find_loop key t result ≡ or_else (first_version key (inorder t)) result
  unfolding find_loop
  find_loop-first_version key nil result h = unfold first_version in refl
  find_loop-first_version key (node e x l r) result h =
      let left_sorted = IsSorted-append_left (inorder l) (x ∷ inorder r) h in
      let right_sorted = (IsSorted-append_right (inorder l) (x ∷ inorder r) h).1 in
      elim (Bool-cases (entry_lt x.key_entry key)) [
        | inl a ↦
            rw (a, first_version_right key (inorder l) x (inorder r) h a)
              (find_loop-first_version key r result right_sorted)
        | inr a ↦
            rw (a, first_version_left key (inorder l) x (inorder r) h a)
              (find_loop-first_version key l (if entry_eq x.key_entry key then some x else result)
                  left_sorted
                ∙ or_else_test (first_version key (inorder l)) result x (entry_eq x.key_entry key))
      ]

  -- On a sorted tree the lookup is the first version of the key, in the order of the tree.
  pub find_latest_by_key-first_version :
      (t : Tree E) (key : ArenaEntry)
      → IsSorted (inorder t)
      → find_latest_by_key t key ≡ first_version key (inorder t)
  unfolding find_latest_by_key
  find_latest_by_key-first_version t key h =
      find_loop-first_version key t none h ∙ or_else-none (first_version key (inorder t))
