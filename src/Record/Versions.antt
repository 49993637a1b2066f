-- ===== src/Record/Versions.antt =====
-- Sorted version lists: what every memtable driver, SSTable and merge holds, with no reference to
-- how it is stored. The laws of a driver are stated with these functions.
use mathlib.Core.Option
use kvdb.Base.{
  ◌≤◌, ◌≡◌, inl, inr, refl, sym, ap, ◌∙◌, true, false, Bool-cases, Option, none, some, List, [],
  ◌∷◌, ◌++◌, All, All-imp, arith, ltb, if◌then◌else◌,
}
use kvdb.Status.{StatusCode, ok_code, duplicate}
use kvdb.Entry.{ArenaEntry, entry_lt, entry_eq}
use kvdb.Entry.Order.{entry_lt_irrefl, eq_of_entry_eq}
use kvdb.Record.{InternalRecord, node_lt}
use kvdb.Record.Order.{
  ◌≺◌, node_lt_trans, node_lt_asym, node_lt_connected, node_lt_congr, seq_lt_of_lt,
}

-- Strictly ordered: keys ascending, versions of a key newest first, no version twice.
abbrev pub IsSorted : List InternalRecord → Type 0
IsSorted [] = Unit
IsSorted (x ∷ xs) = All (λ y. x ≺ y) xs × IsSorted xs

-- The list with one more version; `none` if its key and sequence number are there.
unfoldable pub insert_version : InternalRecord → List InternalRecord → Option (List InternalRecord)
insert_version v [] = some (v ∷ [])
insert_version v (x ∷ xs) =
    let rest = insert_version v xs in
    if node_lt v x
    then some (v ∷ (x ∷ xs))
    else if node_lt x v
    then Option.map (λ ys. x ∷ ys) rest
    else none

-- What an insertion into a sorted list answers.
abbrev pub outcome :
    List InternalRecord → Option (List InternalRecord) → StatusCode × List InternalRecord
outcome xs none = (duplicate, xs)
outcome xs (some ys) = (ok_code, ys)

-- The first version of a key.
unfoldable pub first_version : ArenaEntry → List InternalRecord → Option InternalRecord
first_version key [] = none
first_version key (x ∷ xs) =
    let rest = first_version key xs in if entry_eq x.key_entry key then some x else rest

-- Of two versions of a key, the one with the greater sequence number.
abbrev pub newer : InternalRecord → Option InternalRecord → InternalRecord
newer v none = v
newer v (some r) = if ltb r.seq_num v.seq_num then v else r

abbrev pub or_else : Option InternalRecord → Option InternalRecord → Option InternalRecord
or_else none r = r
or_else (some x) r = some x

pub IsSorted-append_left : (xs ys : List InternalRecord) → IsSorted (xs ++ ys) → IsSorted xs
IsSorted-append_left [] ys h = tt
IsSorted-append_left (x ∷ xs) ys h = (All-left x xs ys h.0, IsSorted-append_left xs ys h.1)
  where
    All-left :
        (x : InternalRecord) (xs ys : List InternalRecord)
        → All (λ y. x ≺ y) (xs ++ ys)
        → All (λ y. x ≺ y) xs
    All-left x [] ys h = tt
    All-left x (z ∷ xs) ys h = (h.0, All-left x xs ys h.1)

pub IsSorted-append_right : (xs ys : List InternalRecord) → IsSorted (xs ++ ys) → IsSorted ys
IsSorted-append_right [] ys h = h
IsSorted-append_right (x ∷ xs) ys h = IsSorted-append_right xs ys h.1

-- In a sorted list what stands left of a record comes before it.
pub All-before :
    (xs : List InternalRecord) (x : InternalRecord) (ys : List InternalRecord)
    → IsSorted (xs ++ (x ∷ ys))
    → All (λ y. y ≺ x) xs
All-before [] x ys h = tt
All-before (z ∷ xs) x ys h = (middle xs h.0, All-before xs x ys h.1)
  where
    middle : (xs : List InternalRecord) → All (λ y. z ≺ y) (xs ++ (x ∷ ys)) → z ≺ x
    middle [] h = h.0
    middle (w ∷ xs) h = middle xs h.1

pub insert_version-append_before :
    (v : InternalRecord) (xs : List InternalRecord) (x : InternalRecord) (ys : List InternalRecord)
    → v ≺ x
    → insert_version v (xs ++ (x ∷ ys)) ≡ Option.map (λ zs. zs ++ (x ∷ ys)) (insert_version v xs)
unfolding insert_version
insert_version-append_before v [] x ys h = rw h
insert_version-append_before v (z ∷ xs) x ys h =
    ground (arith, insert_version-append_before v xs x ys h)

pub insert_version-append_after :
    (v : InternalRecord) (xs ys : List InternalRecord)
    → All (λ y. y ≺ v) xs
    → insert_version v (xs ++ ys) ≡ Option.map (λ zs. xs ++ zs) (insert_version v ys)
unfolding insert_version
insert_version-append_after v [] ys h = ground arith
insert_version-append_after v (x ∷ xs) ys h =
    ground (arith, node_lt_asym x v, insert_version-append_after v xs ys h.1)

-- The version at which an insertion stops with `Duplicate`.
pub insert_version_duplicate :
    (v x : InternalRecord) (xs ys : List InternalRecord)
    → node_lt v x ≡ false
    → node_lt x v ≡ false
    → All (λ y. y ≺ x) xs
    → insert_version v (xs ++ (x ∷ ys)) ≡ none
unfolding insert_version
insert_version_duplicate v x xs ys h k before =
    insert_version-append_after v xs (x ∷ ys) (All-imp (λ y. same_position y) xs before)
    ∙ ground arith
  where
    same_position : (y : InternalRecord) → y ≺ x → y ≺ v
    same_position y b = let (e, f) = node_lt_connected v x h k in node_lt_congr y x v e f b

-- `P` of what an option holds, if it holds anything.
abbrev pub Whenever {ℓ} : {A : Type ℓ} → (A → Type 0) → Option A → Type 0
Whenever P none = Unit
Whenever P (some a) = P a

Whenever-map {ℓ} :
    {A : Type ℓ} (P Q R : A → Type 0) (f : A → A) (o : Option A)
    → ((a : A) → P a → Q a → R (f a))
    → Whenever P o
    → Whenever Q o
    → Whenever R (Option.map f o)
Whenever-map P Q R f none g h k = tt
Whenever-map P Q R f (some a) g h k = g a h k

pub insert_version-All :
    (P : InternalRecord → Type 0) (v : InternalRecord) (xs : List InternalRecord)
    → P v
    → All P xs
    → Whenever (All P) (insert_version v xs)
unfolding insert_version
insert_version-All P v [] p h = (p, tt)
insert_version-All P v (x ∷ xs) p h =
    let rest = insert_version-All P v xs p h.1 in
    elim (Bool-cases (node_lt v x)) [
      | inl a ↦ rw a (p, h)
      | inr a ↦ elim (Bool-cases (node_lt x v)) [
        | inl b ↦
            rw (a, b)
              (Whenever-map (All P) (All P) (All P) (λ ys. x ∷ ys) _ (λ ys k _. (h.0, k)) rest rest)
        | inr b ↦ rw (a, b) tt
      ]
    ]

-- An insertion keeps the list sorted.
pub insert_version-IsSorted :
    (v : InternalRecord) (xs : List InternalRecord)
    → IsSorted xs
    → Whenever IsSorted (insert_version v xs)
unfolding insert_version
insert_version-IsSorted v [] h = (tt, tt)
insert_version-IsSorted v (x ∷ xs) h = elim (Bool-cases (node_lt v x)) [
  | inl a ↦ rw a ((a, All-imp (λ y. node_lt_trans v x y a) xs h.0), h)
  | inr a ↦ elim (Bool-cases (node_lt x v)) [
    | inl b ↦
        rw (a, b)
          (Whenever-map (All (λ y. x ≺ y)) IsSorted IsSorted (λ ys. x ∷ ys) _ (λ ys k m. (k, m))
            (insert_version-All (λ y. x ≺ y) v xs b h.0) (insert_version-IsSorted v xs h.1))
    | inr b ↦ rw (a, b) tt
  ]
]

-- A key that every record's key passes has no version.
pub first_version_above :
    (key : ArenaEntry) (xs : List InternalRecord)
    → All (λ y. entry_lt key y.key_entry ≡ true) xs
    → first_version key xs ≡ none
unfolding first_version
first_version_above key [] h = refl
first_version_above key (x ∷ xs) h =
    ground
      (arith, first_version_above key xs h.1, eq_of_entry_eq x.key_entry key, entry_lt_irrefl key)

-- Nor has one that passes every record's key.
pub first_version_below :
    (key : ArenaEntry) (xs : List InternalRecord)
    → All (λ y. entry_lt y.key_entry key ≡ true) xs
    → first_version key xs ≡ none
unfolding first_version
first_version_below key [] h = refl
first_version_below key (x ∷ xs) h =
    ground
      (arith, first_version_below key xs h.1, eq_of_entry_eq x.key_entry key, entry_lt_irrefl key)

pub first_version-append :
    (key : ArenaEntry) (xs ys : List InternalRecord)
    → first_version key (xs ++ ys) ≡ or_else (first_version key xs) (first_version key ys)
unfolding first_version
first_version-append key [] ys = refl
first_version-append key (x ∷ xs) ys = ground (arith, first_version-append key xs ys)

pub first_version_key :
    (key : ArenaEntry) (xs : List InternalRecord) (r : InternalRecord)
    → first_version key xs ≡ some r
    → entry_eq r.key_entry key ≡ true
unfolding first_version
first_version_key key [] r e = cc
first_version_key key (x ∷ xs) r e = ground (arith, first_version_key key xs r)

-- The first version of a key in a sorted list is its newest.
pub first_version_newest :
    (key : ArenaEntry) (xs : List InternalRecord) (r : InternalRecord)
    → IsSorted xs
    → first_version key xs ≡ some r
    → All (λ y. entry_eq y.key_entry key ≡ true → y.seq_num ≤ r.seq_num) xs
unfolding first_version
first_version_newest key [] r h e = tt
first_version_newest key (x ∷ xs) r h e = elim (Bool-cases (entry_eq x.key_entry key)) [
  | inl m ↦
      let x_is_r : x ≡ r = ground arith in
      (
        λ _. rw (← x_is_r) (omega arith),
        All-imp
            (λ y b k. omega (
              arith,
              seq_lt_of_lt x y b (eq_of_entry_eq _ _ m ∙ sym (eq_of_entry_eq _ _ k)),
              ap InternalRecord.seq_num x_is_r,
            ))
            xs h.0,
      )
  | inr n ↦ (λ m. absurd (ground arith), first_version_newest key xs r h.1 (rw n at e))
]

-- Where a key has no first version, no record has the key.
pub first_version_absent :
    (key : ArenaEntry) (xs : List InternalRecord)
    → first_version key xs ≡ none
    → All (λ y. entry_eq y.key_entry key ≡ false) xs
unfolding first_version
first_version_absent key [] e = tt
first_version_absent key (x ∷ xs) e = elim (Bool-cases (entry_eq x.key_entry key)) [
  | inl m ↦ absurd (ground arith)
  | inr n ↦ (n, first_version_absent key xs (rw n at e))
]

newer_of_before :
    (key : ArenaEntry) (v : InternalRecord) (xs : List InternalRecord)
    → entry_eq v.key_entry key ≡ true
    → All (λ y. v ≺ y) xs
    → newer v (first_version key xs) ≡ v
unfolding first_version
newer_of_before key v [] m h = refl
newer_of_before key v (x ∷ xs) m h = ground (
  arith,
  newer_of_before key v xs m h.1,
  eq_of_entry_eq v.key_entry key m,
  eq_of_entry_eq x.key_entry key,
  seq_lt_of_lt v x h.0,
)

-- A lookup after an insertion: the newer of the two for its key, unchanged for another.
abbrev pub LooksUp :
    ArenaEntry → InternalRecord → List InternalRecord → List InternalRecord → Type 0
LooksUp key v xs ys = first_version key ys ≡ (
    if entry_eq v.key_entry key
    then some (newer v (first_version key xs))
    else first_version key xs)

pub first_version-insert_version :
    (key : ArenaEntry) (v : InternalRecord) (xs : List InternalRecord)
    → IsSorted xs
    → Whenever (LooksUp key v xs) (insert_version v xs)
unfolding insert_version first_version
first_version-insert_version key v [] h = ground arith
first_version-insert_version key v (x ∷ xs) h = elim (Bool-cases (node_lt v x)) [
  | inl a ↦
      let after : All (λ y. v ≺ y) (x ∷ xs) = (a, All-imp (λ y. node_lt_trans v x y a) xs h.0) in
      rw a (
        ground
          (arith, λ (m : entry_eq v.key_entry key ≡ true). newer_of_before key v (x ∷ xs) m after))
  | inr a ↦ elim (Bool-cases (node_lt x v)) [
    | inl b ↦
        rw (a, b)
          (Whenever-map (LooksUp key v xs) (LooksUp key v xs) (LooksUp key v (x ∷ xs))
            (λ ys. x ∷ ys) _
            (λ ys k _. ground (
              arith,
              eq_of_entry_eq x.key_entry key,
              eq_of_entry_eq v.key_entry key,
              seq_lt_of_lt x v b,
            ))
            (first_version-insert_version key v xs h.1) (first_version-insert_version key v xs h.1))
    | inr b ↦ rw (a, b) tt
  ]
]

outcome_lookup :
    (key : ArenaEntry) (v : InternalRecord) (xs : List InternalRecord)
    (expected : Option (List InternalRecord))
    → Whenever (LooksUp key v xs) expected
    → ((outcome xs expected).0 ≡ ok_code → LooksUp key v xs (outcome xs expected).1)
      × ((outcome xs expected).0 ≡ duplicate → (outcome xs expected).1 ≡ xs)
outcome_lookup key v xs none h = (λ e. cc, λ e. refl)
outcome_lookup key v xs (some ys) h = (λ e. h, λ e. cc)

-- What an answer that refines `insert_version` means for lookups.
pub lookup_of_outcome :
    (key : ArenaEntry) (v : InternalRecord) (xs : List InternalRecord)
    (answer : StatusCode × List InternalRecord)
    → IsSorted xs
    → answer ≡ outcome xs (insert_version v xs)
    → (answer.0 ≡ ok_code → LooksUp key v xs answer.1) × (answer.0 ≡ duplicate → answer.1 ≡ xs)
lookup_of_outcome key v xs answer h e =
    rw e (outcome_lookup key v xs (insert_version v xs) (first_version-insert_version key v xs h))
