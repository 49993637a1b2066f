-- ===== src/MemTable/Reads.antt =====
-- What a read of the memtable returns: the newest version of its key over all generations.
use mathlib.Core.List.{reverse, reverse_aux, reverse-reverse}
use mathlib.Core.Path.{subst}
use kvdb.Base.{
  ◌≤◌, ◌≡◌, sym, true, false, Option, none, some, List, [], ◌∷◌, All, All-imp, arith, Bool-cases,
  Option-cases, inl, inr, ltb, ltb→lt,
}
use kvdb.Entry.{ArenaEntry, entry_eq}
use kvdb.Record.{InternalRecord}
use kvdb.Record.Versions.{
  IsSorted, Whenever, first_version, first_version_newest, first_version_absent,
}
use kvdb.Driver.{Driver}
use kvdb.MemTable.{MemTable, ImmutableTable, pick, scan, get}

-- `P` of the first version of a key, if there is one, from `P` of all records with the key.
pub Whenever-first_version :
    (P : InternalRecord → Type 0) (key : ArenaEntry) (xs : List InternalRecord)
    → All (λ y. entry_eq y.key_entry key ≡ true → P y) xs
    → Whenever P (first_version key xs)
unfolding first_version
Whenever-first_version P key [] h = tt
Whenever-first_version P key (x ∷ xs) h = elim (Bool-cases (entry_eq x.key_entry key)) [
  | inl m ↦ rw m (h.0 m)
  | inr n ↦ rw n (Whenever-first_version P key xs h.1)
]

pick-Whenever :
    (P : InternalRecord → Type 0) (a b : Option InternalRecord)
    → Whenever P a
    → Whenever P b
    → Whenever P (pick a b)
unfolding pick
pick-Whenever P none none h k = h
pick-Whenever P (some l) none h k = h
pick-Whenever P none (some c) h k = k
pick-Whenever P (some l) (some c) h k = elim (Bool-cases (ltb l.seq_num c.seq_num)) [
  | inl b ↦ rw b k
  | inr b ↦ rw b h
]

pub All-both {ℓ} :
    {A : Type ℓ} (P Q : A → Type 0) (xs : List A) → All P xs → All Q xs → All (λ x. P x × Q x) xs
All-both P Q [] h k = tt
All-both P Q (x ∷ xs) h k = ((h.0, k.0), All-both P Q xs h.1 k.1)

All-reverse_aux {ℓ} :
    {A : Type ℓ} (P : A → Type 0) (xs acc : List A)
    → All P xs
    → All P acc
    → All P (reverse_aux xs acc)
All-reverse_aux P [] acc h k = k
All-reverse_aux P (x ∷ xs) acc h k = All-reverse_aux P xs (x ∷ acc) h.1 (h.0, k)

pub All-reverse {ℓ} : {A : Type ℓ} (P : A → Type 0) (xs : List A) → All P xs → All P (reverse xs)
All-reverse P xs h = All-reverse_aux P xs [] h tt

pub All-of-reverse {ℓ} : {A : Type ℓ} (P : A → Type 0) (xs : List A) → All P (reverse xs) → All P xs
All-of-reverse P xs h = subst (All P) (reverse-reverse xs) (All-reverse P (reverse xs) h)

-- A version of the key is no newer than `r`; where no `r` is given, the record has another key.
abbrev pub NoNewer : ArenaEntry → Option InternalRecord → InternalRecord → Type 0
NoNewer key none y = entry_eq y.key_entry key ≡ false
NoNewer key (some r) y = entry_eq y.key_entry key ≡ true → y.seq_num ≤ r.seq_num

first_version-NoNewer :
    (key : ArenaEntry) (xs : List InternalRecord)
    → IsSorted xs
    → All (NoNewer key (first_version key xs)) xs
first_version-NoNewer key xs h = elim (Option-cases (first_version key xs)) [
  | inl e ↦ rw e (first_version_absent key xs e)
  | inr (r, e) ↦ rw e (first_version_newest key xs r h e)
]

pick_left :
    (key : ArenaEntry) (a b : Option InternalRecord) (y : InternalRecord)
    → NoNewer key a y
    → NoNewer key (pick a b) y
unfolding pick
pick_left key none none y h = h
pick_left key (some l) none y h = h
pick_left key none (some c) y h = λ m. cc
pick_left key (some l) (some c) y h = elim (Bool-cases (ltb l.seq_num c.seq_num)) [
  | inl b ↦ rw b (λ m. omega (arith, h m, ltb→lt l.seq_num c.seq_num b))
  | inr b ↦ rw b h
]

pick_right :
    (key : ArenaEntry) (a b : Option InternalRecord) (y : InternalRecord)
    → NoNewer key b y
    → NoNewer key (pick a b) y
unfolding pick
pick_right key none none y h = h
pick_right key (some l) none y h = λ m. cc
pick_right key none (some c) y h = h
pick_right key (some l) (some c) y h = elim (Bool-cases (ltb l.seq_num c.seq_num)) [
  | inl b ↦ rw b h
  | inr b ↦ rw b (λ m. let k = h m in ground arith)
]

module _ (d : Driver) where
  -- `P` of every record of every generation.
  abbrev pub AllRecords : (InternalRecord → Type 0) → MemTable d → Type 0
  AllRecords P m =
      All P (d.dump_inorder m.mutable_table)
      × All (λ g. All P (d.dump_inorder g.table)) m.immutable_tables

  -- Every table of the memtable is one that its driver keeps valid.
  abbrev pub TablesValid : MemTable d → Type 0
  TablesValid m = d.IsValid m.mutable_table × All (λ g. d.IsValid g.table) m.immutable_tables

  scan_keeps :
      (key : ArenaEntry) (latest : Option InternalRecord) (gs : List (ImmutableTable d))
      (y : InternalRecord)
      → NoNewer key latest y
      → NoNewer key (scan d key latest gs) y
  unfolding scan
  scan_keeps key latest [] y h = h
  scan_keeps key latest (g ∷ gs) y h =
      scan_keeps key (pick latest (d.find_latest_by_key g.table key)) gs y
        (pick_left key latest (d.find_latest_by_key g.table key) y h)

  scan_covers :
      (key : ArenaEntry) (latest : Option InternalRecord) (gs : List (ImmutableTable d))
      → All (λ g. d.IsValid g.table) gs
      → All (λ g. All (NoNewer key (scan d key latest gs)) (d.dump_inorder g.table)) gs
  unfolding scan
  scan_covers key latest [] h = tt
  scan_covers key latest (g ∷ gs) h = (
    All-imp
        (λ y k. scan_keeps key _ gs y (
          pick_right key latest (d.find_latest_by_key g.table key) y
            (subst (λ o. NoNewer key o y) (sym (d.find_law g.table key h.0)) k)))
        (d.dump_inorder g.table)
        (first_version-NoNewer key (d.dump_inorder g.table) (d.dump_inorder-IsSorted g.table h.0)),
    scan_covers key (pick latest (d.find_latest_by_key g.table key)) gs h.1,
  )

  -- A read returns the newest version of its key over all generations: no record anywhere in the
  -- memtable has the key and a greater sequence number, and if nothing is returned, none has it.
  pub get_newest :
      (m : MemTable d) (key : ArenaEntry)
      → TablesValid m
      → AllRecords (NoNewer key (get d m key).1) m
  unfolding get
  get_newest m key (valid, frozen) =
      let latest = (d.find_mutable m.mutable_table key).1 in
      let newest_first = reverse m.immutable_tables in
      (
        All-imp
            (λ y k.
              scan_keeps key latest newest_first y (
                subst (λ o. NoNewer key o y) (sym (d.find_mutable_law m.mutable_table key valid))
                  k))
            (d.dump_inorder m.mutable_table)
            (first_version-NoNewer key (d.dump_inorder m.mutable_table)
              (d.dump_inorder-IsSorted m.mutable_table valid)),
        All-of-reverse _ m.immutable_tables
            (scan_covers key latest newest_first (All-reverse _ m.immutable_tables frozen)),
      )

  scan-Whenever :
      (P : InternalRecord → Type 0) (key : ArenaEntry) (latest : Option InternalRecord)
      (gs : List (ImmutableTable d))
      → Whenever P latest
      → All
          (λ g.
            d.IsValid g.table
            × All (λ y. entry_eq y.key_entry key ≡ true → P y) (d.dump_inorder g.table))
          gs
      → Whenever P (scan d key latest gs)
  unfolding scan
  scan-Whenever P key latest [] h k = h
  scan-Whenever P key latest (g ∷ gs) h (first, rest) =
      scan-Whenever P key (pick latest (d.find_latest_by_key g.table key)) gs
        (pick-Whenever P latest (d.find_latest_by_key g.table key) h (
          subst (Whenever P) (sym (d.find_law g.table key first.0))
            (Whenever-first_version P key (d.dump_inorder g.table) first.1)))
        rest

  -- What a read returns has the key and is stored in some generation: it has every property that
  -- the stored records with the key have.
  pub get_stored :
      (m : MemTable d) (key : ArenaEntry) (P : InternalRecord → Type 0)
      → TablesValid m
      → AllRecords (λ y. entry_eq y.key_entry key ≡ true → P y) m
      → Whenever P (get d m key).1
  unfolding get
  get_stored m key P (valid, frozen) (h, k) =
      scan-Whenever P key (d.find_mutable m.mutable_table key).1 (reverse m.immutable_tables)
        (subst (Whenever P) (sym (d.find_mutable_law m.mutable_table key valid))
          (Whenever-first_version P key (d.dump_inorder m.mutable_table) h))
        (All-reverse _ m.immutable_tables (All-both _ _ m.immutable_tables frozen k))
