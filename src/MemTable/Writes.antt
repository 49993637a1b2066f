-- ===== src/MemTable/Writes.antt =====
-- What writes, freezes and retirements do to later reads.
use mathlib.Core.List.{reverse, reverse-append}
use mathlib.Core.Path.{subst}
use kvdb.Base.{
  ℕ, suc, length, ◌<◌, ◌+◌, ◌%◌, ◌^◌, ◌≡◌, refl, sym, ap, ◌∙◌, true, false, Option, none, some,
  List, [], ◌∷◌, ◌++◌, All, All-imp, arith, Bool-cases, inl, inr, if◌then◌else◌, ==_iff,
  Option-cases,
}
use kvdb.Status.{ok_code, Result, ok, fail, ◌>>=◌}
use kvdb.Entry.{ArenaEntry, entry_eq}
use kvdb.Record.{InternalRecord, node_lt}
use kvdb.Record.Order.{node_lt_connected}
use kvdb.Record.Versions.{
  Whenever, insert_version, first_version, first_version-insert_version, newer, LooksUp, outcome,
}
use kvdb.Driver.{Driver}
use kvdb.MemTable.{
  MemTable, ImmutableTable, apply, pick, scan, get, freeze_mutable, retire_oldest_immutable,
  dump_oldest_immutable, oldest_of, retired, pop_generation, immutable_count,
}
use kvdb.MemTable.Reads.{AllRecords, TablesValid, Whenever-first_version, All-reverse, All-both}
use kvdb.MemTable.Invariant.{IsValid, Ascending}

-- A version with a sequence number above all others is no duplicate.
insert_version_fresh :
    (v : InternalRecord) (xs : List InternalRecord)
    → All (λ y. y.seq_num < v.seq_num) xs
    → (ys : List InternalRecord) × (insert_version v xs ≡ some ys)
unfolding insert_version
insert_version_fresh v [] h = (v ∷ [], refl)
insert_version_fresh v (x ∷ xs) h = elim (Bool-cases (node_lt v x)) [
  | inl a ↦ (v ∷ (x ∷ xs), rw a)
  | inr a ↦ elim (Bool-cases (node_lt x v)) [
    | inl b ↦ let (ys, e) = insert_version_fresh v xs h.1 in (x ∷ ys, rw (a, b, e))
    | inr b ↦ absurd (omega (arith, (node_lt_connected v x a b).1))
  ]
]

newer_of_fresh :
    (v : InternalRecord) (o : Option InternalRecord)
    → Whenever (λ y. y.seq_num < v.seq_num) o
    → newer v o ≡ v
newer_of_fresh v none h = refl
newer_of_fresh v (some r) h = ground arith

pick-none : (o : Option InternalRecord) → pick none o ≡ o
unfolding pick
pick-none none = refl
pick-none (some c) = refl

pick_top :
    (v : InternalRecord) (o : Option InternalRecord)
    → Whenever (λ y. y.seq_num < v.seq_num) o
    → pick (some v) o ≡ some v
unfolding pick
pick_top v none h = refl
pick_top v (some c) h = ground arith

abbrev dumped_records : List InternalRecord → Result (List InternalRecord × ℕ) → List InternalRecord
dumped_records xs (ok p) = p.0
dumped_records xs (fail c) = xs

abbrev dumped_id : ℕ → Result (List InternalRecord × ℕ) → ℕ
dumped_id id (ok p) = p.1
dumped_id id (fail c) = id

module _ (d : Driver) where
  -- Freezing changes no read.
  pub get-freeze_mutable :
      (m : MemTable d) (key : ArenaEntry)
      → TablesValid d m
      → (get d (freeze_mutable d m) key).1 ≡ (get d m key).1
  unfolding get freeze_mutable scan first_version
  get-freeze_mutable m key (valid, frozen) = elim (Bool-cases (d.empty m.mutable_table)) [
    | inl e ↦ rw e
    | inr e ↦ rw e (
        ap (scan d key (d.find_mutable d.new_table key).1) (
          reverse-append m.immutable_tables
            (record { generation_id = m.next_generation_id; table = m.mutable_table } ∷ []))
        ∙ ap (λ o. scan d key o (reverse m.immutable_tables))
            (ap (λ o. pick o (d.find_latest_by_key m.mutable_table key)) new_table_empty
              ∙ pick-none (d.find_latest_by_key m.mutable_table key)
              ∙ d.find_law m.mutable_table key valid
              ∙ sym (d.find_mutable_law m.mutable_table key valid)))
  ]
    where
      new_table_empty : (d.find_mutable d.new_table key).1 ≡ none
      new_table_empty =
          d.find_mutable_law d.new_table key d.new_table-IsValid
          ∙ ap (first_version key) d.dump_inorder-new_table

  scan_top :
      (key : ArenaEntry) (v : InternalRecord) (gs : List (ImmutableTable d))
      → All (λ g. d.IsValid g.table × All (λ y. y.seq_num < v.seq_num) (d.dump_inorder g.table)) gs
      → scan d key (some v) gs ≡ some v
  unfolding scan
  scan_top key v [] h = refl
  scan_top key v (g ∷ gs) (first, rest) =
      ap (λ o. scan d key o gs)
        (pick_top v (d.find_latest_by_key g.table key) (
          subst (Whenever (λ y. y.seq_num < v.seq_num)) (sym (d.find_law g.table key first.0)) (
            Whenever-first_version _ key (d.dump_inorder g.table)
              (All-imp (λ y k _. k) (d.dump_inorder g.table) first.1))))
      ∙ scan_top key v gs rest

  -- The driver's part of the next theorem.
  insert_fresh :
      (entry : InternalRecord) (t : d.Table) (key : ArenaEntry)
      → d.IsValid t
      → All (λ y. y.seq_num < entry.seq_num) (d.dump_inorder t)
      → ((d.insert entry t).0 ≡ ok_code)
        × ((d.find_mutable (d.insert entry t).1 key).1
            ≡ (if entry_eq entry.key_entry key then some entry else (d.find_mutable t key).1))
  insert_fresh entry t key valid newest =
      let xs = d.dump_inorder t in
      let (ys, e) = insert_version_fresh entry xs newest in
      let law = d.insert_law entry t valid ∙ ap (outcome xs) e in
      let looks_up : LooksUp key entry xs ys =
        subst (Whenever (LooksUp key entry xs)) e
          (first_version-insert_version key entry xs (d.dump_inorder-IsSorted t valid)) in
      let entry_newer = newer_of_fresh entry (first_version key xs) (
        Whenever-first_version (λ y. y.seq_num < entry.seq_num) key xs
          (All-imp (λ y k _. k) xs newest)) in
      (
        ap (λ p. p.0) law,
        d.find_mutable_law (d.insert entry t).1 key (d.insert-IsValid entry t valid)
            ∙ ap (λ p. first_version key p.1) law
            ∙ looks_up
            ∙ ap (λ v. if entry_eq entry.key_entry key then some v else first_version key xs)
                entry_newer
            ∙ ap (λ o. if entry_eq entry.key_entry key then some entry else o)
                (sym (d.find_mutable_law t key valid)),
      )

  -- A record with the greatest sequence number is accepted; a read of its key then returns it, and
  -- a read of any other key returns what it returned before.
  pub get-apply :
      (entry : InternalRecord) (m : MemTable d) (key : ArenaEntry)
      → TablesValid d m
      → AllRecords d (λ y. y.seq_num < entry.seq_num) m
      → ((apply d entry m).0 ≡ ok_code)
        × ((get d (apply d entry m).1 key).1
            ≡ (if entry_eq entry.key_entry key then some entry else (get d m key).1))
  unfolding get apply
  get-apply entry m key (valid, frozen) (newest, newest_frozen) =
      let (accepted, found) = insert_fresh entry m.mutable_table key valid newest in
      (
        accepted,
        ap (λ o. scan d key o (reverse m.immutable_tables)) found
            ∙ elim (Bool-cases (entry_eq entry.key_entry key)) [
              | inl e ↦ rw e (
                  scan_top key entry (reverse m.immutable_tables) (
                    All-reverse _ m.immutable_tables
                      (All-both _ _ m.immutable_tables frozen newest_frozen)))
              | inr e ↦ rw e
            ],
      )

  front_of_dump :
      (gs : List (ImmutableTable d)) (xs : List InternalRecord) (id : ℕ)
      → ◌>>=◌ {B = List InternalRecord × ℕ}
          (oldest_of d gs)
          (λ g. ok (d.dump_inorder g.table, g.generation_id))
        ≡ ok (xs, id)
      → (g : ImmutableTable d) × (rest : List (ImmutableTable d)) × (gs ≡ g ∷ rest)
        × (d.dump_inorder g.table ≡ xs)
        × (g.generation_id ≡ id)
  front_of_dump [] xs id e = cc
  front_of_dump (g ∷ rest) xs id e = (g, rest, refl, ap (dumped_records xs) e, ap (dumped_id id) e)

  retire_front :
      (m : MemTable d) (g : ImmutableTable d) (rest : List (ImmutableTable d))
      → m.immutable_tables ≡ g ∷ rest
      → retire_oldest_immutable d g.generation_id m ≡ (true, record m { immutable_tables = rest })
  unfolding retire_oldest_immutable
  retire_front m g rest e =
      ap (λ gs. retired d m (pop_generation d gs g.generation_id)) e
      ∙ rw ((==_iff g.generation_id g.generation_id).1 refl) refl

  -- A retirement with the id of the oldest generation, and a freeze: the order does not matter.
  freeze_retire_front :
      (m : MemTable d) (g : ImmutableTable d) (rest : List (ImmutableTable d))
      → m.immutable_tables ≡ g ∷ rest
      → retire_oldest_immutable d g.generation_id (freeze_mutable d m)
        ≡ (true, freeze_mutable d (record m { immutable_tables = rest }))
  unfolding freeze_mutable
  freeze_retire_front m g rest e = elim (Bool-cases (d.empty m.mutable_table)) [
    | inl b ↦ rw b (retire_front m g rest e)
    | inr b ↦
        let frozen : ImmutableTable d = record {
          generation_id = m.next_generation_id;
          table = m.mutable_table;
        } in
        let after : MemTable d = record {
          mutable_table = d.new_table;
          immutable_tables = m.immutable_tables ++ (frozen ∷ []);
          next_generation_id = (m.next_generation_id + 1) % 2 ^ 64;
        } in
        rw b (retire_front after g (rest ++ (frozen ∷ [])) (ap (λ gs. gs ++ (frozen ∷ [])) e))
  ]

  -- The records of the frozen generations, from the oldest.
  abbrev pub frozen_records : List (ImmutableTable d) → List InternalRecord
  frozen_records [] = []
  frozen_records (g ∷ newer) = d.dump_inorder g.table ++ frozen_records newer

  -- The hand-over of a flush. If dump_oldest_immutable gives the records xs and an id, then retiring
  -- the id answers true and takes exactly one generation out of the queue: the frozen records before
  -- it are xs and, after them, those that stay; the active table and the next id stay as they are. If
  -- the active table was frozen between the dump and the retirement, the retirement answers true too
  -- and gives the memtable that the retirement and then the freeze give.
  pub retire_oldest_immutable-dump_oldest_immutable :
      (m : MemTable d) (xs : List InternalRecord) (id : ℕ)
      → dump_oldest_immutable d m ≡ ok (xs, id)
      → let after = (retire_oldest_immutable d id m).1 in
        ((retire_oldest_immutable d id m).0 ≡ true)
        × (immutable_count d m ≡ suc (immutable_count d after))
        × (frozen_records m.immutable_tables ≡ xs ++ frozen_records after.immutable_tables)
        × (after.mutable_table ≡ m.mutable_table)
        × (after.next_generation_id ≡ m.next_generation_id)
        × (retire_oldest_immutable d id (freeze_mutable d m) ≡ (true, freeze_mutable d after))
  unfolding dump_oldest_immutable immutable_count
  retire_oldest_immutable-dump_oldest_immutable m xs id e =
      let (g, rest, front, dumped, same_id) = front_of_dump m.immutable_tables xs id e in
      rw (sym same_id, retire_front m g rest front)
        (
          refl,
          ap (λ gs. length gs) front,
          ap frozen_records front ∙ ap (λ ys. ys ++ frozen_records rest) dumped,
          refl,
          refl,
          freeze_retire_front m g rest front,
        )

  pop_twice :
      (gs rest : List (ImmutableTable d)) (id : ℕ)
      → Ascending d gs
      → pop_generation d gs id ≡ some rest
      → pop_generation d rest id ≡ none
  pop_twice [] rest id h e = cc
  pop_twice (g ∷ []) rest id h e = ground arith
  pop_twice (g ∷ (g' ∷ newer)) rest id h e = ground arith

  -- A generation is retired once: the second attempt with its id is refused and changes nothing.
  pub retire_oldest_immutable_twice :
      (m : MemTable d) (id : ℕ)
      → IsValid d m
      → (retire_oldest_immutable d id m).0 ≡ true
      → retire_oldest_immutable d id (retire_oldest_immutable d id m).1
        ≡ (false, (retire_oldest_immutable d id m).1)
  unfolding retire_oldest_immutable
  retire_oldest_immutable_twice m id h e =
      elim (Option-cases (pop_generation d m.immutable_tables id)) [
        | inl p ↦ cc p
        | inr (rest, p) ↦ rw p (rw (pop_twice m.immutable_tables rest id h.ids_ascending p) refl)
      ]
