-- ===== src/MemTable/Invariant.antt =====
-- The invariant of the memtable, and that every operation keeps it: the driver's tables are valid,
-- no frozen generation is empty, and generation ids grow along the queue and stay below the next.
use kvdb.Base.{
  ℕ, ◌+◌, ◌^◌, ◌<◌, ◌≡◌, false, Option, none, some, List, [], ◌∷◌, ◌++◌, All, All-append, All-imp,
  arith, Bool-cases, inl, inr, ◌==◌,
}
use kvdb.Entry.{ArenaEntry}
use kvdb.Record.{InternalRecord}
use kvdb.Driver.{Driver}
use kvdb.MemTable.{
  MemTable, ImmutableTable, new_mem_table, apply, get, freeze_mutable, retire_oldest_immutable,
  retired, pop_generation,
}
use kvdb.Record.Versions.{Whenever}

module _ (d : Driver) where
  -- Generation ids grow along the queue.
  abbrev pub Ascending : List (ImmutableTable d) → Type 0
  Ascending [] = Unit
  Ascending (g ∷ newer) = All (λ x. g.generation_id < x.generation_id) newer × Ascending newer

  pub record IsValid (m : MemTable d) : Type 0 where
    pub valid_mutable : d.IsValid m.mutable_table
    pub valid_frozen : All (λ g. d.IsValid g.table) m.immutable_tables
    pub frozen_nonempty : All (λ g. d.empty g.table ≡ false) m.immutable_tables
    pub ids_below_next : All (λ g. g.generation_id < m.next_generation_id) m.immutable_tables
    pub ids_ascending : Ascending m.immutable_tables

  pub new_mem_table-IsValid : IsValid (new_mem_table d)
  new_mem_table-IsValid = record {
    valid_mutable = d.new_table-IsValid;
    valid_frozen = tt;
    frozen_nonempty = tt;
    ids_below_next = tt;
    ids_ascending = tt;
  }

  pub apply-IsValid :
      (entry : InternalRecord) (m : MemTable d) → IsValid m → IsValid (apply d entry m).1
  unfolding apply
  apply-IsValid entry m h = record {
    valid_mutable = d.insert-IsValid entry m.mutable_table h.valid_mutable;
    valid_frozen = h.valid_frozen;
    frozen_nonempty = h.frozen_nonempty;
    ids_below_next = h.ids_below_next;
    ids_ascending = h.ids_ascending;
  }

  pub get-IsValid : (m : MemTable d) (key : ArenaEntry) → IsValid m → IsValid (get d m key).0
  unfolding get
  get-IsValid m key h = record {
    valid_mutable = d.find_mutable-IsValid m.mutable_table key h.valid_mutable;
    valid_frozen = h.valid_frozen;
    frozen_nonempty = h.frozen_nonempty;
    ids_below_next = h.ids_below_next;
    ids_ascending = h.ids_ascending;
  }

  Ascending-snoc :
      (gs : List (ImmutableTable d)) (g : ImmutableTable d)
      → Ascending gs
      → All (λ x. x.generation_id < g.generation_id) gs
      → Ascending (gs ++ (g ∷ []))
  Ascending-snoc [] g h k = (tt, tt)
  Ascending-snoc (x ∷ gs) g h k = (
    All-append (λ y. x.generation_id < y.generation_id) gs (g ∷ []) h.0 (k.0, tt),
    Ascending-snoc gs g h.1 k.1,
  )

  -- Freezing keeps the invariant while the 64-bit generation counter does not wrap.
  pub freeze_mutable-IsValid :
      (m : MemTable d)
      → IsValid m
      → m.next_generation_id + 1 < 2 ^ 64
      → IsValid (freeze_mutable d m)
  unfolding freeze_mutable
  freeze_mutable-IsValid m h room = elim (Bool-cases (d.empty m.mutable_table)) [
    | inl e ↦ rw e h
    | inr e ↦ rw e (record {
      valid_mutable = d.new_table-IsValid;
      valid_frozen = All-append _ m.immutable_tables _ h.valid_frozen (h.valid_mutable, tt);
      frozen_nonempty = All-append _ m.immutable_tables _ h.frozen_nonempty (e, tt);
      ids_below_next =
          All-append _ m.immutable_tables _
            (All-imp (λ g k. omega arith) m.immutable_tables h.ids_below_next) (omega arith, tt);
      ids_ascending = Ascending-snoc m.immutable_tables _ h.ids_ascending h.ids_below_next;
    })
  ]

  pop_generation-Whenever :
      (P : List (ImmutableTable d) → Type 0)
      → ((g : ImmutableTable d) (gs : List (ImmutableTable d)) → P (g ∷ gs) → P gs)
      → (gs : List (ImmutableTable d)) (id : ℕ) → P gs
      → Whenever P (pop_generation d gs id)
  pop_generation-Whenever P tail [] id h = tt
  pop_generation-Whenever P tail (g ∷ gs) id h = elim (Bool-cases (g.generation_id == id)) [
    | inl e ↦ rw e (tail g gs h)
    | inr e ↦ rw e tt
  ]

  -- The invariant of the queue alone.
  abbrev QueueValid : ℕ → List (ImmutableTable d) → Type 0
  QueueValid next gs =
      All (λ g. d.IsValid g.table) gs
      × All (λ g. d.empty g.table ≡ false) gs
      × All (λ g. g.generation_id < next) gs
      × Ascending gs

  retired-IsValid :
      (m : MemTable d) (rest : Option (List (ImmutableTable d)))
      → IsValid m
      → Whenever (QueueValid m.next_generation_id) rest
      → IsValid (retired d m rest).1
  retired-IsValid m none h k = h
  retired-IsValid m (some rest) h k = record {
    valid_mutable = h.valid_mutable;
    valid_frozen = k.0;
    frozen_nonempty = k.1;
    ids_below_next = k.2;
    ids_ascending = k.3;
  }

  pub retire_oldest_immutable-IsValid :
      (id : ℕ) (m : MemTable d) → IsValid m → IsValid (retire_oldest_immutable d id m).1
  unfolding retire_oldest_immutable
  retire_oldest_immutable-IsValid id m h =
      retired-IsValid m (pop_generation d m.immutable_tables id) h (
        pop_generation-Whenever (QueueValid m.next_generation_id)
          (λ g gs k. (k.0.1, k.1.1, k.2.1, k.3.1)) m.immutable_tables id
          (h.valid_frozen, h.frozen_nonempty, h.ids_below_next, h.ids_ascending))
