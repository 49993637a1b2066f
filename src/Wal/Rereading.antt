-- ===== src/Wal/Rereading.antt =====
-- The loop of `WALLoader::load` of src/core/engine/wal.cpp on the rounds of `WALWriter::write_payload`.
use kvdb.Base.{
  ℕ, zero, suc, ◌+◌, ◌-◌, ◌%◌, ◌^◌, ◌≤◌, ◌<◌, ◌≡◌, refl, sym, ap, ◌∙◌, Bool, true, false,
  Bool-cases, inl, inr, ◌==◌, List, [], ◌++◌, append_assoc, length, length-append, take, drop,
  take-drop, take_all, length-take, length-drop, Option, arith,
}
use kvdb.Record.{InternalRecord}
use kvdb.BlockIo.Writes.{padding}
use kvdb.Wal.Writer.{piece_type}
use kvdb.Wal.Assembler.{idle, consume}
use kvdb.Wal.Loader.{LoadResult, Loaded, with_record, load_loop}
use kvdb.Wal.Layout.{fragment_bytes, length-fragment_bytes}
use kvdb.Wal.Rounds.{
  start_of, start_of-room, taken, length-padding, piece_type-known, round_piece, round_bytes,
}
use kvdb.Wal.Whole.{IsShort}
use kvdb.Wal.Steps.{load_loop-more, load_loop-record}
use kvdb.Wal.Codec.{IsLoggable, payload_of, length-payload_of}
use kvdb.Wal.Pieces.{load_fragment-sealed}
use kvdb.Wal.Assembly.{piece, state_at, bytes_at, consume-last, consume-more}

module _ (crc32 : ℕ → List ℕ → ℕ) (r : InternalRecord) where
  pub round_bytes-done :
      (n : ℕ) (is_first : Bool) (left : List ℕ) (o : ℕ)
      → length left ≡ 0
      → round_bytes crc32 n is_first left r o ≡ []
  unfolding round_bytes
  round_bytes-done zero is_first left o h = refl
  round_bytes-done (suc n) is_first left o h =
      let t : (length left == 0) ≡ true = ground arith in rw (round_bytes, t) refl

  pub round_bytes-step :
      (n : ℕ) (is_first : Bool) (left : List ℕ) (o : ℕ)
      → 0 < length left
      → round_bytes crc32 (suc n) is_first left r o
        ≡ padding 23 4096 o
          ++ (fragment_bytes (round_piece crc32 is_first left r (start_of o))
              ++ round_bytes crc32 n false
                  (drop (taken (start_of o) left) left)
                  r
                  (start_of o + 22 + taken (start_of o) left))
  unfolding round_bytes
  round_bytes-step n is_first left o h =
      let t : (length left == 0) ≡ false = ground arith in rw (round_bytes, t) refl

  module _ (w : IsLoggable r) (file : List ℕ) (short : IsShort file)
      (Q : Option Loaded → Type 0) where
    -- What the rest of the file gives after the record gives it before.
    pub load_loop-rounds :
        (n : ℕ) (is_first : Bool) (left done b rest : List ℕ) (good : ℕ) (result : LoadResult)
        (fuel : ℕ)
        → file ≡ b ++ (round_bytes crc32 n is_first left r (length b) ++ rest)
        → 0 < length left
        → length left ≤ n
        → bytes_at is_first done ++ left ≡ payload_of r
        → length file < fuel + length b
        → ((fuel' end : ℕ)
            → end ≡ length b + length (round_bytes crc32 n is_first left r (length b))
            → length file < fuel' + end
            → Q (load_loop crc32 file fuel' end idle end (with_record r result)))
        → Q (load_loop crc32 file fuel (length b) (state_at is_first r done) good result)
    load_loop-rounds zero is_first left done b rest good result fuel e h k j l next =
        absurd (omega arith)
    load_loop-rounds (suc n) is_first left done b rest good result zero e h k j l next =
        let size : length file
            ≡ length b + length (round_bytes crc32 (suc n) is_first left r (length b) ++ rest) =
          ap (λ x. length x) e
          ∙ length-append b (round_bytes crc32 (suc n) is_first left r (length b) ++ rest) in
        absurd (omega arith)
    load_loop-rounds (suc n) is_first left done b rest good result (suc fuel) e h k j l next =
        let o = length b in
        let start = start_of o in
        let size = taken start left in
        let part = take size left in
        let left' = drop size left in
        let f = round_piece crc32 is_first left r start in
        let pad = padding 23 4096 o in
        let room : start % 4096 + 23 ≤ 4096 = start_of-room o in
        let some_part : 0 < size = omega arith in
        let part_size : length part ≡ size = omega (arith, length-take size left) in
        let left_size : length left' ≡ length left - size = length-drop size left in
        let all_size = ap (λ x. length x) j ∙ length-payload_of r in
        let both : length (bytes_at is_first done) + length left < 2 ^ 63 =
          omega (arith, length-append (bytes_at is_first done) left, w.key_small, w.value_small) in
        let later = round_bytes crc32 n false left' r (start + 22 + size) in
        let opened = round_bytes-step n is_first left o h in
        let split : file ≡ b ++ (pad ++ (fragment_bytes f ++ (later ++ rest))) =
          e
          ∙ ap (λ x. b ++ (x ++ rest)) opened
          ∙ ap (λ x. b ++ x)
              (append_assoc pad (fragment_bytes f ++ later) rest
                ∙ ap (λ x. pad ++ x) (append_assoc (fragment_bytes f) later rest)) in
        let found =
          load_fragment-sealed crc32 (piece_type is_first (size == length left)) r.kind r.seq_num
            part (piece_type-known is_first (size == length left)) w.typed w.seq_small (omega arith)
            file b (later ++ rest) short split (omega arith) in
        let o' = start + 22 + length part in
        let b' = b ++ (pad ++ fragment_bytes f) in
        let bs = fragment_bytes f in
        let st = state_at is_first r done in
        let bytes_size : o + (length pad + (22 + length part)) ≡ o' =
          omega (arith, length-padding o) in
        let reached : length b' ≡ o' =
          length-append b (pad ++ bs)
          ∙ ap (λ x. o + x)
              (length-append pad bs ∙ ap (λ x. length pad + x) (length-fragment_bytes f))
          ∙ bytes_size in
        let end_of : o + length (round_bytes crc32 (suc n) is_first left r o) ≡ o' + length later =
          let sizes : length (round_bytes crc32 (suc n) is_first left r o)
              ≡ length pad + (22 + length part + length later) =
            ap (λ x. length x) opened
            ∙ length-append pad (bs ++ later)
            ∙ ap (λ x. length pad + x)
                (length-append bs later ∙ ap (λ x. x + length later) (length-fragment_bytes f)) in
          omega (arith, length-padding o) in
        elim (Bool-cases (size == length left)) [
          | inl t ↦
              let all : part ≡ left = take_all size left (ground arith) in
              let c =
                ap (λ x. consume (piece crc32 r w is_first x part) st) t
                ∙ consume-last crc32 r w is_first done part
                    (ap (λ x. bytes_at is_first done ++ x) all ∙ j) (omega arith) in
              let none_left : length later ≡ 0 =
                ap (λ x. length x)
                  (round_bytes-done n false left' (start + 22 + size) (ground arith)) in
              rw (load_loop-record crc32 file fuel o st good result f o' found idle r c)
                (next fuel o' (omega arith) (omega arith))
          | inr t ↦
              let st' = state_at false r (bytes_at is_first done ++ part) in
              let c =
                ap (λ x. consume (piece crc32 r w is_first x part) st) t
                ∙ consume-more crc32 r w is_first done part (omega arith) in
              let same_later : later ≡ round_bytes crc32 n false left' r (length b') =
                let at : start + 22 + size ≡ length b' = omega arith in
                ap (λ x. round_bytes crc32 n false left' r x) at in
              let split' : file ≡ b' ++ (round_bytes crc32 n false left' r (length b') ++ rest) =
                split
                ∙ ap (λ x. b ++ x) (sym (append_assoc pad bs (later ++ rest)))
                ∙ sym (append_assoc b (pad ++ bs) (later ++ rest))
                ∙ ap (λ x. b' ++ (x ++ rest)) same_later in
              let joined : (bytes_at is_first done ++ part) ++ left' ≡ payload_of r =
                append_assoc (bytes_at is_first done) part left'
                ∙ ap (λ x. bytes_at is_first done ++ x) (take-drop size left)
                ∙ j in
              let lengths = ap (λ x. length x) same_later in
              let more : 0 < length left' = ground arith in
              rw (load_loop-more crc32 file fuel o st good result f o' found st' c, sym reached)
                (load_loop-rounds n false left' (bytes_at is_first done ++ part) b' rest good result
                  fuel split' more (omega arith) joined (omega arith)
                  (λ fuel' end p q. next fuel' end (omega arith) q))
        ]
