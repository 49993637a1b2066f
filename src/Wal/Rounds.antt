-- ===== src/Wal/Rounds.antt =====
-- The loop of `WALWriter::write_payload`: the fragments of its rounds, and the bytes that it appends.
use kvdb.Base.{
  ℕ, zero, suc, ◌+◌, ◌-◌, ◌%◌, ◌≤◌, ◌<◌, ◌≡◌, refl, sym, ap, ◌∙◌, min, Bool, true, false, ltb,
  Bool-cases, inl, inr, List, [], ◌++◌, length, take, drop, length-take, length-append,
  length-replicate, leb, if◌then◌else◌, ◌==◌, append_assoc, append-nil, arith,
}
use kvdb.Record.{RecordType, InternalRecord}
use kvdb.Status.{ok}
use kvdb.BlockIo.Writes.{at_end, wraps_4096, padding, fit_output-padded}
use kvdb.Wal.{FragmentType, is_valid_fragment_type, is_valid_record_type}
use kvdb.Wal.Fragment.{Fragment, checksum_fields, fragment_checksum}
use kvdb.Wal.Writer.{piece_type, piece_with, make_piece, write_piece, write_loop}
use kvdb.Wal.Layout.{
  Room, in_step-at_end, fragment_bytes, length-fragment_bytes, IsWritable, write_fragment-at_end,
}

-- The offset of the next fragment, after the padding.
abbrev pub start_of : ℕ → ℕ
start_of offset = if leb (offset % 4096 + 23) 4096 then offset else offset + (4096 - offset % 4096)

-- The bytes of the payload that the next fragment takes.
abbrev pub taken : ℕ → List ℕ → ℕ
taken offset left = min (length left) (4096 - offset % 4096 - 22)

pub start_of-room : (offset : ℕ) → start_of offset % 4096 + 23 ≤ 4096
start_of-room offset = ground arith

pub length-padding : (offset : ℕ) → offset + length (padding 23 4096 offset) ≡ start_of offset
unfolding padding
length-padding offset = ground (arith, length-replicate {A = ℕ} (4096 - offset % 4096) 0xcd)

pub piece_type-known : (a b : Bool) → is_valid_fragment_type (piece_type a b) ≡ true
piece_type-known true true = refl
piece_type-known true false = refl
piece_type-known false true = refl
piece_type-known false false = refl

module _ (crc32 : ℕ → List ℕ → ℕ) where
  -- A fragment with its checksum.
  abbrev pub sealed : FragmentType → RecordType → ℕ → List ℕ → Fragment
  sealed t kind seq_num payload =
      piece_with t kind seq_num payload
        (checksum_fields crc32 (piece_with t kind seq_num payload 0).header payload)

  -- The fragment of a round at `offset`.
  abbrev pub round_piece : Bool → List ℕ → InternalRecord → ℕ → Fragment
  round_piece is_first left r offset =
      let size = taken offset left in
      sealed (piece_type is_first (size == length left)) r.kind r.seq_num (take size left)

  -- The bytes of the rounds from `offset` on, padding included.
  unfoldable pub round_bytes : ℕ → Bool → List ℕ → InternalRecord → ℕ → List ℕ
  round_bytes zero is_first left r offset = []
  round_bytes (suc fuel) is_first left r offset =
      let start = start_of offset in
      let size = taken start left in
      let rest = round_bytes fuel false (drop size left) r (start + 22 + size) in
      if length left == 0
      then []
      else padding 23 4096 offset ++ (fragment_bytes (round_piece is_first left r start) ++ rest)

  pub fragment_checksum-sealed :
      (t : FragmentType) (kind : RecordType) (seq_num : ℕ) (payload : List ℕ)
      → is_valid_fragment_type t ≡ true
      → is_valid_record_type kind ≡ true
      → fragment_checksum crc32 (sealed t kind seq_num payload)
        ≡ ok (sealed t kind seq_num payload).header.fragment_crc32
  unfolding fragment_checksum checksum_fields
  fragment_checksum-sealed t kind seq_num payload known typed =
      let counted : (length payload == length payload) ≡ true = ground arith in
      rw (fragment_checksum, known, typed, counted) refl

  pub make_piece-lem :
      (t : FragmentType) (kind : RecordType) (seq_num : ℕ) (payload : List ℕ)
      → is_valid_fragment_type t ≡ true
      → is_valid_record_type kind ≡ true
      → make_piece crc32 t kind seq_num payload ≡ ok (sealed t kind seq_num payload)
  unfolding make_piece fragment_checksum
  make_piece-lem t kind seq_num payload known typed =
      let counted : (length payload == length payload) ≡ true = ground arith in
      rw (make_piece, known, typed, counted) refl

  pub round_piece-IsWritable :
      (is_first : Bool) (left : List ℕ) (r : InternalRecord) (offset : ℕ)
      → is_valid_record_type r.kind ≡ true
      → IsWritable (round_piece is_first left r offset)
  round_piece-IsWritable is_first left r offset typed = record {
    sized = refl;
    known = piece_type-known is_first (taken offset left == length left);
    typed = typed;
    counted = refl;
  }

  pub write_piece-at_end :
      (is_first : Bool) (left : List ℕ) (r : InternalRecord) (b : List ℕ)
      → is_valid_record_type r.kind ≡ true
      → Room b 23
      → write_piece crc32 is_first left r (at_end b)
        ≡ ok (
          taken (length b) left,
          at_end (b ++ fragment_bytes (round_piece is_first left r (length b))),
        )
  unfolding write_piece
  write_piece-at_end is_first left r b typed room =
      let size = taken (length b) left in
      let f = round_piece is_first left r (length b) in
      let enough : ltb (4096 - length b % 4096) 22 ≡ false = ground arith in
      let some_room : (4096 - length b % 4096 - 22 == 0) ≡ false = ground arith in
      let fits : Room b (22 + length f.payload) = omega (arith, length-take size left) in
      rw
        (
          write_piece,
          wraps_4096 (length b),
          enough,
          some_room,
          make_piece-lem (piece_type is_first (size == length left)) r.kind r.seq_num
              (take size left) (piece_type-known is_first (size == length left)) typed,
          write_fragment-at_end f b (round_piece-IsWritable is_first left r (length b) typed) fits,
          in_step-at_end (b ++ fragment_bytes f),
        )
        refl

  -- The loop appends the bytes of the rounds.
  pub write_loop-at_end :
      (fuel : ℕ) (is_first : Bool) (left : List ℕ) (r : InternalRecord) (b : List ℕ)
      → is_valid_record_type r.kind ≡ true
      → write_loop crc32 fuel is_first left r (at_end b)
        ≡ ok (at_end (b ++ round_bytes fuel is_first left r (length b)))
  unfolding write_loop round_bytes
  write_loop-at_end zero is_first left r b typed = ap (λ c. ok (at_end c)) (sym (append-nil b))
  write_loop-at_end (suc fuel) is_first left r b typed = elim (Bool-cases (length left == 0)) [
    | inl e ↦ rw (write_loop, round_bytes, e, append-nil b) refl
    | inr e ↦
        let pos : 0 < 4096 = omega arith in
        let c = b ++ padding 23 4096 (length b) in
        let start : length c ≡ start_of (length b) =
          length-append b (padding 23 4096 (length b)) ∙ length-padding (length b) in
        let room : Room c 23 = rw (start) (start_of-room (length b)) in
        let f = round_piece is_first left r (length c) in
        let size = taken (length c) left in
        let after = c ++ fragment_bytes f in
        let later = λ (s : ℕ).
          fragment_bytes (round_piece is_first left r s)
          ++ round_bytes fuel false (drop (taken s left) left) r (s + 22 + taken s left) in
        let reached : length after ≡ length c + 22 + size = omega (
          arith,
          length-append c (fragment_bytes f),
          length-fragment_bytes f,
          length-take size left,
        ) in
        let joined : after ++ round_bytes fuel false (drop size left) r (length after)
            ≡ b ++ (padding 23 4096 (length b) ++ later (start_of (length b))) =
          append_assoc c (fragment_bytes f)
            (round_bytes fuel false (drop size left) r (length after))
          ∙ ap (λ n. c ++ (fragment_bytes f ++ round_bytes fuel false (drop size left) r n)) reached
          ∙ ap (λ s. c ++ later s) start
          ∙ append_assoc b (padding 23 4096 (length b)) (later (start_of (length b))) in
        rw
          (
            write_loop,
            round_bytes,
            e,
            in_step-at_end b,
            fit_output-padded 23 4096 b pos wraps_4096 (omega arith) (omega arith),
            write_piece-at_end is_first left r c typed room,
            write_loop-at_end fuel false (drop size left) r after typed,
          )
          (ap (λ d. ok (at_end d)) joined)
  ]
