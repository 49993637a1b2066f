-- ===== src/Wal/Assembly.antt =====
-- `LogicalRecordAssembler` of src/core/engine/wal.cpp on the fragments that the writer makes of a record.
use kvdb.Base.{
  ℕ, ◌+◌, ◌-◌, ◌^◌, ◌<◌, ◌≡◌, refl, ap, ◌∙◌, Bool, true, false, ltb, ◌==◌, List, [], ◌++◌, length,
  none, some, arith,
}
use kvdb.Record.{RecordType, put, tombstone, undefined, type_eq, InternalRecord}
use kvdb.Status.{ok}
use kvdb.Wal.Payload.{decode_record_payload}
use kvdb.Wal.Fragment.{Fragment}
use kvdb.Wal.Writer.{piece_type}
use kvdb.Wal.Assembler.{
  LogicalRecordAssembler, idle, append_bytes, consume_full, consume_first, finish, consume_later,
  consume,
}
use kvdb.Wal.Rounds.{sealed}
use kvdb.Wal.Codec.{IsLoggable, payload_of, decode_record_payload-payload_of}

-- The assembler before a fragment: idle before the first, and with the bytes so far before a later one.
abbrev pub state_at : Bool → InternalRecord → List ℕ → LogicalRecordAssembler
state_at true r done = idle
state_at false r done = record { active = true; seq_num = r.seq_num; kind = r.kind; bytes = done }

abbrev pub bytes_at : Bool → List ℕ → List ℕ
bytes_at true done = []
bytes_at false done = done

pub type_eq_refl : (t : RecordType) → type_eq t t ≡ true
unfolding type_eq
type_eq_refl put = refl
type_eq_refl tombstone = refl
type_eq_refl undefined = refl

module _ (crc32 : ℕ → List ℕ → ℕ) (r : InternalRecord) (w : IsLoggable r) where
  abbrev pub piece : Bool → Bool → List ℕ → Fragment
  piece is_first is_last part = sealed crc32 (piece_type is_first is_last) r.kind r.seq_num part

  pub decode-joined :
      (bytes : List ℕ) → bytes ≡ payload_of r → decode_record_payload bytes r.seq_num r.kind ≡ ok r
  decode-joined bytes e =
      ap (λ x. decode_record_payload x r.seq_num r.kind) e ∙ decode_record_payload-payload_of r w

  -- The last fragment gives the record.
  pub consume-last :
      (is_first : Bool) (done part : List ℕ)
      → bytes_at is_first done ++ part ≡ payload_of r
      → length (bytes_at is_first done) + length part < 2 ^ 63
      → consume (piece is_first true part) (state_at is_first r done) ≡ (idle, ok (some r))
  unfolding consume consume_full consume_later append_bytes finish
  consume-last true done part e h = rw (consume_full, decode-joined part e) refl
  consume-last false done part e h =
      let t₁ : ltb (2 ^ 64 - 1 - length done) (length part) ≡ false = ground arith in
      let t₂ : (r.seq_num == r.seq_num) ≡ true = ground arith in
      rw (consume_later, t₂, type_eq_refl r.kind, t₁, decode-joined (done ++ part) e) refl

  -- An earlier one is kept.
  pub consume-more :
      (is_first : Bool) (done part : List ℕ)
      → length (bytes_at is_first done) + length part < 2 ^ 63
      → consume (piece is_first false part) (state_at is_first r done)
        ≡ (state_at false r (bytes_at is_first done ++ part), ok none)
  unfolding consume consume_first consume_later append_bytes finish
  consume-more true done part h =
      let t₁ : ltb (2 ^ 64 - 1) (length part) ≡ false = ground arith in rw (consume_first, t₁) refl
  consume-more false done part h =
      let t₁ : ltb (2 ^ 64 - 1 - length done) (length part) ≡ false = ground arith in
      let t₂ : (r.seq_num == r.seq_num) ≡ true = ground arith in
      rw (consume_later, t₂, type_eq_refl r.kind, t₁) refl
