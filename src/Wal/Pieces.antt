-- ===== src/Wal/Pieces.antt =====
-- `Fragment::load` of src/core/engine/wal.cpp on a fragment that the writer has put into the file.
use kvdb.Base.{
  ℕ, ◌+◌, ◌%◌, ◌^◌, ◌≤◌, ◌<◌, ◌≡◌, refl, sym, ap, ◌∙◌, true, ◌==◌, List, ◌++◌, append_assoc, length,
  length-append, slice, slice-append, some, arith,
}
use kvdb.Record.{RecordType}
use kvdb.Status.{ok}
use kvdb.BlockIo.Writes.{padding}
use kvdb.Wal.{
  FragmentType, is_valid_fragment_type, is_valid_record_type, crc32_add_pod, compute_crc32,
}
use kvdb.Wal.Fragment.{FragmentHeader, check_header, check_fragment, checksum_fields, load_fragment}
use kvdb.Wal.Writer.{piece_with}
use kvdb.Wal.Layout.{header_bytes, length-header_bytes, fragment_bytes}
use kvdb.Wal.Rounds.{start_of, length-padding, sealed, fragment_checksum-sealed}
use kvdb.Wal.Parse.{parse_header}
use kvdb.Wal.Whole.{IsShort, IsGoodHeader, header_at, end_at, fragment_at, load_fragment-whole}
use kvdb.Wal.Codec.{parse-header_bytes}

pub check_header-good :
    (h : FragmentHeader) (o : ℕ)
    → h.header_size ≡ 22
    → is_valid_fragment_type h.fragment_type ≡ true
    → is_valid_record_type h.kind ≡ true
    → check_header (h, o) ≡ ok (h, o)
unfolding check_header
check_header-good h o e known typed =
    let t : (h.header_size == 22) ≡ true = ground arith in rw (check_header, t, known, typed) refl

module _ (crc32 : ℕ → List ℕ → ℕ) where
  pub checksum_fields-small :
      (h : FragmentHeader) (payload : List ℕ) → checksum_fields crc32 h payload < 2 ^ 32
  unfolding checksum_fields compute_crc32 crc32_add_pod
  checksum_fields-small h payload = ground arith

  module _ (t : FragmentType) (kind : RecordType) (seq_num : ℕ) (payload : List ℕ)
      (known : is_valid_fragment_type t ≡ true) (typed : is_valid_record_type kind ≡ true)
      (seq_small : seq_num < 2 ^ 64) (count_small : length payload < 2 ^ 32) where
    pub parse-sealed :
        parse_header (header_bytes (sealed crc32 t kind seq_num payload).header)
        ≡ (sealed crc32 t kind seq_num payload).header
    parse-sealed =
        let f = sealed crc32 t kind seq_num payload in
        let bare = piece_with t kind seq_num payload 0 in
        parse-header_bytes f.header known typed (checksum_fields-small bare.header payload)
          (omega arith) seq_small count_small

    pub check_fragment-sealed :
        (o : ℕ)
        → check_fragment crc32 (sealed crc32 t kind seq_num payload) o
          ≡ ok (some (sealed crc32 t kind seq_num payload), o)
    unfolding check_fragment
    check_fragment-sealed o =
        let f = sealed crc32 t kind seq_num payload in
        let same : (f.header.fragment_crc32 == f.header.fragment_crc32) ≡ true = ground arith in
        rw (check_fragment, fragment_checksum-sealed crc32 t kind seq_num payload known typed, same)
          refl

    -- A fragment of the writer is found behind its padding.
    pub load_fragment-sealed :
        (file b rest : List ℕ)
        → IsShort file
        → file
          ≡ b
            ++ (padding 23 4096 (length b)
                ++ (fragment_bytes (sealed crc32 t kind seq_num payload) ++ rest))
        → start_of (length b) % 4096 + (22 + length payload) ≤ 4096
        → load_fragment crc32 file (length b)
          ≡ ok (
            some (sealed crc32 t kind seq_num payload),
            start_of (length b) + 22 + length payload,
          )
    unfolding fragment_bytes
    load_fragment-sealed file b rest short e room =
        let f = sealed crc32 t kind seq_num payload in
        let pad = padding 23 4096 (length b) in
        let c = b ++ pad in
        let hb = header_bytes f.header in
        let o = length b in
        let start : start_of o ≡ length c = sym (length-append b pad ∙ length-padding o) in
        let split : file ≡ c ++ (hb ++ (payload ++ rest)) =
          e
          ∙ ap (λ x. b ++ (pad ++ x)) (append_assoc hb payload rest)
          ∙ sym (append_assoc b pad (hb ++ (payload ++ rest))) in
        let split' : file ≡ (c ++ hb) ++ (payload ++ rest) =
          split ∙ sym (append_assoc c hb (payload ++ rest)) in
        let at : start_of o + 22 ≡ length (c ++ hb) =
          omega (arith, length-append c hb, length-header_bytes f.header) in
        let header : header_at file o ≡ f.header =
          ap (λ x. parse_header (slice x (start_of o) 22)) split
          ∙ ap parse_header (
              slice-append c hb (payload ++ rest) (start_of o) 22 start
                (sym (length-header_bytes f.header)))
          ∙ parse-sealed in
        let size : (header_at file o).fragment_size ≡ length payload =
          ap (λ x. x.fragment_size) header in
        let bytes : slice file (start_of o + 22) (header_at file o).fragment_size ≡ payload =
          ap (λ x. slice x (start_of o + 22) (header_at file o).fragment_size) split'
          ∙ slice-append (c ++ hb) payload rest (start_of o + 22) (header_at file o).fragment_size
              at size in
        let good : IsGoodHeader file o = record {
          checked = rw (header) (check_header-good f.header (start_of o + 22) refl known typed);
          room = omega arith;
        } in
        let total : length file ≡ length (c ++ hb) + (length payload + length rest) =
          ap (λ x. length x) split'
          ∙ length-append (c ++ hb) (payload ++ rest)
          ∙ ap (λ n. length (c ++ hb) + n) (length-append payload rest) in
        let whole : end_at file o ≤ length file = omega arith in
        let rebuilt : fragment_at file o ≡ f =
          ap (λ x. record { header = header_at file o; payload = x }) bytes
          ∙ ap (λ x. record { header = x; payload = payload }) header in
        load_fragment-whole crc32 file o short good whole
        ∙ ap (λ x. check_fragment crc32 x (end_at file o)) rebuilt
        ∙ check_fragment-sealed (end_at file o)
        ∙ ap (λ n. ok (some f, start_of o + 22 + n)) size
