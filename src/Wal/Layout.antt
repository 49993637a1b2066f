-- ===== src/Wal/Layout.antt =====
-- The bytes that the write of a fragment puts into the file.
use kvdb.Base.{
  ℕ, ◌+◌, ◌%◌, ◌≤◌, ◌<◌, ◌≡◌, refl, ap, ◌∙◌, true, false, ltb, List, [], ◌∷◌, ◌++◌, length,
  length-append, ◌==◌, append_assoc, append-nil, arith,
}
use kvdb.Status.{ok}
use kvdb.Bytes.{le_bytes}
use kvdb.BlockIo.{check_writer_offset}
use kvdb.BlockIo.Writes.{
  at_end, wraps_4096, fit_output-room, write_bytes-room, write_u8_t-room, write_u32_t_le-room,
  write_u64_t_le-room,
}
use kvdb.Wal.{byte_of_fragment, byte_of_type, is_valid_fragment_type, is_valid_record_type, in_step}
use kvdb.Wal.Fragment.{
  FragmentHeader, Fragment, fragment_disk_size, write_header, write_fragment_payload,
  write_fragment,
}

-- `n` bytes fit in the block in which `b` ends.
abbrev pub Room : List ℕ → ℕ → Type 0
Room b n = length b % 4096 + n ≤ 4096

unfoldable pub header_bytes : FragmentHeader → List ℕ
header_bytes h =
    le_bytes 4 h.fragment_crc32
    ++ (le_bytes 4 h.header_size
        ++ (le_bytes 1 (byte_of_fragment h.fragment_type)
            ++ (le_bytes 1 (byte_of_type h.kind)
                ++ (le_bytes 8 h.seq_num ++ le_bytes 4 h.fragment_size))))

pub Room-append : (b new : List ℕ) (n : ℕ) → Room b (length new + n) → Room (b ++ new) n
Room-append b new n h = omega (arith, length-append b new)

pub in_step-at_end : (b : List ℕ) → in_step (at_end b) ≡ ok (at_end b)
unfolding in_step check_writer_offset
in_step-at_end b = ground arith

pub write_header-at_end :
    (h : FragmentHeader) (b : List ℕ)
    → h.header_size ≡ 22
    → is_valid_fragment_type h.fragment_type ≡ true
    → is_valid_record_type h.kind ≡ true
    → Room b 22
    → write_header h (at_end b) ≡ ok (at_end (b ++ header_bytes h))
unfolding write_header header_bytes
write_header-at_end h b e₁ e₂ e₃ room =
    let f₁ = le_bytes 4 h.fragment_crc32 in
    let f₂ = le_bytes 4 h.header_size in
    let f₃ = le_bytes 1 (byte_of_fragment h.fragment_type) in
    let f₄ = le_bytes 1 (byte_of_type h.kind) in
    let f₅ = le_bytes 8 h.seq_num in
    let b₁ = b ++ f₁ in
    let b₂ = b₁ ++ f₂ in
    let b₃ = b₂ ++ f₃ in
    let b₄ = b₃ ++ f₄ in
    let b₅ = b₄ ++ f₅ in
    let r₁ : Room b₁ 18 = Room-append b f₁ 18 room in
    let r₂ : Room b₂ 14 = Room-append b₁ f₂ 14 r₁ in
    let r₃ : Room b₃ 13 = Room-append b₂ f₃ 13 r₂ in
    let r₄ : Room b₄ 12 = Room-append b₃ f₄ 12 r₃ in
    let r₅ : Room b₅ 4 = Room-append b₄ f₅ 4 r₄ in
    let pos : 0 < 4096 = omega arith in
    let joined : b₅ ++ le_bytes 4 h.fragment_size ≡ b ++ header_bytes h =
      append_assoc b₄ f₅ (le_bytes 4 h.fragment_size)
      ∙ append_assoc b₃ f₄ (f₅ ++ le_bytes 4 h.fragment_size)
      ∙ append_assoc b₂ f₃ (f₄ ++ (f₅ ++ le_bytes 4 h.fragment_size))
      ∙ append_assoc b₁ f₂ (f₃ ++ (f₄ ++ (f₅ ++ le_bytes 4 h.fragment_size)))
      ∙ append_assoc b f₁ (f₂ ++ (f₃ ++ (f₄ ++ (f₅ ++ le_bytes 4 h.fragment_size)))) in
    let sized : (h.header_size == 22) ≡ true = ground arith in
    rw
      (
        write_header,
        sized,
        e₂,
        e₃,
        in_step-at_end b,
        fit_output-room 22 4096 b pos wraps_4096 room,
        write_u32_t_le-room 4096 b pos wraps_4096 h.fragment_crc32 (omega arith),
        write_u32_t_le-room 4096 b₁ pos wraps_4096 h.header_size (omega arith),
        write_u8_t-room 4096 b₂ pos wraps_4096 (byte_of_fragment h.fragment_type) (omega arith),
        write_u8_t-room 4096 b₃ pos wraps_4096 (byte_of_type h.kind) (omega arith),
        write_u64_t_le-room 4096 b₄ pos wraps_4096 h.seq_num (omega arith),
        write_u32_t_le-room 4096 b₅ pos wraps_4096 h.fragment_size (omega arith),
      )
      (ap (λ c. ok (at_end c)) joined)

pub length-header_bytes : (h : FragmentHeader) → length (header_bytes h) ≡ 22
unfolding header_bytes
length-header_bytes h = refl

pub write_fragment_payload-at_end :
    (payload b : List ℕ)
    → Room b (length payload)
    → write_fragment_payload payload (at_end b) ≡ ok (at_end (b ++ payload))
unfolding write_fragment_payload
write_fragment_payload-at_end [] b room =
    let pos : 0 < 4096 = omega arith in
    rw
      (
        write_fragment_payload,
        in_step-at_end b,
        fit_output-room 0 4096 b pos wraps_4096 room,
        append-nil b,
      )
      refl
write_fragment_payload-at_end (x ∷ xs) b room =
    let pos : 0 < 4096 = omega arith in
    rw
      (
        write_fragment_payload,
        in_step-at_end b,
        fit_output-room (length (x ∷ xs)) 4096 b pos wraps_4096 room,
        write_bytes-room 4096 b pos wraps_4096 (x ∷ xs) room,
      )
      (ground arith)

unfoldable pub fragment_bytes : Fragment → List ℕ
fragment_bytes f = header_bytes f.header ++ f.payload

pub length-fragment_bytes : (f : Fragment) → length (fragment_bytes f) ≡ 22 + length f.payload
unfolding fragment_bytes
length-fragment_bytes f =
    omega (arith, length-append (header_bytes f.header) f.payload, length-header_bytes f.header)

-- A fragment whose fields are right for the payload that it holds.
pub record IsWritable (f : Fragment) : Type 0 where
  pub sized : f.header.header_size ≡ 22
  pub known : is_valid_fragment_type f.header.fragment_type ≡ true
  pub typed : is_valid_record_type f.header.kind ≡ true
  pub counted : f.header.fragment_size ≡ length f.payload

pub write_fragment-at_end :
    (f : Fragment) (b : List ℕ)
    → IsWritable f
    → Room b (22 + length f.payload)
    → write_fragment f (at_end b) ≡ ok (at_end (b ++ fragment_bytes f))
unfolding write_fragment fragment_disk_size fragment_bytes
write_fragment-at_end f b w room =
    let c = b ++ header_bytes f.header in
    let pos : 0 < 4096 = omega arith in
    let counted : (f.header.fragment_size == length f.payload) ≡ true = ground (arith, w.counted) in
    let small : ltb 4096 (22 + length f.payload) ≡ false = ground arith in
    let room_header : Room b 22 = omega arith in
    let room_payload : Room c (length f.payload) =
      Room-append b (header_bytes f.header) (length f.payload)
        (omega (arith, length-header_bytes f.header)) in
    rw
      (
        write_fragment,
        counted,
        small,
        in_step-at_end b,
        fit_output-room (22 + length f.payload) 4096 b pos wraps_4096 room,
        write_header-at_end f.header b w.sized w.known w.typed room_header,
        write_fragment_payload-at_end f.payload c room_payload,
        in_step-at_end (c ++ f.payload),
      )
      (ap (λ d. ok (at_end d)) (append_assoc b (header_bytes f.header) f.payload))
