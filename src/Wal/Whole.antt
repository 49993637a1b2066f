-- ===== src/Wal/Whole.antt =====
-- When `Fragment::load` of src/core/engine/wal.cpp finds a fragment, and what it answers then.
use kvdb.Base.{
  ℕ, ◌+◌, ◌-◌, ◌%◌, ◌^◌, ◌≤◌, ◌<◌, ◌≡◌, ◌⊎◌, inl, inr, refl, sym, ap, ◌∙◌, true, false, Bool-cases,
  leb, ltb, ◌==◌, List, length, slice, Option, none, some, arith,
}
use kvdb.Status.{StatusCode, Result, ok, fail, ◌>>=◌, unexpected_eof}
use kvdb.BlockIo.{fits_in_block, fit_input, align_input}
use kvdb.BlockIo.Reads.{read_bytes-room}
use kvdb.Wal.Fragment.{
  FragmentHeader, Fragment, check_header, load_payload, load_rest, check_fragment, load_fragment,
}
use kvdb.Wal.Parse.{parse_header, load_header-room}
use kvdb.Wal.Rounds.{start_of, start_of-room}

-- A file that the offsets of 64 bits reach.
abbrev pub IsShort : List ℕ → Type 0
IsShort file = length file < 2 ^ 63

abbrev pub header_at : List ℕ → ℕ → FragmentHeader
header_at file o = parse_header (slice file (start_of o) 22)

abbrev pub end_at : List ℕ → ℕ → ℕ
end_at file o = start_of o + 22 + (header_at file o).fragment_size

abbrev pub fragment_at : List ℕ → ℕ → Fragment
fragment_at file o = record {
  header = header_at file o;
  payload = slice file (start_of o + 22) (header_at file o).fragment_size;
}

-- The header at `o` is a good one, and it and its payload are in one block.
pub record IsGoodHeader (file : List ℕ) (o : ℕ) : Type 0 where
  pub checked :
      check_header (header_at file o, start_of o + 22) ≡ ok (header_at file o, start_of o + 22)
  pub room : (header_at file o).fragment_size ≤ 4096 - (start_of o + 22) % 4096

pub fit_input-start_of : (o : ℕ) → o < 2 ^ 63 → fit_input 23 o 4096 ≡ ok (start_of o)
unfolding fit_input fits_in_block align_input
fit_input-start_of o h = ground arith

pub load_payload-room :
    (file : List ℕ) (size o : ℕ)
    → size ≤ 4096 - o % 4096
    → o + size ≤ length file
    → load_payload file size o ≡ ok (slice file o size, o + size)
unfolding load_payload fits_in_block
load_payload-room file size o h k =
    let pos : 0 < 4096 = omega arith in
    ground (arith, read_bytes-room 4096 file o pos size (omega arith) k)

pub check_header-cases :
    (x : FragmentHeader × ℕ)
    → (check_header x ≡ ok x) ⊎ ((code : StatusCode) × (check_header x ≡ fail code))
unfolding check_header
check_header-cases (h, at) = ground arith

module _ (crc32 : ℕ → List ℕ → ℕ) (file : List ℕ) (o : ℕ) (short : IsShort file) where
  pub load_rest-lem :
      (h : FragmentHeader) (at : ℕ)
      → 22 ≤ at % 4096
      → h.fragment_size ≤ 4096 - at % 4096
      → at + h.fragment_size ≤ length file
      → load_rest crc32 file h at
        ≡ check_fragment crc32
            (record { header = h; payload = slice file at h.fragment_size })
            (at + h.fragment_size)
  unfolding load_rest
  load_rest-lem h at low room whole =
      let t₁ : ltb (4096 - at % 4096) h.fragment_size ≡ false = ground arith in
      let t₂ : ltb 4074 h.fragment_size ≡ false = ground arith in
      let t₃ : ltb (length file - at) h.fragment_size ≡ false = ground arith in
      rw (load_rest, t₁, t₂, t₃, load_payload-room file h.fragment_size at room whole) refl

  -- The answer where a whole fragment is.
  pub load_fragment-whole :
      IsGoodHeader file o
      → end_at file o ≤ length file
      → load_fragment crc32 file o ≡ check_fragment crc32 (fragment_at file o) (end_at file o)
  unfolding load_fragment
  load_fragment-whole good whole =
      let start = start_of o in
      let sr : start % 4096 + 23 ≤ 4096 = start_of-room o in
      let later : o ≤ start = ground arith in
      let t₁ : (o == length file) ≡ false = ground arith in
      let t₂ : ltb (length file) o ≡ false = ground arith in
      let t₃ : leb (length file) start ≡ false = ground arith in
      let t₄ : ltb (length file - start) 22 ≡ false = ground arith in
      rw
        (
          load_fragment,
          t₁,
          t₂,
          fit_input-start_of o (omega arith),
          t₃,
          t₄,
          load_header-room file start (omega arith) (omega arith),
          good.checked,
        )
        (load_rest-lem (header_at file o) (start + 22) (omega arith) good.room whole)

  -- The answers where the file ends too early.
  pub load_fragment-end :
      o ≤ length file
      → length file ≤ start_of o
      → load_fragment crc32 file o ≡ ok (none, length file)
  unfolding load_fragment
  load_fragment-end h k = ground (arith, fit_input-start_of o (omega arith))

  pub load_fragment-no_header :
      o ≤ length file
      → start_of o < length file
      → length file < start_of o + 22
      → load_fragment crc32 file o ≡ fail unexpected_eof
  unfolding load_fragment
  load_fragment-no_header h k l = ground (arith, fit_input-start_of o (omega arith))

  -- A header that is there decides the rest.
  pub load_fragment-header :
      start_of o + 22 ≤ length file
      → load_fragment crc32 file o ≡ (
          check_header (header_at file o, start_of o + 22) >>= λ (h, at). load_rest crc32 file h at)
  unfolding load_fragment
  load_fragment-header k =
      let start = start_of o in
      let sr : start % 4096 + 23 ≤ 4096 = start_of-room o in
      let later : o ≤ start = ground arith in
      let t₁ : (o == length file) ≡ false = ground arith in
      let t₂ : ltb (length file) o ≡ false = ground arith in
      let t₃ : leb (length file) start ≡ false = ground arith in
      let t₄ : ltb (length file - start) 22 ≡ false = ground arith in
      rw
        (
          load_fragment,
          t₁,
          t₂,
          fit_input-start_of o (omega arith),
          t₃,
          t₄,
          load_header-room file start (omega arith) k,
        )
        refl

  pub load_fragment-no_payload :
      IsGoodHeader file o
      → start_of o + 22 ≤ length file
      → length file < end_at file o
      → load_fragment crc32 file o ≡ fail unexpected_eof
  unfolding load_rest
  load_fragment-no_payload good k l =
      let start = start_of o in
      let sr : start % 4096 + 23 ≤ 4096 = start_of-room o in
      let size = (header_at file o).fragment_size in
      let at = start + 22 in
      let room : size ≤ 4096 - at % 4096 = good.room in
      let t₁ : ltb (4096 - at % 4096) size ≡ false = ground arith in
      let t₂ : ltb 4074 size ≡ false = ground arith in
      let t₃ : ltb (length file - at) size ≡ true = ground arith in
      load_fragment-header k ∙ rw (good.checked, load_rest, t₁, t₂, t₃) refl

  load_rest-inv :
      (h : FragmentHeader) (at : ℕ) (f : Fragment) (o' : ℕ)
      → at ≤ length file
      → load_rest crc32 file h at ≡ ok (some f, o')
      → (h.fragment_size ≤ 4096 - at % 4096) × (at + h.fragment_size ≤ length file)
  unfolding load_rest
  load_rest-inv h at f o' k e = ground arith

  load_fragment-inside :
      (f : Fragment) (o' : ℕ)
      → load_fragment crc32 file o ≡ ok (some f, o')
      → start_of o + 22 ≤ length file
  unfolding load_fragment
  load_fragment-inside f o' e = elim (Bool-cases (leb o (length file))) [
    | inl h ↦ let fit = fit_input-start_of o (ground arith) in ground (arith, fit)
    | inr h ↦ ground arith
  ]

  -- Where a fragment is found, a whole one is.
  pub load_fragment-inv :
      (f : Fragment) (o' : ℕ)
      → load_fragment crc32 file o ≡ ok (some f, o')
      → IsGoodHeader file o × (end_at file o ≤ length file)
  load_fragment-inv f o' e =
      let fits = load_fragment-inside f o' e in
      let h = header_at file o in
      let at = start_of o + 22 in
      let opened = sym (load_fragment-header fits) ∙ e in
      elim (check_header-cases (h, at)) [
        | inl good ↦
            let rest : load_rest crc32 file h at ≡ ok (some f, o') =
              ap (λ c. c >>= λ (h', at'). load_rest crc32 file h' at') (sym good) ∙ opened in
            let (room, whole) = load_rest-inv h at f o' fits rest in
            (record { checked = good; room = room }, whole)
        | inr (code, bad) ↦
            let stopped : Path (Result (Option Fragment × ℕ)) (fail code) (ok (some f, o')) =
              ap (λ c. c >>= λ (h', at'). load_rest crc32 file h' at') (sym bad) ∙ opened in
            ground arith
      ]
