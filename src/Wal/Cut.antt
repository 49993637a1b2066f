-- ===== src/Wal/Cut.antt =====
-- `Fragment::load` of src/core/engine/wal.cpp on a file that a crash cut short.
use kvdb.Base.{
  ℕ, ◌+◌, ◌-◌, ◌%◌, ◌≤◌, ◌<◌, ◌≡◌, ◌⊎◌, inl, inr, sym, ap, ◌∙◌, Bool-cases, leb, ltb, List, length,
  take, length-take, slice, slice-take, none, arith,
}
use kvdb.Status.{StatusCode, ok, fail, ◌>>=◌, unexpected_eof, invalid_payload_size}
use kvdb.Wal.Fragment.{FragmentHeader, check_header, load_rest, check_fragment, load_fragment}
use kvdb.Wal.Parse.{parse_header}
use kvdb.Wal.Rounds.{start_of}
use kvdb.Wal.Whole.{
  IsShort, IsGoodHeader, header_at, end_at, check_header-cases, load_fragment-whole,
  load_fragment-end, load_fragment-no_header, load_fragment-header, load_fragment-no_payload,
}

module _ (crc32 : ℕ → List ℕ → ℕ) where
  pub load_rest-no_room :
      (file : List ℕ) (o : ℕ)
      → 4096 - (start_of o + 22) % 4096 < (header_at file o).fragment_size
      → load_rest crc32 file (header_at file o) (start_of o + 22) ≡ fail invalid_payload_size
  unfolding load_rest
  load_rest-no_room file o h = ground arith

  pub load_fragment-bad_header :
      (file : List ℕ) (o : ℕ) (code : StatusCode)
      → IsShort file
      → start_of o + 22 ≤ length file
      → check_header (header_at file o, start_of o + 22) ≡ fail code
      → load_fragment crc32 file o ≡ fail code
  load_fragment-bad_header file o code short h bad =
      load_fragment-header crc32 file o short h
      ∙ ap (λ c. c >>= λ (h', at). load_rest crc32 file h' at) bad

  pub load_fragment-good_header :
      (file : List ℕ) (o : ℕ)
      → IsShort file
      → start_of o + 22 ≤ length file
      → check_header (header_at file o, start_of o + 22) ≡ ok (header_at file o, start_of o + 22)
      → load_fragment crc32 file o ≡ load_rest crc32 file (header_at file o) (start_of o + 22)
  load_fragment-good_header file o short h good =
      load_fragment-header crc32 file o short h
      ∙ ap (λ c. c >>= λ (h', at). load_rest crc32 file h' at) good

  -- The header is in what is left of the file.
  load_fragment-take_header :
      (file : List ℕ) (n o : ℕ)
      → IsShort file
      → n ≤ length file
      → start_of o + 22 ≤ n
      → (load_fragment crc32 (take n file) o ≡ load_fragment crc32 file o)
        ⊎ ((load_fragment crc32 (take n file) o ≡ ok (none, n))
            ⊎ (load_fragment crc32 (take n file) o ≡ fail unexpected_eof))
  load_fragment-take_header file n o short h inside =
      let cut = take n file in
      let size : length cut ≡ n = omega (arith, length-take n file) in
      let short' : IsShort cut = omega arith in
      let at = start_of o + 22 in
      let header = header_at file o in
      let same : header_at cut o ≡ header =
        ap parse_header (slice-take n (start_of o) 22 file inside) in
      let moved : check_header (header_at cut o, at) ≡ check_header (header, at) =
        ap (λ x. check_header (x, at)) same in
      let in_file : at ≤ length file = omega arith in
      let in_cut : at ≤ length cut = omega arith in
      elim (check_header-cases (header, at)) [
        | inr (code, bad) ↦ inl (
            load_fragment-bad_header cut o code short' in_cut (moved ∙ bad)
            ∙ sym (load_fragment-bad_header file o code short in_file bad))
        | inl good ↦
            let good' : check_header (header_at cut o, at) ≡ ok (header_at cut o, at) =
              moved ∙ good ∙ ap (λ x. ok (x, at)) (sym same) in
            let same_size : (header_at cut o).fragment_size ≡ header.fragment_size =
              ap (λ x. x.fragment_size) same in
            elim (Bool-cases (ltb (4096 - at % 4096) header.fragment_size)) [
              | inl e ↦
                  let no_room : 4096 - at % 4096 < header.fragment_size = ground arith in
                  let no_room' : 4096 - at % 4096 < (header_at cut o).fragment_size = omega arith in
                  inl (
                    load_fragment-good_header cut o short' in_cut good'
                    ∙ load_rest-no_room cut o no_room'
                    ∙ sym (
                        load_fragment-good_header file o short in_file good
                        ∙ load_rest-no_room file o no_room))
              | inr e ↦
                  let room : header.fragment_size ≤ 4096 - at % 4096 = ground arith in
                  let room' : (header_at cut o).fragment_size ≤ 4096 - at % 4096 = omega arith in
                  let is_good : IsGoodHeader file o = record { checked = good; room = room } in
                  let is_good' : IsGoodHeader cut o = record { checked = good'; room = room' } in
                  elim (Bool-cases (ltb n (end_at file o))) [
                    | inl e₂ ↦ inr (
                        inr (
                          load_fragment-no_payload crc32 cut o short' is_good' in_cut
                            (ground arith)))
                    | inr e₂ ↦
                        let whole : end_at file o ≤ n = ground arith in
                        let payload : slice cut at header.fragment_size
                            ≡ slice file at header.fragment_size =
                          slice-take n at header.fragment_size file whole in
                        let checked_with = λ (x : FragmentHeader) (bytes : List ℕ).
                          check_fragment crc32 (record { header = x; payload = bytes })
                            (at + x.fragment_size) in
                        inl (
                          load_fragment-whole crc32 cut o short' is_good' (omega arith)
                          ∙ ap (λ x. checked_with x (slice cut at x.fragment_size)) same
                          ∙ ap (checked_with header) payload
                          ∙ sym (load_fragment-whole crc32 file o short is_good (omega arith)))
                  ]
            ]
      ]

  -- A cut file answers as the whole one does, or as one that ends.
  pub load_fragment-take :
      (file : List ℕ) (n o : ℕ)
      → IsShort file
      → n ≤ length file
      → o ≤ n
      → (load_fragment crc32 (take n file) o ≡ load_fragment crc32 file o)
        ⊎ ((load_fragment crc32 (take n file) o ≡ ok (none, n))
            ⊎ (load_fragment crc32 (take n file) o ≡ fail unexpected_eof))
  load_fragment-take file n o short h k =
      let cut = take n file in
      let size : length cut ≡ n = omega (arith, length-take n file) in
      let short' : IsShort cut = omega arith in
      let start = start_of o in
      elim (Bool-cases (leb n start)) [
        | inl e ↦ inr (
            inl (
              load_fragment-end crc32 cut o short' (omega arith) (ground arith)
              ∙ ap (λ m. ok (none, m)) size))
        | inr e₁ ↦ elim (Bool-cases (ltb n (start + 22))) [
          | inl e ↦ inr (
              inr (
                load_fragment-no_header crc32 cut o short' (omega arith) (ground arith)
                  (ground arith)))
          | inr e₂ ↦
              let inside : start + 22 ≤ n = ground arith in
              load_fragment-take_header file n o short h inside
        ]
      ]
