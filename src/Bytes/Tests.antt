-- ===== src/Bytes/Tests.antt =====
-- Runs of the byte encoding.
use kvdb.Base.{◌≡◌, refl, [], ◌∷◌, none}
use kvdb.Bytes.{put_u32_le, read_bytes_with_u32_size, put_bytes_with_u32_size}
use kvdb.Status.{ok}

put_number : put_u32_le (7 ∷ []) 0x12345678 ≡ 7 ∷ 0x78 ∷ 0x56 ∷ 0x34 ∷ 0x12 ∷ []
unfolding put_u32_le
put_number = refl

put_sized : put_bytes_with_u32_size [] (9 ∷ 8 ∷ []) ≡ ok (2 ∷ 0 ∷ 0 ∷ 0 ∷ 9 ∷ 8 ∷ [])
unfolding put_bytes_with_u32_size
put_sized = refl

read_short : read_bytes_with_u32_size (2 ∷ 0 ∷ 0 ∷ 0 ∷ 9 ∷ []) ≡ none
unfolding read_bytes_with_u32_size
read_short = refl
