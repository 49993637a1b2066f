-- ===== src/Bytes.antt =====
-- Numbers as little-endian bytes: `kvdb::endian` of src/utils/endian_io.cpp. A byte is a number below
-- 256. `(value >> shift) & 0xff` is a division by a power of two and a remainder; the bytes that a
-- read joins by `|` after disjoint shifts are summed.
mod Tests
use kvdb.Base.{
  ℕ, zero, suc, ◌+◌, ◌-◌, ◌*◌, ◌/◌, ◌%◌, ◌^◌, ◌≤◌, ◌<◌, ◌≡◌, refl, sym, ap, ◌∙◌, List, [], ◌∷◌,
  ◌++◌, length, drop, take, slice, ltb, ◌==◌, if◌then◌else◌, Option, none, some, arith, All,
}
use kvdb.Status.{Result, ok, fail, invalid_argument}

-- The loop over the shifts 0, 8, 16, …: the `n` lowest bytes of a value.
abbrev pub le_bytes : ℕ → ℕ → List ℕ
le_bytes zero value = []
le_bytes (suc n) value = (value % 256) ∷ le_bytes n (value / 256)

abbrev pub of_le_bytes : List ℕ → ℕ
of_le_bytes [] = 0
of_le_bytes (b ∷ bs) = b + 256 * of_le_bytes bs

unfoldable pub put_u8 : List ℕ → ℕ → List ℕ
put_u8 out value = out ++ le_bytes 1 value

unfoldable pub put_u16_le : List ℕ → ℕ → List ℕ
put_u16_le out value = out ++ le_bytes 2 value

unfoldable pub put_u32_le : List ℕ → ℕ → List ℕ
put_u32_le out value = out ++ le_bytes 4 value

unfoldable pub put_u64_le : List ℕ → ℕ → List ℕ
put_u64_le out value = out ++ le_bytes 8 value

unfoldable pub put_bytes_with_u32_size : List ℕ → List ℕ → Result (List ℕ)
unfolding put_u32_le
put_bytes_with_u32_size out bytes =
    if ltb (2 ^ 32 - 1) (length bytes)
    then fail invalid_argument
    else ok (put_u32_le out (length bytes) ++ bytes)

-- A read of a stream: the value and the bytes after it, or nothing if too few bytes are left.
unfoldable pub read_u8 : List ℕ → Option (ℕ × List ℕ)
read_u8 input =
    if ltb (length input) 1 then none else some (of_le_bytes (take 1 input), drop 1 input)

unfoldable pub read_u64_le : List ℕ → Option (ℕ × List ℕ)
read_u64_le input =
    if ltb (length input) 8 then none else some (of_le_bytes (take 8 input), drop 8 input)

abbrev pub read_sized : ℕ → List ℕ → Option (List ℕ × List ℕ)
read_sized size input =
    if ltb (length input) size then none else some (take size input, drop size input)

unfoldable pub read_bytes_with_u32_size : List ℕ → Option (List ℕ × List ℕ)
read_bytes_with_u32_size input =
    if ltb (length input) 4 then none else read_sized (of_le_bytes (take 4 input)) (drop 4 input)

pub length-le_bytes : (n value : ℕ) → length (le_bytes n value) ≡ n
length-le_bytes zero value = refl
length-le_bytes (suc n) value = omega (arith, length-le_bytes n (value / 256))

pub of_le_bytes-1 : (value : ℕ) → value < 2 ^ 8 → of_le_bytes (le_bytes 1 value) ≡ value
of_le_bytes-1 value h = omega arith

pub of_le_bytes-4 : (value : ℕ) → value < 2 ^ 32 → of_le_bytes (le_bytes 4 value) ≡ value
of_le_bytes-4 value h = omega arith

pub of_le_bytes-8 : (value : ℕ) → value < 2 ^ 64 → of_le_bytes (le_bytes 8 value) ≡ value
of_le_bytes-8 value h = omega arith
