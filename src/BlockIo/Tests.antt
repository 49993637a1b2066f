-- ===== src/BlockIo/Tests.antt =====
-- Reads of a file whose calls of `read_at` give two bytes at most.
use kvdb.Base.{ℕ, ◌-◌, ◌≡◌, refl, min, List, [], ◌∷◌, arith}
use kvdb.Status.{ok, fail, unexpected_eof}
use kvdb.BlockIo.{read_exact_at}
use kvdb.BlockIo.ShortReads.{IsReadAt, read_loop, read_loop-read_exact_at}

abbrev five_bytes : List ℕ
five_bytes = 1 ∷ 2 ∷ 3 ∷ 4 ∷ 5 ∷ []

abbrev two_at_most : ℕ → ℕ → ℕ
two_at_most offset size = min (min size 2) (5 - offset)

two_at_most-IsReadAt : IsReadAt two_at_most five_bytes
two_at_most-IsReadAt = record {
  within = λ offset size. omega arith;
  inside = λ offset size. omega arith;
  some_bytes = λ offset size h k. omega arith;
}

read_loop-read_exact_at_example :
    read_loop two_at_most five_bytes 4 1 4 0 [] ≡ read_exact_at five_bytes 1 4
read_loop-read_exact_at_example =
    read_loop-read_exact_at two_at_most five_bytes two_at_most-IsReadAt 1 4

in_two_rounds : read_loop two_at_most five_bytes 4 1 4 0 [] ≡ ok (2 ∷ 3 ∷ 4 ∷ 5 ∷ [], 5)
unfolding read_loop
in_two_rounds = refl

too_short : read_loop two_at_most five_bytes 5 1 5 0 [] ≡ fail unexpected_eof
unfolding read_loop
too_short = refl
