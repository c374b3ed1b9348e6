-- ===== src/Merkle/Bits.antt =====
-- The counts and positions of bits of ledger/util.py, by Python's `&` and `>>` on natural numbers.
pub mod Laws
use indy_plenum.Prelude.{ℕ, zero, suc, ◌+◌, ◌-◌, ◌/◌, ◌^◌, ◌*◌, Bool, ltb, ◌==◌, if◌then◌else◌}
use Prim.Native.Nat.{bit_and}

-- `i & (i - 1)`
pub without_lowest : ℕ → ℕ
without_lowest i = bit_and i (i - 1)

-- The loop runs once for each bit that is set, which is at most `i` times.
pub count_bits_loop : ℕ → ℕ → ℕ → ℕ
count_bits_loop zero i c = c
count_bits_loop (suc fuel) i c =
    let rest = count_bits_loop fuel (without_lowest i) (c + 1) in if i == 0 then c else rest

unfoldable pub count_bits_set : ℕ → ℕ
unfolding count_bits_loop without_lowest
count_bits_set i = count_bits_loop i i 0

unfoldable pub is_power_of2 : ℕ → Bool
is_power_of2 i = count_bits_set i == 1

pub highest_bit_loop : ℕ → ℕ → ℕ → ℕ
highest_bit_loop zero hi hi_bit = hi_bit
highest_bit_loop (suc fuel) hi hi_bit =
    let rest = highest_bit_loop fuel (hi / 2) (hi_bit + 1) in if hi == 0 then hi_bit else rest

unfoldable pub highest_bit_set : ℕ → ℕ
unfolding highest_bit_loop
highest_bit_set i = highest_bit_loop i i 0

-- `i & -i`. In two's complement `-i` is the complement of `i - 1`, so that this is `i` without the
-- bits of `i & (i - 1)`.
unfoldable pub lowest_bit_set : ℕ → ℕ
unfolding highest_bit_set without_lowest
lowest_bit_set i = highest_bit_set (i - without_lowest i)

unfoldable pub has_nth_bit_set : ℕ → ℕ → Bool
has_nth_bit_set number n = ltb 0 (bit_and (1 * 2 ^ n) number)

-- `n.bit_length() - 1`, which is -1 in Python at 0
unfoldable pub highest_power_of2_less_than : ℕ → ℕ
unfolding highest_bit_set
highest_power_of2_less_than n = highest_bit_set n - 1
