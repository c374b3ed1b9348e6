-- ===== src/Merkle/Bits/Laws.antt =====
-- The loops of ledger/util.py on a number given by the places of its bits.
use Prim.Native.Nat.{min, digits, bit_and, bit_and-bitwise}
use native.Mathlib.Nat.{pow-suc, one-le-pow, sub-zero}
use indy_plenum.Prelude.{
  ℕ, zero, suc, ◌+◌, ◌-◌, ◌*◌, ◌/◌, ◌%◌, ◌^◌, ◌≤◌, ◌<◌, ◌≡◌, refl, ap, ◌∙◌, sym, List, [], ◌∷◌,
  arith, length,
}
use indy_plenum.Merkle.Bits.{
  without_lowest, count_bits_loop, count_bits_set, highest_bit_loop, highest_bit_set,
  lowest_bit_set,
}

-- The native `&` stands for a recursion on digits with some fuel, `conj`; any fuel that is not below the
-- left number gives the same. The bound `k` is what the induction goes by.
abbrev conj : ℕ → ℕ → ℕ → ℕ
conj = digits (λ right. 0) min

conj-bit_and :
    (k fuel left right : ℕ) → left ≤ fuel → fuel ≤ k → conj fuel left right ≡ bit_and left right
conj-bit_and k zero zero right here low = sym (bit_and-bitwise 0 right)
conj-bit_and k zero (suc left) right here low = absurd (omega (arith, here))
conj-bit_and k (suc fuel) zero right here low = sym (bit_and-bitwise 0 right)
conj-bit_and zero (suc fuel) (suc left) right here low = absurd (omega (arith, low))
conj-bit_and (suc k) (suc fuel) (suc left) right here low =
    let half : ℕ = suc left / 2 in
    let one_way = conj-bit_and k fuel half (right / 2) (omega (arith, here)) (omega (arith, low)) in
    let other_way = conj-bit_and k left half (right / 2) (omega arith) (omega (arith, here, low)) in
    omega (arith, one_way, other_way, bit_and-bitwise (suc left) right)

-- The lowest digit of `&`, and the others.
bit_and-half :
    (left right : ℕ)
    → bit_and left right ≡ 2 * bit_and (left / 2) (right / 2) + min (left % 2) (right % 2)
bit_and-half zero right = omega (arith, bit_and-bitwise 0 right, bit_and-bitwise 0 (right / 2))
bit_and-half (suc left) right =
    let below = conj-bit_and left left (suc left / 2) (right / 2) (omega arith) (omega arith) in
    omega (arith, below, bit_and-bitwise (suc left) right)

-- `a & a` is `a`, for numbers up to a bound.
self_below : (bound a : ℕ) → a ≤ bound → bit_and a a ≡ a
self_below bound zero low = bit_and-bitwise 0 0
self_below zero (suc a) low = absurd (omega (arith, low))
self_below (suc bound) (suc a) low =
    let rest = self_below bound (suc a / 2) (omega (arith, low)) in
    omega (arith, rest, bit_and-half (suc a) (suc a))

bit_and_self : (a : ℕ) → bit_and a a ≡ a
bit_and_self a = self_below a a (omega arith)

without_lowest-odd : (a : ℕ) → without_lowest (2 * a + 1) ≡ 2 * a
unfolding without_lowest
without_lowest-odd a =
    let here : (2 * a + 1) / 2 ≡ a = omega arith in
    let there : (2 * a + 1 - 1) / 2 ≡ a = omega arith in
    let step = bit_and-half (2 * a + 1) (2 * a + 1 - 1) in
    omega (arith, rw (here, there) at step, bit_and_self a)

without_lowest-even : (a : ℕ) → 0 < a → without_lowest (2 * a) ≡ 2 * without_lowest a
unfolding without_lowest
without_lowest-even a h =
    let here : 2 * a / 2 ≡ a = omega arith in
    let there : (2 * a - 1) / 2 ≡ a - 1 = omega arith in
    let step = bit_and-half (2 * a) (2 * a - 1) in omega (arith, rw (here, there) at step)

-- The lowest bit of `n` stands at place `k`, and the rest is `m` above it.
pub without_lowest_lem : (k m n : ℕ) → n ≡ 2 ^ k + m * 2 ^ suc k → without_lowest n ≡ m * 2 ^ suc k
without_lowest_lem zero m n h =
    let is : n ≡ 2 * m + 1 = omega (arith, h) in rw is (without_lowest-odd m ∙ omega arith)
without_lowest_lem (suc k) m n h =
    let half : ℕ = 2 ^ k + m * 2 ^ suc k in
    let is : n ≡ 2 * half =
      omega (arith, h, pow-suc 2 k, ap (λ (t : ℕ). m * t) (pow-suc 2 (suc k))) in
    let rest = without_lowest_lem k m half refl in
    let some_left : 0 < half = omega (arith, one-le-pow k 2 (omega arith)) in
    omega (
      arith,
      ap without_lowest is,
      without_lowest-even half some_left,
      rest,
      ap (λ (t : ℕ). m * t) (pow-suc 2 (suc k)),
    )

highest_bit_loop-zero : (f b : ℕ) → highest_bit_loop f 0 b ≡ b
unfolding highest_bit_loop
highest_bit_loop-zero zero b = refl
highest_bit_loop-zero (suc f) b = refl

highest_bit_loop_lem :
    (k f n b : ℕ) → 2 ^ k ≤ n → n < 2 ^ suc k → k < f → highest_bit_loop f n b ≡ b + suc k
unfolding highest_bit_loop
highest_bit_loop_lem k zero n b p q r = absurd (omega arith)
highest_bit_loop_lem zero (suc f) n b p q r =
    let one : n ≡ 1 = omega (arith, p, q) in rw one (highest_bit_loop-zero f (b + 1))
highest_bit_loop_lem (suc k) (suc f) n b p q r = ground (
  arith,
  pow-suc 2 k,
  pow-suc 2 (suc k),
  one-le-pow k 2 (omega arith),
  highest_bit_loop_lem k f (n / 2) (b + 1),
)

pub lt-pow2 : (k : ℕ) → k < 2 ^ k
lt-pow2 zero = omega arith
lt-pow2 (suc k) = omega (arith, pow-suc 2 k, lt-pow2 k)

-- Python's `n.bit_length()` is `highest_bit_set(n)`.
pub highest_bit_set_lem : (k n : ℕ) → 2 ^ k ≤ n → n < 2 ^ suc k → highest_bit_set n ≡ suc k
unfolding highest_bit_set
highest_bit_set_lem k n p q =
    highest_bit_loop_lem k n n 0 p q (omega (arith, lt-pow2 k, p)) ∙ omega arith

pub lowest_bit_set_lem : (k m n : ℕ) → n ≡ 2 ^ k + m * 2 ^ suc k → lowest_bit_set n ≡ suc k
unfolding lowest_bit_set
lowest_bit_set_lem k m n h =
    let low : n - without_lowest n ≡ 2 ^ k = omega (arith, h, without_lowest_lem k m n h) in
    rw low (
      highest_bit_set_lem k (2 ^ k) (omega arith)
        (omega (arith, pow-suc 2 k, one-le-pow k 2 (omega arith))))

-- The places of the bits of a number, the lowest first, none below `h`.
abbrev pub IsAscending : ℕ → List ℕ → Type 0
IsAscending h [] = Unit
IsAscending h (k ∷ ks) = (h ≤ k) × IsAscending (suc k) ks

abbrev pub total : List ℕ → ℕ
total [] = 0
total (k ∷ ks) = 2 ^ k + total ks

pow_multiple : (h k : ℕ) → h ≤ k → (m : ℕ) × (2 ^ k ≡ m * 2 ^ h)
pow_multiple zero k p = (2 ^ k, omega arith)
pow_multiple (suc h) zero p = absurd (omega arith)
pow_multiple (suc h) (suc k) p =
    let (m, e) = pow_multiple h k (omega arith) in
    (m, omega (arith, e, pow-suc 2 k, ap (λ (t : ℕ). m * t) (pow-suc 2 h)))

-- Bits from place `h` on make a multiple of `2 ^ h`.
pub total_multiple : (h : ℕ) (ks : List ℕ) → IsAscending h ks → (m : ℕ) × (total ks ≡ m * 2 ^ h)
total_multiple h [] a = (0, omega arith)
total_multiple h (k ∷ ks) a =
    let (m, e) = total_multiple (suc k) ks a.1 in
    let (n, e') = pow_multiple h k a.0 in
    let twice : m * 2 ^ suc k ≡ 2 * m * 2 ^ k =
      omega (arith, ap (λ (t : ℕ). m * t) (pow-suc 2 k)) in
    (n + 2 * m * n, omega (arith, e, e', twice, ap (λ (t : ℕ). 2 * m * t) e'))

pub without_lowest-total :
    (h k : ℕ) (ks : List ℕ) → IsAscending h (k ∷ ks) → without_lowest (total (k ∷ ks)) ≡ total ks
without_lowest-total h k ks a =
    let (m, e) = total_multiple (suc k) ks a.1 in
    without_lowest_lem k m (total (k ∷ ks)) (omega (arith, e)) ∙ sym e

pub lowest_bit_set-total :
    (h k : ℕ) (ks : List ℕ) → IsAscending h (k ∷ ks) → lowest_bit_set (total (k ∷ ks)) ≡ suc k
lowest_bit_set-total h k ks a =
    let (m, e) = total_multiple (suc k) ks a.1 in
    lowest_bit_set_lem k m (total (k ∷ ks)) (omega (arith, e))

pub length-le-total : (ks : List ℕ) → length ks ≤ total ks
length-le-total [] = omega arith
length-le-total (k ∷ ks) = omega (arith, length-le-total ks, one-le-pow k 2 (omega arith))

count_bits_loop_lem :
    (h f c : ℕ) (ks : List ℕ)
    → IsAscending h ks
    → length ks ≤ f
    → count_bits_loop f (total ks) c ≡ c + length ks
unfolding count_bits_loop
count_bits_loop_lem h zero c [] a r = omega arith
count_bits_loop_lem h zero c (k ∷ ks) a r = absurd (omega arith)
count_bits_loop_lem h (suc f) c [] a r = omega arith
count_bits_loop_lem h (suc f) c (k ∷ ks) a r =
    let rest : count_bits_loop f (without_lowest (total (k ∷ ks))) (c + 1) ≡ c + 1 + length ks =
      rw (without_lowest-total h k ks a)
        (count_bits_loop_lem (suc k) f (c + 1) ks a.1 (omega arith)) in
    ground (arith, one-le-pow k 2 (omega arith), rest)

-- The loop of `count_bits_set` counts the bits, and the fuel is enough.
pub count_bits_set-total :
    (h : ℕ) (ks : List ℕ) → IsAscending h ks → count_bits_set (total ks) ≡ length ks
unfolding count_bits_set
count_bits_set-total h ks a =
    count_bits_loop_lem h (total ks) 0 ks a (length-le-total ks) ∙ omega arith

-- The number with its lowest `j` places cut off.
abbrev pub total_from : ℕ → List ℕ → ℕ
total_from j [] = 0
total_from j (k ∷ ks) = 2 ^ (k - j) + total_from j ks

pub total_from-zero : (ks : List ℕ) → total_from 0 ks ≡ total ks
total_from-zero [] = refl
total_from-zero (k ∷ ks) = omega (arith, total_from-zero ks, ap (λ (n : ℕ). 2 ^ n) (sub-zero k))

-- No bit at place `j`: the number is even there.
pub total_from-even :
    (j i : ℕ) (ks : List ℕ)
    → suc j ≤ i
    → IsAscending i ks
    → total_from j ks ≡ 2 * total_from (suc j) ks
total_from-even j i [] b a = omega arith
total_from-even j i (k ∷ ks) b a =
    let next : k - j ≡ suc (k - suc j) = omega (arith, b, a.0) in
    omega (
      arith,
      ap (λ (n : ℕ). 2 ^ n) next,
      pow-suc 2 (k - suc j),
      total_from-even j (suc k) ks (omega (arith, b, a.0)) a.1,
    )

-- A bit at place `j`: the number is odd there.
pub total_from-odd :
    (j k : ℕ) (ks : List ℕ)
    → k ≡ j
    → IsAscending (suc k) ks
    → total_from j (k ∷ ks) ≡ 2 * total_from (suc j) ks + 1
total_from-odd j k ks e a =
    let none_left : k - j ≡ 0 = omega (arith, e) in
    omega
      (arith, ap (λ (n : ℕ). 2 ^ n) none_left, total_from-even j (suc k) ks (omega (arith, e)) a)

pub total_from-pos : (j k : ℕ) (ks : List ℕ) → 0 < total_from j (k ∷ ks)
total_from-pos j k ks = omega (arith, one-le-pow (k - j) 2 (omega arith))
