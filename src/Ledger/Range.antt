-- ===== src/Ledger/Range.antt =====
-- The pair of sequence numbers that `commitTxns` answers with.
use indy_plenum.Prelude.{
  ℕ, zero, suc, ◌+◌, ◌≤◌, ◌<◌, ◌≡◌, refl, sym, ap, List, [], ◌∷◌, length, arith,
}
use indy_plenum.Ledger.{Txn, MerkleInfo, take, seq_no_range}

-- What the pair of numbers is, for `n` of the `pending` transactions after `size` others.
pub record IsRange (size n : ℕ) (pending : List Txn) (range : ℕ × ℕ) : Type 0 where
  -- Enough of them: the first and the last number of those that were committed.
  exact : 0 < n → n ≤ length pending → range ≡ (size + 1, size + length (take n pending))
  -- None of them: the size twice.
  nothing : length (take n pending) ≡ 0 → range ≡ (size, size)
  -- Some, but fewer than `n`: the second number is above the last one that was committed.
  beyond :
      0 < length pending
      → length pending < n
      → (range.0 ≡ size + 1) × (size + length (take n pending) < range.1)

length-take : (n : ℕ) (ts : List Txn) → n ≤ length ts → length (take n ts) ≡ n
length-take zero ts h = refl
length-take (suc n) [] h = absurd (omega (arith, h))
length-take (suc n) (t ∷ ts) h = omega (arith, length-take n ts (omega (arith, h)))

length-take_all : (n : ℕ) (ts : List Txn) → length ts < n → length (take n ts) ≡ length ts
length-take_all zero ts h = absurd (omega (arith, h))
length-take_all (suc n) [] h = refl
length-take_all (suc n) (t ∷ ts) h = omega (arith, length-take_all n ts (omega (arith, h)))

pub seq_no_range-IsRange :
    (size n : ℕ) (pending : List Txn) (committed : List (Txn × MerkleInfo))
    → length committed ≡ length (take n pending)
    → IsRange size n pending (seq_no_range size n committed)
seq_no_range-IsRange size n pending [] e = record {
  exact = λ more le. absurd (omega (arith, more, length-take n pending le, e));
  nothing = λ gone. refl;
  beyond = λ more few. absurd (omega (arith, more, length-take_all n pending few, e));
}
seq_no_range-IsRange size n pending (x ∷ xs) e = record {
  exact = λ more le. ap (λ (k : ℕ). (size + 1, size + k)) (sym (length-take n pending le));
  nothing = λ gone. absurd (omega (arith, gone, e));
  beyond = λ more few. (refl, omega (arith, few, length-take_all n pending few));
}
