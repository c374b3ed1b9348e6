-- ===== src/Merkle/Result.antt =====
-- What a method of the ledger package returns or raises.
use indy_plenum.Prelude.{Bool, if◌then◌else◌}

pub data Exception : Type 0 where
  value_error index_error assertion_error stop_iteration consistency_error proof_error
        consistency_verification_failed logic_error plenum_value_error :
      Exception

pub data Result {ℓ} (A : Type ℓ) : Type ℓ where
  ok : A → Result A
  raised : Exception → Result A

infixl 5 ◌>>=◌ ◌>>◌
-- What follows a statement runs unless the statement raised.
abbrev pub ◌>>=◌ {ℓ κ} : {A : Type ℓ} {B : Type κ} → Result A → (A → Result B) → Result B
raised e >>= rest = raised e
ok value >>= rest = rest value

abbrev pub ◌>>◌ {ℓ} : {B : Type ℓ} → Result (Unit {0}) → Result B → Result B
first >> rest = first >>= λ _. rest

-- `if not test: raise e`, which is also `assert test`.
abbrev pub check : Bool → Exception → Result (Unit {0})
check test e = if test then ok tt else raised e
