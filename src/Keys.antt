-- ===== src/Keys.antt =====
-- 3PC keys (view number, sequence number): `compare_3PC_keys` of plenum/common/util.py.
use indy_plenum.Prelude.{ℕ, ℤ, sub_ℕ}

-- Positive if the second key is greater, negative if it is lower. Only the sequence numbers count.
unfoldable pub compare_3pc_keys : ℕ × ℕ → ℕ × ℕ → ℤ
compare_3pc_keys key1 key2 = sub_ℕ key2.1 key1.1
