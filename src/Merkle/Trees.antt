-- ===== src/Merkle/Trees.antt =====
-- Perfect binary trees over leaves, and the forest of them whose sizes are the binary digits of the
-- number of leaves: what the hashes of a CompactMerkleTree stand for.
use mathlib.Core.List.{append_assoc}
use native.Mathlib.Nat.{pow-suc, pow-le-pow_right}
use indy_plenum.Prelude.{
  ℕ, suc, ◌^◌, ◌≤◌, ◌<◌, ◌≡◌, refl, sym, ◌∙◌, ap, List, [], ◌∷◌, ◌++◌, map, arith, length,
  length-append,
}
use indy_plenum.Merkle.Hasher.{Bytes, hash_leaf, hash_children}
use indy_plenum.Merkle.Bits.Laws.{IsAscending, total}

pub data Tree : Type 0 where
  leaf : Bytes → Tree
  node : Tree → Tree → Tree

abbrev pub height : Tree → ℕ
height (leaf d) = 0
height (node l r) = suc (height l)

abbrev pub leaves : Tree → List Bytes
leaves (leaf d) = d ∷ []
leaves (node l r) = leaves l ++ leaves r

abbrev pub IsPerfect : Tree → Type 0
IsPerfect (leaf d) = Unit
IsPerfect (node l r) = (height l ≡ height r) × IsPerfect l × IsPerfect r

pub length-leaves : (t : Tree) → IsPerfect t → length (leaves t) ≡ 2 ^ height t
length-leaves (leaf d) p = omega arith
length-leaves (node l r) p = omega (
  arith,
  length-append (leaves l) (leaves r),
  length-leaves l p.1,
  length-leaves r p.2,
  ap (λ (k : ℕ). 2 ^ k) p.0,
  pow-suc 2 (height l),
)

module _ (digest : Bytes → Bytes) where
  unfoldable pub root : Tree → Bytes
  root (leaf d) = hash_leaf digest d
  root (node l r) = hash_children digest (root l) (root r)

-- The smallest tree first, each higher than the ones before it.
abbrev pub IsForest : ℕ → List Tree → Type 0
IsForest h [] = Unit
IsForest h (t ∷ f) = (h ≤ height t) × IsPerfect t × IsForest (suc (height t)) f

-- The leaves from the left to the right, which begin with those of the largest tree.
abbrev pub joined : List Tree → List Bytes
joined [] = []
joined (t ∷ f) = joined f ++ leaves t

pub IsAscending-heights : (h : ℕ) (f : List Tree) → IsForest h f → IsAscending h (map height f)
IsAscending-heights h [] p = tt
IsAscending-heights h (t ∷ f) p = (p.0, IsAscending-heights (suc (height t)) f p.2)

pub length-joined :
    (h : ℕ) (f : List Tree) → IsForest h f → length (joined f) ≡ total (map height f)
length-joined h [] p = refl
length-joined h (t ∷ f) p = omega (
  arith,
  length-append (joined f) (leaves t),
  length-leaves t p.1,
  length-joined (suc (height t)) f p.2,
)

-- The largest tree first, each larger than all the ones after it together.
abbrev pub IsDescending : List Tree → Type 0
IsDescending [] = Unit
IsDescending (t ∷ f) = IsPerfect t × (total (map height f) < 2 ^ height t) × IsDescending f

abbrev pub joined_down : List Tree → List Bytes
joined_down [] = []
joined_down (t ∷ f) = leaves t ++ joined_down f

abbrev pub turn : List Tree → List Tree → List Tree
turn [] acc = acc
turn (t ∷ f) acc = turn f (t ∷ acc)

pub turn-IsDescending :
    (h : ℕ) (f acc : List Tree)
    → IsForest h f
    → IsDescending acc
    → total (map height acc) < 2 ^ h
    → IsDescending (turn f acc)
turn-IsDescending h [] acc p d s = d
turn-IsDescending h (t ∷ f) acc p d s =
    let below : 2 ^ h ≤ 2 ^ height t = pow-le-pow_right (omega arith) p.0 in
    turn-IsDescending (suc (height t)) f (t ∷ acc) p.2 (p.1, omega (arith, s, below), d)
      (omega (arith, s, below, pow-suc 2 (height t)))

pub joined_down-turn : (f acc : List Tree) → joined_down (turn f acc) ≡ joined f ++ joined_down acc
joined_down-turn [] acc = refl
joined_down-turn (t ∷ f) acc =
    joined_down-turn f (t ∷ acc) ∙ sym (append_assoc (joined f) (leaves t) (joined_down acc))

pub length-joined_down :
    (f : List Tree) → IsDescending f → length (joined_down f) ≡ total (map height f)
length-joined_down [] p = refl
length-joined_down (t ∷ f) p =
    omega (
      arith,
      length-append (leaves t) (joined_down f),
      length-leaves t p.0,
      length-joined_down f p.2,
    )
