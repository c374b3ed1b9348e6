-- ===== src/Merkle/Hasher/Full.antt =====
-- `_hash_full` of tree_hasher.py on the leaves of a forest.
use native.Mathlib.Nat.{pow-suc, one-le-pow}
use indy_plenum.Prelude.{
  ℕ, zero, suc, ◌+◌, ◌-◌, ◌*◌, ◌^◌, ◌≤◌, ◌<◌, ◌≡◌, refl, sym, ap, subst, List, [], ◌∷◌, ◌++◌, map,
  arith, length, get_elem?, if◌then◌else◌, ◌==◌, some, ==_iff, lt→ltb, le→leb, length-append, true,
  false,
}
use indy_plenum.Merkle.Result.{ok}
use indy_plenum.Merkle.Bits.Laws.{highest_bit_set_lem, total}
use indy_plenum.Merkle.Hasher.{Bytes, split_width, hash_full, hash_leaf, hash_children}
use indy_plenum.Merkle.Hasher.Slices.{IsAt, IsAt-le, IsAt-left, IsAt-right}
use indy_plenum.Merkle.Trees.{
  Tree, leaf, node, height, leaves, IsPerfect, length-leaves, root, IsDescending, joined_down,
  length-joined_down,
}

-- The power of two that is next below a width.
pub split_width_lem : (k width : ℕ) → 2 ^ k < width → width ≤ 2 ^ suc k → split_width width ≡ 2 ^ k
unfolding split_width
split_width_lem k width p q =
    rw (highest_bit_set_lem k (width - 1) (omega (arith, p)) (omega (arith, p, q)))
      (ap (λ (n : ℕ). 2 ^ n) (omega arith))

module _ (digest : Bytes → Bytes) where
  abbrev pub fold_down : Tree → List Tree → Bytes
  fold_down t [] = root digest t
  fold_down t (u ∷ d) = hash_children digest (root digest t) (fold_down u d)

module _ (digest : Bytes → Bytes) (all : List Bytes) where
  hash_full-leaf :
      (f l r : ℕ) (d : Bytes)
      → get_elem? all l ≡ some d
      → r ≡ l + 1
      → r ≤ length all
      → hash_full digest (suc f) all l r ≡ ok (hash_leaf digest d, hash_leaf digest d ∷ [])
  unfolding hash_full
  hash_full-leaf f l r d at_l e inside = ground (arith, at_l)

  -- The two halves of a range joined.
  hash_full-join :
      (f l r k : ℕ) (l_root r_root h : Bytes) (r_hashes : List Bytes)
      → r ≤ length all
      → l + 2 ^ k < r
      → r ≤ l + 2 ^ suc k
      → hash_full digest f all l (l + 2 ^ k) ≡ ok (l_root, h ∷ [])
      → hash_full digest f all (l + 2 ^ k) r ≡ ok (r_root, r_hashes)
      → hash_full digest (suc f) all l r
        ≡ ok (
          hash_children digest l_root r_root,
          if 2 ^ k * 2 == r - l then hash_children digest l_root r_root ∷ [] else h ∷ r_hashes,
        )
  unfolding hash_full
  hash_full-join f l r k l_root r_root h r_hashes inside more most left right =
      let split = split_width_lem k (r - l) (omega arith) (omega arith) in
      let low = lt→ltb (2 ^ k) (r - l) (omega arith) in
      let high = le→leb (r - l) (2 * 2 ^ k) (omega (arith, pow-suc 2 k)) in
      let some_left = one-le-pow k 2 (omega arith) in
      rw (split, left, right, low, high) (ground (arith, some_left))

  pub hash_full-perfect :
      (t : Tree) (f l r : ℕ)
      → IsPerfect t
      → IsAt all l (leaves t)
      → r ≡ l + 2 ^ height t
      → 2 ^ height t ≤ f
      → hash_full digest f all l r ≡ ok (root digest t, root digest t ∷ [])
  unfolding root
  hash_full-perfect (leaf d) zero l r p at_l e fuel = absurd (omega arith)
  hash_full-perfect (leaf d) (suc f) l r p at_l e fuel =
      hash_full-leaf f l r d at_l.0 (omega arith) (omega (arith, IsAt-le all l (d ∷ []) at_l))
  hash_full-perfect (node a b) zero l r p at_l e fuel =
      absurd (omega (arith, one-le-pow (suc (height a)) 2 (omega arith)))
  hash_full-perfect (node a b) (suc f) l r p at_l e fuel =
      let k = height a in
      let double = pow-suc 2 k in
      let some_left = one-le-pow k 2 (omega arith) in
      let same : 2 ^ height b ≡ 2 ^ k = ap (λ (n : ℕ). 2 ^ n) (sym p.0) in
      let wide = length-leaves a p.1 in
      let inside = IsAt-le all l (leaves a ++ leaves b) at_l in
      let at_b = IsAt-right all l (leaves a) (leaves b) at_l in
      let left =
        hash_full-perfect a f l (l + 2 ^ k) p.1 (IsAt-left all l (leaves a) (leaves b) at_l) refl
          (omega (arith, double, some_left, fuel)) in
      let right =
        hash_full-perfect b f (l + 2 ^ k) r p.2
          (subst (λ (n : ℕ). IsAt all (l + n) (leaves b)) wide at_b)
          (omega (arith, double, same, e)) (omega (arith, double, some_left, same, fuel)) in
      let whole =
        hash_full-join f l r k (root digest a) (root digest b) (root digest a) (root digest b ∷ [])
          (omega (
            arith,
            inside,
            length-append (leaves a) (leaves b),
            wide,
            length-leaves b p.2,
            same,
            double,
            e,
          ))
          (omega (arith, double, some_left, e)) (omega (arith, e)) left right in
      let full : (2 ^ k * 2 == r - l) ≡ true = (==_iff _ _).1 (omega (arith, double, e)) in
      rw full at whole

  -- Each larger tree is the left half of what is left.
  pub hash_full-down :
      (t : Tree) (d : List Tree) (f l r : ℕ)
      → IsDescending (t ∷ d)
      → IsAt all l (joined_down (t ∷ d))
      → r ≡ l + total (map height (t ∷ d))
      → total (map height (t ∷ d)) ≤ f
      → hash_full digest f all l r ≡ ok (fold_down digest t d, map (root digest) (t ∷ d))
  hash_full-down t [] f l r p at_l e fuel =
      hash_full-perfect t f l r p.0 (IsAt-left all l (leaves t) [] at_l) (omega (arith, e))
        (omega (arith, fuel))
  hash_full-down t (u ∷ d) zero l r p at_l e fuel =
      absurd (omega (arith, one-le-pow (height t) 2 (omega arith)))
  hash_full-down t (u ∷ d) (suc f) l r p at_l e fuel =
      let k = height t in
      let double = pow-suc 2 k in
      let some_here = one-le-pow k 2 (omega arith) in
      let some_left = one-le-pow (height u) 2 (omega arith) in
      let rest = joined_down (u ∷ d) in
      let wide = length-leaves t p.0 in
      let inside = IsAt-le all l (leaves t ++ rest) at_l in
      let at_u = IsAt-right all l (leaves t) rest at_l in
      let left =
        hash_full-perfect t f l (l + 2 ^ k) p.0 (IsAt-left all l (leaves t) rest at_l) refl
          (omega (arith, some_left, fuel)) in
      let right =
        hash_full-down u d f (l + 2 ^ k) r p.2 (subst (λ (n : ℕ). IsAt all (l + n) rest) wide at_u)
          (omega (arith, e)) (omega (arith, some_here, fuel)) in
      let whole =
        hash_full-join f l r k (root digest t) (fold_down digest u d) (root digest t)
          (map (root digest) (u ∷ d))
          (omega
            (arith, inside, length-append (leaves t) rest, wide, length-joined_down (u ∷ d) p.2, e))
          (omega (arith, some_left, e)) (omega (arith, double, p.1, e)) left right in
      let partial : (2 ^ k * 2 == r - l) ≡ false = ground (arith, p.1, e) in rw partial at whole
