-- ===== src/Merkle/Compact/Forest.antt =====
-- A CompactMerkleTree that stands for a forest of perfect trees, and the carry of a new subtree.
use mathlib.Core.List.{reverse, reverse-cons}
use indy_plenum.Prelude.{
  ℕ, suc, ◌≤◌, ◌≡◌, refl, sym, ◌∙◌, ap, List, [], ◌∷◌, ◌++◌, map, arith, length, get_last?,
  if◌then◌else◌, ◌==◌, ltb, ◌||◌, some, none, Option, inl, inr, Bool-cases, ==_iff, length-append,
  length-map, true,
}
use indy_plenum.Merkle.Result.{ok}
use indy_plenum.Merkle.Bits.{count_bits_set, lowest_bit_set}
use indy_plenum.Merkle.Bits.Laws.{total, count_bits_set-total, lowest_bit_set-total}
use indy_plenum.Merkle.Hasher.{Bytes}
use indy_plenum.Merkle.Trees.{Tree, node, height, IsPerfect, root, IsForest, IsAscending-heights}
use indy_plenum.Merkle.Compact.{CompactMerkleTree, HashStore, init, update}

module _ {A : Type 0} where
  length-reverse : (xs : List A) → length (reverse xs) ≡ length xs
  length-reverse [] = refl
  length-reverse (x ∷ xs) =
      rw (reverse-cons x xs) (omega (arith, length-append (reverse xs) (x ∷ []), length-reverse xs))

  pub init-append : (xs : List A) (x : A) → init (xs ++ x ∷ []) ≡ xs
  init-append [] x = refl
  init-append (y ∷ []) x = refl
  init-append (y ∷ z ∷ zs) x = ap (λ (l : List A). y ∷ l) (init-append (z ∷ zs) x)

  pub get_last?-append : (xs : List A) (x : A) → get_last? (xs ++ x ∷ []) ≡ some x
  get_last?-append [] x = refl
  get_last?-append (y ∷ []) x = refl
  get_last?-append (y ∷ z ∷ zs) x = get_last?-append (z ∷ zs) x

-- A new subtree joins the smallest one as long as the two have one size.
abbrev pub carry : Tree → List Tree → List Tree
carry u [] = u ∷ []
carry u (t ∷ f) = if height u == height t then carry (node t u) f else u ∷ t ∷ f

pub carry-IsForest :
    (h : ℕ) (u : Tree) (f : List Tree)
    → IsForest (height u) f
    → IsPerfect u
    → h ≤ height u
    → IsForest h (carry u f)
carry-IsForest h u [] p q b = (b, q, tt)
carry-IsForest h u (t ∷ f) p q b = elim (Bool-cases (height u == height t)) [
  | inl e ↦
      let same : height t ≡ height u = omega (arith, (==_iff _ _).0 e) in
      rw e (carry-IsForest h (node t u) f p.2 (same, p.1, q) (omega (arith, same)))
  | inr e ↦ rw e (b, q, (ground (arith, p.0, e), p.1, p.2))
]

pub mintree_height-cons :
    (h : ℕ) (t : Tree) (f : List Tree)
    → IsForest h (t ∷ f)
    → lowest_bit_set (total (map height (t ∷ f))) ≡ suc (height t)
mintree_height-cons h t f p =
    lowest_bit_set-total h (height t) (map height f) (IsAscending-heights h (t ∷ f) p)

pub mintree_height-grows :
    (k : ℕ) (f : List Tree)
    → IsForest k f
    → (ltb k (lowest_bit_set (total (map height f))) || lowest_bit_set (total (map height f)) == 0)
      ≡ true
unfolding lowest_bit_set
mintree_height-grows k [] p = ground arith
mintree_height-grows k (t ∷ f) p =
    let here = mintree_height-cons k t f p in rw here (ground (arith, p.0))

module _ (digest : Bytes → Bytes) where
  abbrev pub hashes_of : List Tree → List Bytes
  hashes_of f = reverse (map (root digest) f)

  pub length-hashes_of : (f : List Tree) → length (hashes_of f) ≡ length f
  length-hashes_of f = length-reverse (map (root digest) f) ∙ length-map (root digest) f

  -- The tree that holds the forest `f`.
  abbrev pub tree_of : List Tree → Option Bytes → HashStore → CompactMerkleTree
  tree_of f cache store = record {
    tree_size = total (map height f);
    hashes = hashes_of f;
    mintree_height = lowest_bit_set (total (map height f));
    cached_root = cache;
    hash_store = store;
  }

  pub hashes_of-cons :
      (t : Tree) (f : List Tree) → hashes_of (t ∷ f) ≡ hashes_of f ++ root digest t ∷ []
  hashes_of-cons t f = reverse-cons (root digest t) (map (root digest) f)

  -- The nodes that this makes.
  abbrev pub made : Tree → List Tree → List (Bytes × ℕ)
  made u [] = []
  made u (t ∷ f) =
      if height u == height t
      then (root digest (node t u), suc (height u)) ∷ made (node t u) f
      else []

  pub update_lem :
      (h n : ℕ) (hs : List Bytes) (f : List Tree) (t : CompactMerkleTree)
      → IsForest h f
      → n ≡ total (map height f)
      → hs ≡ hashes_of f
      → update n hs t ≡ ok (tree_of f none t.hash_store)
  unfolding update
  update_lem h n hs f t p size held =
      let counted = count_bits_set-total h (map height f) (IsAscending-heights h f p) in
      let long : length hs ≡ length (map height f) =
        ap length held ∙ length-hashes_of f ∙ sym (length-map height f) in
      let fits : (length hs == count_bits_set n) ≡ true =
        (==_iff _ _).1 (long ∙ sym counted ∙ ap count_bits_set (sym size)) in
      rw (fits, size, held)
