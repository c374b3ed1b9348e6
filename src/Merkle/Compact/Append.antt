-- ===== src/Merkle/Compact/Append.antt =====
-- What `append` of compact_merkle_tree.py keeps: the tree stands for the leaves appended so far.
use mathlib.Core.List.{reverse, append_assoc, append-nil}
use indy_plenum.Prelude.{
  ℕ, ◌+◌, ◌≡◌, refl, sym, ◌∙◌, ap, subst, List, [], ◌∷◌, ◌++◌, map, arith, length, some, none,
  Option, ltb, not, ◌&&◌, true, inl, inr, Option-cases,
}
use indy_plenum.Merkle.Result.{ok, ◌>>=◌}
use indy_plenum.Merkle.Bits.{lowest_bit_set, count_bits_set}
use indy_plenum.Merkle.Bits.Laws.{total}
use indy_plenum.Merkle.Hasher.{Bytes, hash_leaf, hash_full, hash_full_tree}
use indy_plenum.Merkle.Trees.{Tree, leaf, height, root, IsForest, joined, length-joined}
use indy_plenum.Merkle.Compact.{
  CompactMerkleTree, HashStore, new_store, blank, init_tree, copy, write_leaf, write_leaves,
  write_nodes, push_subtree_hash, push_subtree, append, append_all, root_hash, computed_root,
}
use indy_plenum.Merkle.Compact.Forest.{
  hashes_of, tree_of, carry, made, carry-IsForest, update_lem, length-hashes_of,
}
use indy_plenum.Merkle.Compact.Push.{push_subtree_hash_lem, joined-carry}
use indy_plenum.Merkle.Compact.Root.{root_of, hash_full_tree_lem, computed_root-hashes_of}

module _ (digest : Bytes → Bytes) where
  -- The tree stands for the leaves: its hashes are those of a forest over them, and a root hash that
  -- it has cached is that of all the leaves.
  pub record IsTreeOf (ls : List Bytes) (t : CompactMerkleTree) : Type 0 where
    pub forest : List Tree
    pub shape : IsForest 0 forest
    pub content : joined forest ≡ ls
    pub is : t ≡ tree_of digest forest t.cached_root t.hash_store
    pub cached : (h : Bytes) → t.cached_root ≡ some h → hash_full_tree digest ls ≡ ok h

  pub tree_of-IsTreeOf :
      (f : List Tree) (store : HashStore)
      → IsForest 0 f
      → IsTreeOf (joined f) (tree_of digest f none store)
  tree_of-IsTreeOf f store p = record {
    forest = f;
    shape = p;
    content = refl;
    is = refl;
    cached = λ h e. absurd (cc e);
  }

  push_subtree-one :
      (d : Bytes) (t pushed : CompactMerkleTree) (nodes : List (Bytes × ℕ))
      → push_subtree_hash digest
          (length t.hashes + 1)
          1
          (hash_leaf digest d)
          (record t { hash_store = write_leaf (hash_leaf digest d) t.hash_store })
        ≡ ok (nodes, pushed)
      → push_subtree digest (d ∷ []) t
        ≡ ok (record pushed { hash_store = write_nodes pushed.tree_size nodes pushed.hash_store })
  unfolding push_subtree hash_full write_leaves lowest_bit_set count_bits_set
  push_subtree-one d t pushed nodes e =
      let small : not (ltb 0 t.mintree_height && ltb t.mintree_height 1) ≡ true = ground arith in
      rw (small, e)

  abbrev pub store_after : Bytes → List Tree → HashStore → HashStore
  store_after d f store =
      write_nodes (total (map height (carry (leaf d) f))) (made digest (leaf d) f)
        (write_leaf (hash_leaf digest d) store)

  pub append-tree_of :
      (d : Bytes) (f : List Tree) (cache : Option Bytes) (store : HashStore)
      → IsForest 0 f
      → append digest d (tree_of digest f cache store)
        ≡ ok (
          reverse (hashes_of digest f),
          tree_of digest (carry (leaf d) f) none (store_after d f store),
        )
  unfolding append root
  append-tree_of d f cache store p =
      let pushed =
        push_subtree_hash_lem digest (length (hashes_of digest f) + 1) (leaf d) f cache
          (write_leaf (hash_leaf digest d) store) p tt (omega (arith, length-hashes_of digest f)) in
      rw (push_subtree-one d (tree_of digest f cache store) _ _ pushed)

  pub append-IsTreeOf :
      (d : Bytes) (ls : List Bytes) (t : CompactMerkleTree)
      → IsTreeOf ls t
      → (path : List Bytes) × (t' : CompactMerkleTree) × (append digest d t ≡ ok (path, t'))
        × IsTreeOf (ls ++ d ∷ []) t'
  append-IsTreeOf d ls t p =
      let f = p.forest in
      let f' = carry (leaf d) f in
      let t' = tree_of digest f' none (store_after d f t.hash_store) in
      let content : joined f' ≡ ls ++ d ∷ [] =
        joined-carry (leaf d) f ∙ ap (λ (l : List Bytes). l ++ d ∷ []) p.content in
      (
        reverse (hashes_of digest f),
        t',
        ap (append digest d) p.is ∙ append-tree_of d f t.cached_root t.hash_store p.shape,
        subst (λ (l : List Bytes). IsTreeOf l t') content
            (tree_of-IsTreeOf f' (store_after d f t.hash_store)
              (carry-IsForest 0 (leaf d) f p.shape tt (omega arith))),
      )

  -- Appending never raises.
  pub append_all-IsTreeOf :
      (more ls : List Bytes) (t : CompactMerkleTree)
      → IsTreeOf ls t
      → (t' : CompactMerkleTree) × (append_all digest more t ≡ ok t') × IsTreeOf (ls ++ more) t'
  unfolding append_all
  append_all-IsTreeOf [] ls t p =
      (t, refl, subst (λ (l : List Bytes). IsTreeOf l t) (sym (append-nil ls)) p)
  append_all-IsTreeOf (d ∷ more) ls t p =
      let (path, grown, e, q) = append-IsTreeOf d ls t p in
      let (t', e', q') = append_all-IsTreeOf more (ls ++ d ∷ []) grown q in
      (t', rw e e', subst (λ (l : List Bytes). IsTreeOf l t') (append_assoc ls (d ∷ []) more) q')

  -- Its root hash, cached or not, is the one that TreeHasher computes from the leaves.
  pub root_hash-IsTreeOf :
      (ls : List Bytes) (t : CompactMerkleTree)
      → IsTreeOf ls t
      → (h : Bytes) × (t' : CompactMerkleTree) × (root_hash digest t ≡ ok (h, t'))
        × (hash_full_tree digest ls ≡ ok h)
        × IsTreeOf ls t'
  unfolding root_hash
  root_hash-IsTreeOf ls t p = elim (Option-cases t.cached_root) [
    | inr (h, e) ↦ (h, t, rw e, p.cached h e, p)
    | inl e ↦
        let h = root_of digest p.forest in
        let full : hash_full_tree digest ls ≡ ok h =
          subst (λ (l : List Bytes). hash_full_tree digest l ≡ ok h) p.content
            (hash_full_tree_lem digest p.forest p.shape) in
        let computed : computed_root digest t.hashes ≡ ok h =
          ap (λ (x : CompactMerkleTree). computed_root digest x.hashes) p.is
          ∙ computed_root-hashes_of digest p.forest in
        (
          h,
          record t { cached_root = some h },
          rw (e, computed),
          full,
          record {
            forest = p.forest;
            shape = p.shape;
            content = p.content;
            is = ap (λ (x : CompactMerkleTree). record x { cached_root = some h }) p.is;
            cached = λ g e'. full ∙ ap ok (cc e');
          },
        )
  ]

  pub init_tree-tree_of :
      (f : List Tree)
      → IsForest 0 f
      → init_tree (total (map height f)) (hashes_of digest f) ≡ ok (tree_of digest f none new_store)
  unfolding init_tree
  init_tree-tree_of f p = update_lem digest 0 _ _ f blank p refl refl

  pub init_tree-IsTreeOf : (t : CompactMerkleTree) × (init_tree 0 [] ≡ ok t) × IsTreeOf [] t
  init_tree-IsTreeOf =
      (tree_of digest [] none new_store, init_tree-tree_of [] tt, tree_of-IsTreeOf [] new_store tt)

  -- A copy stands for the same leaves, with a store of its own.
  pub copy-IsTreeOf :
      (ls : List Bytes) (t : CompactMerkleTree)
      → IsTreeOf ls t
      → (t' : CompactMerkleTree) × (copy t ≡ ok t') × IsTreeOf ls t'
  unfolding copy
  copy-IsTreeOf ls t p =
      let t' = tree_of digest p.forest none new_store in
      (
        t',
        ap (λ (x : CompactMerkleTree). init_tree x.tree_size x.hashes) p.is
            ∙ init_tree-tree_of p.forest p.shape,
        subst (λ (l : List Bytes). IsTreeOf l t') p.content
            (tree_of-IsTreeOf p.forest new_store p.shape),
      )

  -- The size of a tree is the number of its leaves.
  pub tree_size-IsTreeOf :
      (ls : List Bytes) (t : CompactMerkleTree) → IsTreeOf ls t → t.tree_size ≡ length ls
  tree_size-IsTreeOf ls t p =
      ap (λ (x : CompactMerkleTree). x.tree_size) p.is
      ∙ sym (length-joined 0 p.forest p.shape)
      ∙ ap length p.content

  -- From a new tree, `append` of any leaves, one after another, succeeds, and the root hash of the tree
  -- is the one that TreeHasher computes recursively from the list of all the leaves.
  pub append_all-root_hash :
      (leaves : List Bytes)
      → (t : CompactMerkleTree) × (h : Bytes) × (read : CompactMerkleTree) × ((init_tree 0 []
            >>= append_all digest leaves)
          ≡ ok t)
        × (root_hash digest t ≡ ok (h, read))
        × (hash_full_tree digest leaves ≡ ok h)
  append_all-root_hash leaves =
      let (new, e, p) = init_tree-IsTreeOf in
      let (t, e', q) = append_all-IsTreeOf leaves [] new p in
      let (h, read, e'', full, _) = root_hash-IsTreeOf leaves t q in
      (t, h, read, rw e e', e'', full)
