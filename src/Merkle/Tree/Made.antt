-- ===== src/Merkle/Tree/Made.antt =====
-- src/gigamonkey/merkle.cpp: the proofs of a tree that `tree::make` made.
use gigamonkey.Base.{
  ℕ, suc, ◌+◌, ◌-◌, ◌*◌, ◌^◌, ◌≤◌, ◌<◌, ◌≡◌, refl, ap, sym, ◌∙◌, true, false, List, [], ◌∷◌, arith,
  length, All, some,
}
use mathlib.Core.List.{map}
use mathlib.Core.Path.{subst}
use gigamonkey.Merkle.Proof.{Digest, is_nonzero, branch_root, proof_of_root}
use gigamonkey.Merkle.Tree.{
  Tree, node, left, right, is_empty, tip, tree_root, append_proofs, proofs, MerkleTree, make,
}
use gigamonkey.Merkle.Tree.Levels.{IsMerkle, single, alone, both, leaves, IsMerkle-nonempty}
use gigamonkey.Merkle.Tree.Grown.{rounds-IsMade}
use gigamonkey.Merkle.Tree.Valid.{make_lem}
use gigamonkey.Merkle.Tree.Proofs.{
  numbered, leaf_of, Leads, Adds, append_proofs-Adds, Adds-trans, step_left, step_right,
  length-leaves,
}

module _ (sha2_256 : List ℕ → Digest) (none_root : Digest) where
  abbrev root_of : Tree → Digest
  root_of = tree_root sha2_256 none_root

  zero_times : (m : ℕ) → 0 * m ≡ 0
  zero_times m = omega arith

  proofs_two :
      (d : Digest) (a c : Tree) (w k : ℕ)
      → 1 ≤ w
      → proofs sha2_256 none_root (record { tree = node d a c; width = w; height = suc (suc k) })
        ≡ append_proofs sha2_256 none_root
            (append_proofs sha2_256 none_root [] 0 (root_of c ∷ []) a d (suc k))
            1
            (root_of a ∷ [])
            c
            d
            (suc k)
  unfolding proofs left right tree_root
  proofs_two d a c w k h =
      let below : suc (suc k) - 1 ≡ suc k = omega arith in ground (arith, below, h)

  proofs_lem :
      (t : Tree) (w n : ℕ)
      → w < 2 ^ 32
      → IsMerkle sha2_256 none_root n w t
      → is_empty (right t) ≡ false
      → Adds sha2_256 none_root []
          (proofs sha2_256 none_root (record { tree = t; width = w; height = suc n }))
          (root_of t)
          0
          (leaves t)
  unfolding is_empty left right tree_root leaves branch_root
  proofs_lem t w n fits (single e v) two = ground (arith, two)
  proofs_lem t w n fits (alone e h) two = ground (arith, two)
  proofs_lem t w n fits (both {k} {v} {d} {a} {c} e f ha hc more) two =
      let q = append_proofs sha2_256 none_root [] 0 (root_of c ∷ []) a d (suc k) in
      let q' = append_proofs sha2_256 none_root q 1 (root_of a ∷ []) c d (suc k) in
      let first : Adds sha2_256 none_root [] q d 0 (leaves a) =
        subst (λ n. Adds sha2_256 none_root [] q d n (leaves a)) (zero_times (2 ^ k))
          (append_proofs-Adds sha2_256 none_root [] 0 (root_of c ∷ []) a d k v ha
            (omega (arith, zero_times (2 ^ k), more, fits))
            (step_left sha2_256 none_root 0 (root_of a) (root_of c) [] ∙ sym e)) in
      let from : 1 * 2 ^ k ≡ 0 + length (leaves a) =
        omega (arith, length-leaves sha2_256 none_root k v a ha, f) in
      let second : Adds sha2_256 none_root q q' d (0 + length (leaves a)) (leaves c) =
        subst (λ n. Adds sha2_256 none_root q q' d n (leaves c)) from
          (append_proofs-Adds sha2_256 none_root q 1 (root_of a ∷ []) c d k (w - v) hc
            (omega (arith, f, more, fits))
            (step_right sha2_256 none_root 0 (root_of c) (root_of a) [] ∙ sym e)) in
      rw (proofs_two d a c w k (omega (arith, more)), IsMerkle-nonempty sha2_256 none_root ha)
        (Adds-trans sha2_256 none_root [] q q' d 0 (leaves a) (leaves c) first second)

  -- The proofs of the tree that `make` makes of leaves that are not zero, one at least and fewer than
  -- 2 ^ 32: they prove the leaves in their order, each at its index, and each branch leads from its
  -- leaf to the root of the tree.
  pub make-proofs :
      (h : List Digest)
      → 1 ≤ length h
      → length h < 2 ^ 32
      → All (λ d. is_nonzero d ≡ true) h
      → (m : MerkleTree) × (make sha2_256 h ≡ some m)
        × (map leaf_of (proofs sha2_256 none_root m) ≡ numbered 0 h)
        × All (Leads sha2_256 none_root (root_of m.tree)) (proofs sha2_256 none_root m)
  unfolding make tip proofs proof_of_root tree_root branch_root
  make-proofs [] some_leaf fits valid = absurd (omega (arith, some_leaf))
  make-proofs (a ∷ []) some_leaf fits valid =
      (record { tree = tip a; width = 1; height = 1 }, refl, refl, ((refl, refl), tt))
  make-proofs (a ∷ c ∷ h) some_leaf fits valid =
      let (t, (n, grown, made)) = rounds-IsMade sha2_256 none_root a c h valid in
      let adds = proofs_lem t (length (a ∷ c ∷ h)) n fits made.shape made.two in
      (
        record { tree = t; width = length (a ∷ c ∷ h); height = suc n },
        make_lem sha2_256 none_root a c h t n fits grown,
        adds.in_order ∙ ap (numbered 0) made.taken,
        adds.all_lead tt,
      )
