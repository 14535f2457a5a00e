-- ===== src/Merkle/Tree/Valid.antt =====
-- src/gigamonkey/merkle.cpp: what `tree::make` makes of a list of leaves.
use gigamonkey.Base.{
  ℕ, zero, suc, ◌-◌, ◌%◌, ◌^◌, ◌≤◌, ◌<◌, ◌≡◌, refl, ap, true, List, [], ◌∷◌, arith, length, All,
  some,
}
use mathlib.Core.List.{map}
use mathlib.Core.Path.{subst}
use native.Mathlib.Nat.{mod-eq_of_lt}
use gigamonkey.Merkle.Proof.{Digest, is_nonzero}
use gigamonkey.Merkle.Rounds.{round, root_loop, root}
use gigamonkey.Merkle.Tree.{
  Tree, left, right, is_empty, tip, pair, tree_root, check_tree, grow, make, first_tree, MerkleTree,
  is_valid,
}
use gigamonkey.Merkle.Tree.Grown.{rounds-IsMade, round_shorter}
use gigamonkey.Script.Counter.Same.{same_bytes_refl}
use gigamonkey.Merkle.Tree.{sub32}
use gigamonkey.Merkle.Tree.Levels.{IsMerkle, single, alone, both, IsMerkle-nonempty, leaves}

module _ (sha2_256 : List ℕ → Digest) (none_root : Digest) where
  abbrev root_of : Tree → Digest
  root_of = tree_root sha2_256 none_root

  -- `check_tree` accepts a tree of hashes.
  IsMerkle-check_tree :
      (k w : ℕ) (t : Tree)
      → w < 2 ^ 32
      → IsMerkle sha2_256 none_root k w t
      → check_tree sha2_256 none_root t w (suc k) ≡ true
  unfolding check_tree tree_root left right is_empty
  IsMerkle-check_tree zero w t fits (single e v) = ground (arith, e, v)
  IsMerkle-check_tree (suc k) w t fits (alone {d} {a} e h) = rw (
    IsMerkle-nonempty sha2_256 none_root h,
    IsMerkle-check_tree k w a fits h,
    e,
    same_bytes_refl _,
  )
  IsMerkle-check_tree (suc k) w t fits (both {v} {d} {a} {c} e f ha hc more) =
      let small : 2 ^ k % 2 ^ 32 ≡ 2 ^ k = mod-eq_of_lt (omega (arith, fits, more, f)) in
      let rest : sub32 w (2 ^ k) ≡ w - v = omega (arith, fits, more, f) in
      let first =
        subst (λ n. check_tree sha2_256 none_root a n (suc k) ≡ true) f
          (IsMerkle-check_tree k v a (omega (arith, fits, more)) ha) in
      rw (
        IsMerkle-nonempty sha2_256 none_root ha,
        IsMerkle-nonempty sha2_256 none_root hc,
        small,
        rest,
        first,
        IsMerkle-check_tree k (w - v) c (omega (arith, fits)) hc,
        e,
        same_bytes_refl _,
      )

  pub make_lem :
      (a c : Digest) (h : List Digest) (t : Tree) (n : ℕ)
      → length (a ∷ c ∷ h) < 2 ^ 32
      → grow sha2_256
          (suc (length (a ∷ c ∷ h)))
          (round sha2_256 (a ∷ c ∷ h))
          (pair (round sha2_256 (a ∷ c ∷ h)) (map tip (a ∷ c ∷ h)))
          2
        ≡ some (t ∷ [], suc n)
      → make sha2_256 (a ∷ c ∷ h)
        ≡ some record { tree = t; width = length (a ∷ c ∷ h); height = suc n }
  unfolding make first_tree
  make_lem a c h t n fits grown =
      rw (grown, make)
        (ap (λ w. some record { tree = t; width = w; height = suc n }) (mod-eq_of_lt fits))

  is_valid_lem :
      (t : Tree) (w n : ℕ)
      → 1 ≤ w
      → check_tree sha2_256 none_root t w (suc n) ≡ true
      → is_valid sha2_256 none_root (record { tree = t; width = w; height = suc n }) ≡ true
  unfolding is_valid
  is_valid_lem t w n some_leaf h = ground (arith, h)

  -- The tree that `make` makes of leaves that are not zero, one at least and fewer than 2 ^ 32, is
  -- valid, has their number as its width, has them as its leaves in their order, and has the root
  -- that `root` computes from them.
  pub make-is_valid :
      (h : List Digest)
      → 1 ≤ length h
      → length h < 2 ^ 32
      → All (λ d. is_nonzero d ≡ true) h
      → (m : MerkleTree) × (make sha2_256 h ≡ some m)
        × (is_valid sha2_256 none_root m ≡ true)
        × (m.width ≡ length h)
        × (leaves m.tree ≡ h)
        × (root sha2_256 h ≡ some (tree_root sha2_256 none_root m.tree))
  unfolding make first_tree is_valid root root_loop tip check_tree tree_root leaves is_empty left
      right
  make-is_valid [] some_leaf fits valid = absurd (omega (arith, some_leaf))
  make-is_valid (a ∷ []) some_leaf fits (va, valid) =
      (record { tree = tip a; width = 1; height = 1 }, refl, va, refl, refl, refl)
  make-is_valid (a ∷ c ∷ h) some_leaf fits valid =
      let ds = a ∷ c ∷ h in
      let (t, (n, grown, made)) = rounds-IsMade sha2_256 none_root a c h valid in
      (
        record { tree = t; width = length ds; height = suc n },
        make_lem a c h t n fits grown,
        is_valid_lem t (length ds) n some_leaf
            (IsMerkle-check_tree n (length ds) t fits made.shape),
        refl,
        made.taken,
        made.rooted (suc (length h))
            (omega (arith, round_shorter sha2_256 none_root ds (omega arith))),
      )
