-- ===== src/Merkle/Dual.antt =====
-- include/gigamonkey/merkle/dual.hpp and src/gigamonkey/merkle.cpp: the dual of a tree, which has a
-- path for each of some leaves, and the check of many proofs at once. Sets and maps of the data
-- library are lists, of which the latest entry stands first; the order in which its ordered list has
-- the proofs is a parameter.
pub mod Sound
pub mod Repeated
use gigamonkey.Base.{
  ℕ, Bool, true, false, List, [], ◌∷◌, ◌++◌, Option, none, some, ◌==◌, if◌then◌else◌, not, ◌&&◌,
  ◌||◌,
}
use mathlib.Core.List.{map}
use gigamonkey.Merkle.Proof.{
  Digest, MerklePath, Leaf, Branch, Proof, leaf_eq, leaf_next, is_nonzero, branch_of_path,
  path_of_branch, no_proof, no_digest,
}
use gigamonkey.Merkle.Tree.{MerkleTree, proofs, tree_root}
use gigamonkey.Script.Counter.{same_bytes}

-- `set<leaf>::contains`
unfoldable pub contains : List Leaf → Leaf → Bool
contains [] l = false
contains (k ∷ g) l = leaf_eq k l || contains g l

module _ (sha2_256 : List ℕ → Digest) where
  -- the loop of `check_proofs` over one branch: the leaves seen after it, or none where it returns
  -- false
  unfoldable pub check_branch : List Leaf → Leaf → List Digest → Digest → Option (List Leaf)
  check_branch g l [] root =
      if contains g l then some g else if same_bytes l.digest root then some (l ∷ g) else none
  check_branch g l (d ∷ ds) root =
      let rest = check_branch (l ∷ g) (leaf_next sha2_256 l d) ds root in
      if contains g l then some g else rest

  -- `check_proofs`
  unfoldable pub check_proofs_from : List Leaf → List Proof → Bool
  check_proofs_from g [] = true
  check_proofs_from g (p ∷ ps) = elim (check_branch g p.branch.leaf p.branch.digests p.root) [
    | none ↦ false
    | some g' ↦ check_proofs_from g' ps
  ]

  unfoldable pub check_proofs : List Proof → Bool
  check_proofs ps = check_proofs_from [] ps

-- `dual`
pub record Dual : Type 0 where
  pub paths : List (Digest × MerklePath)
  pub root : Digest

unfoldable pub no_dual : Dual
no_dual = record { paths = []; root = no_digest }

-- the constructor from a proof
unfoldable pub dual_of_proof : Proof → Dual
dual_of_proof p = record {
  paths = (p.branch.leaf.digest, path_of_branch p.branch) ∷ [];
  root = p.root;
}

-- `Paths.contains`, with what it finds
unfoldable pub find_path : List (Digest × MerklePath) → Digest → Option MerklePath
find_path [] d = none
find_path ((k, p) ∷ ps) d = if same_bytes k d then some p else find_path ps d

unfoldable pub dual_contains : Dual → Digest → Bool
dual_contains x d = elim (find_path x.paths d) [ none ↦ false | some p ↦ true ]

-- `dual::operator []`
unfoldable pub dual_proof : Dual → Digest → Proof
dual_proof x d = elim (find_path x.paths d) [
  | none ↦ no_proof
  | some p ↦ record { branch = branch_of_path d p; root = x.root }
]

module _ (ordered : List Proof → List Proof) where
  -- `dual::proofs`
  unfoldable pub dual_proofs : Dual → List Proof
  dual_proofs x =
      ordered (map (λ e. record { branch = branch_of_path e.0 e.1; root = x.root }) x.paths)

  -- `dual::leaves`
  unfoldable pub dual_leaves : Dual → List Leaf
  dual_leaves x = map (λ p. p.branch.leaf) (dual_proofs x)

  -- `dual::valid`. Whether a map is valid is for the data library to say.
  unfoldable pub is_valid_dual :
      (List ℕ → Digest) → (List (Digest × MerklePath) → Bool) → Dual → Bool
  is_valid_dual sha2_256 valid_map x =
      is_nonzero x.root
      && (valid_map x.paths
          && ((elim x.paths [ [] ↦ false | e ∷ es ↦ true ])
              && check_proofs sha2_256 (dual_proofs x)))

-- the constructor from a tree
insert_proofs : List (Digest × MerklePath) → List Proof → List (Digest × MerklePath)
insert_proofs paths [] = paths
insert_proofs paths (p ∷ ps) =
    insert_proofs ((p.branch.leaf.digest, path_of_branch p.branch) ∷ paths) ps

unfoldable pub dual_of_tree : (List ℕ → Digest) → Digest → MerkleTree → Dual
unfolding insert_proofs
dual_of_tree sha2_256 root_of_empty t = if t.width == 0 then no_dual else record {
  paths = insert_proofs [] (proofs sha2_256 root_of_empty t);
  root = tree_root sha2_256 root_of_empty t.tree;
}
