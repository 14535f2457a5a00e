-- ===== src/Merkle/Tree.antt =====
-- include/gigamonkey/merkle/tree.hpp and src/gigamonkey/merkle.cpp: the tree with all its digests.
-- `data::tree` is a data type; what the data library gives for the root of an empty tree is a
-- parameter of the functions that may ask for it.
pub mod Levels
pub mod Grown
pub mod Valid
pub mod Proofs
pub mod Made
use gigamonkey.Base.{
  ℕ, zero, suc, ◌+◌, ◌-◌, ◌*◌, ◌^◌, ◌%◌, ◌/◌, Bool, true, false, List, [], ◌∷◌, ◌++◌, Option, none,
  some, ltb, leb, ◌==◌, if◌then◌else◌, not, ◌&&◌, ◌||◌, length,
}
use mathlib.Core.List.{map}
use gigamonkey.Merkle.Proof.{
  Digest, Leaf, Branch, Proof, is_nonzero, hash_concatinated, proof_of_root, no_proof,
}
use gigamonkey.Merkle.Rounds.{round}
use gigamonkey.Script.Counter.{same_bytes}

-- `data::tree<digest>`
pub data Tree : Type 0 where
  empty : Tree
  node : Digest → Tree → Tree → Tree

unfoldable pub left : Tree → Tree
left empty = empty
left (node d l r) = l

unfoldable pub right : Tree → Tree
right empty = empty
right (node d l r) = r

unfoldable pub is_empty : Tree → Bool
is_empty empty = true
is_empty (node d l r) = false

-- a tree of one digest
unfoldable pub tip : Digest → Tree
tip d = node d empty empty

-- `tree`
pub record MerkleTree : Type 0 where
  pub tree : Tree
  pub width : ℕ
  pub height : ℕ

unfoldable pub no_tree : MerkleTree
no_tree = record { tree = empty; width = 0; height = 0 }

-- `a - b` and `1 << k` on uint32
abbrev pub sub32 : ℕ → ℕ → ℕ
sub32 a b = (a + 2 ^ 32 - b) % 2 ^ 32

-- The loops that put the digests of a round over the trees below them. The trees run out first only
-- where `first` of an empty list would be read.
unfoldable pub pair : List Digest → List Tree → List Tree
pair [] trees = []
pair (d ∷ ds) [] = []
pair (d ∷ ds) (a ∷ []) = node d a empty ∷ pair ds []
pair (d ∷ ds) (a ∷ b ∷ trees) = node d a b ∷ pair ds trees

module _ (sha2_256 : List ℕ → Digest) where
  -- the loop of `tree::make` over the rounds; the fuel is the number of rounds
  unfoldable pub grow : ℕ → List Digest → List Tree → ℕ → Option (List Tree × ℕ)
  grow zero ds trees height = none
  grow (suc fuel) ds trees height = elim (ltb 1 (length ds)) [
    | true ↦ grow fuel (round sha2_256 ds) (pair (round sha2_256 ds) trees) (height + 1)
    | false ↦ some (trees, height)
  ]

  first_tree : ℕ → List Tree → ℕ → Option MerkleTree
  first_tree width [] height = none
  first_tree width (t ∷ trees) height = some record { tree = t; width = width; height = height }

  -- `tree::make`. It goes on where there are no leaves, and reads the first of no trees.
  unfoldable pub make : List Digest → Option MerkleTree
  unfolding first_tree
  make (d ∷ []) = some record { tree = tip d; width = 1; height = 1 }
  make h = elim (grow (suc (length h)) (round sha2_256 h) (pair (round sha2_256 h) (map tip h)) 2) [
    | none ↦ none
    | some (trees, height) ↦ first_tree (length h % 2 ^ 32) trees height
  ]

  module _ (root_of_empty : Digest) where
    unfoldable pub tree_root : Tree → Digest
    tree_root empty = root_of_empty
    tree_root (node d l r) = d

    -- `check_tree`
    unfoldable pub check_tree : Tree → ℕ → ℕ → Bool
    check_tree t width zero = false
    check_tree t width (suc zero) =
        width == 1
        && (not (is_empty t)
            && (is_empty (left t) && (is_empty (right t) && is_nonzero (tree_root t))))
    check_tree t width (suc (suc k)) =
        let hash = hash_concatinated sha2_256 in
        let l = left t in
        let r = right t in
        let left_width = 2 ^ k % 2 ^ 32 in
        let alone =
          check_tree l width (suc k)
          && same_bytes (tree_root t) (hash (tree_root l) (tree_root l)) in
        let both =
          check_tree r (sub32 width left_width) (suc k)
          && (check_tree l left_width (suc k)
              && same_bytes (tree_root t) (hash (tree_root l) (tree_root r))) in
        if is_empty l then false else if is_empty r then alone else both

    -- `tree::valid`
    unfoldable pub is_valid : MerkleTree → Bool
    is_valid t = if t.height == 0 || t.width == 0 then false else check_tree t.tree t.width t.height

    -- `append_proofs`. Below 1 the height would wrap around.
    unfoldable pub append_proofs : List Proof → ℕ → List Digest → Tree → Digest → ℕ → List Proof
    append_proofs p index l t r zero = p
    append_proofs p index l t r (suc zero) =
        p
        ++ (record {
          branch = record { leaf = record { digest = tree_root t; index = index }; digests = l };
          root = r;
        }
            ∷ [])
    append_proofs p index l t r (suc (suc k)) =
        let twice = index * 2 % 2 ^ 32 in
        let alone = append_proofs p twice (tree_root (left t) ∷ l) (left t) r (suc k) in
        let both =
          append_proofs (append_proofs p twice (tree_root (right t) ∷ l) (left t) r (suc k))
            ((twice + 1) % 2 ^ 32) (tree_root (left t) ∷ l) (right t) r (suc k) in
        if not (is_empty (right t)) then both else alone

    -- `tree::proofs`
    unfoldable pub proofs : MerkleTree → List Proof
    proofs t =
        let r = tree_root t.tree in
        if t.height == 0 || t.width == 0
        then []
        else if t.height == 1
        then proof_of_root r ∷ []
        else append_proofs
            (append_proofs [] 0 (tree_root (right t.tree) ∷ []) (left t.tree) r (t.height - 1)) 1
            (tree_root (left t.tree) ∷ []) (right t.tree) r (t.height - 1)

    -- the loop of `tree::operator []`, whose first test is false for every index
    unfoldable pub descend : ℕ → ℕ → ℕ → Tree → List Digest → Tree × List Digest
    descend i max_index zero t ds = (t, ds)
    descend i max_index (suc k) t ds =
        descend i max_index k (if i == max_index then right t else left t) (tree_root t ∷ ds)

    -- `tree::operator []`
    unfoldable pub proof_at : MerkleTree → ℕ → Proof
    proof_at t i =
        if leb t.width i
        then no_proof
        else (let (u, ds) = descend i (t.width - 1) (t.height - 1) t.tree [] in
            record {
              branch = record { leaf = record { digest = tree_root u; index = i }; digests = ds };
              root = tree_root t.tree;
            })
