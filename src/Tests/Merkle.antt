-- ===== src/Tests/Merkle.antt =====
-- The theorems on trees of hashes at concrete inputs. The hash keeps what it is given.
use gigamonkey.Base.{ℕ, ◌≡◌, refl, ◌∷◌, [], true, some, arith, List, All}
use mathlib.Core.List.{map}
use gigamonkey.Merkle.Proof.{
  Digest, Leaf, Proof, branch_root, leaf_next, hash_concatinated, hash256, is_nonzero, leaf_eq,
}
use gigamonkey.Merkle.Rounds.{root}
use gigamonkey.Merkle.Tree.{MerkleTree, make, is_valid, proofs, tree_root}
use gigamonkey.Merkle.Tree.Levels.{leaves}
use gigamonkey.Merkle.Tree.Valid.{make-is_valid}
use gigamonkey.Merkle.Tree.Proofs.{leaf_of, numbered, Leads}
use gigamonkey.Merkle.Tree.Made.{make-proofs}
use gigamonkey.Merkle.Server.{serve, get_server_proof, server_root}
use gigamonkey.Merkle.Server.Proofs.{serve-get_server_proof}
use gigamonkey.Merkle.Dual.{check_proofs, check_branch, check_proofs_from, contains}
use gigamonkey.Merkle.Dual.Sound.{IsUnder, check_proofs-IsUnder}
use gigamonkey.Merkle.Dual.Repeated.{check_proofs_sibling, to_root}
use gigamonkey.Script.Counter.{same_bytes}

abbrev kept : List ℕ → Digest
kept v = v

abbrev three_leaves : List Digest
three_leaves = (1 ∷ []) ∷ (2 ∷ []) ∷ (3 ∷ []) ∷ []

make-is_valid_example :
    (m : MerkleTree) × (make kept three_leaves ≡ some m)
    × (is_valid kept [] m ≡ true)
    × (m.width ≡ 3)
    × (leaves m.tree ≡ three_leaves)
    × (root kept three_leaves ≡ some (tree_root kept [] m.tree))
unfolding is_nonzero
make-is_valid_example =
    make-is_valid kept [] three_leaves (omega arith) (omega arith) (refl, (refl, (refl, tt)))

make-proofs_example :
    (m : MerkleTree) × (make kept three_leaves ≡ some m)
    × (map leaf_of (proofs kept [] m) ≡ numbered 0 three_leaves)
    × All (Leads kept [] (tree_root kept [] m.tree)) (proofs kept [] m)
unfolding is_nonzero
make-proofs_example =
    make-proofs kept [] three_leaves (omega arith) (omega arith) (refl, (refl, (refl, tt)))

serve-get_server_proof_example :
    (p : Proof) × (get_server_proof
        (serve kept three_leaves).digests
        (serve kept three_leaves).width
        2
      ≡ some p)
    × (p.branch.leaf ≡ record { digest = 3 ∷ []; index = 2 })
    × (branch_root kept p.branch.leaf p.branch.digests ≡ p.root)
    × (server_root (serve kept three_leaves) ≡ some p.root)
    × (root kept three_leaves ≡ some p.root)
serve-get_server_proof_example =
    serve-get_server_proof kept three_leaves 2 (3 ∷ []) (omega arith) refl

abbrev first_leaf : Leaf
first_leaf = record { digest = 1 ∷ []; index = 0 }

abbrev second_leaf : Leaf
second_leaf = record { digest = 2 ∷ []; index = 1 }

abbrev two_proofs : List Proof
two_proofs =
    to_root kept (1 ∷ 2 ∷ []) first_leaf ((2 ∷ []) ∷ [])
    ∷ to_root kept (1 ∷ 2 ∷ []) second_leaf ((1 ∷ []) ∷ [])
    ∷ []

check_proofs-IsUnder_example : All (λ p. IsUnder kept (1 ∷ 2 ∷ []) p.branch.leaf) two_proofs
unfolding check_proofs check_proofs_from check_branch contains leaf_eq leaf_next hash_concatinated
    hash256 same_bytes
check_proofs-IsUnder_example =
    check_proofs-IsUnder kept (1 ∷ 2 ∷ []) two_proofs
      ((refl, ((refl, tt), tt)), ((refl, ((refl, tt), tt)), tt)) refl

check_proofs_sibling_example :
    check_proofs kept (
      to_root kept (1 ∷ 2 ∷ []) first_leaf ((2 ∷ []) ∷ [])
      ∷ to_root kept (1 ∷ 2 ∷ []) second_leaf ((1 ∷ []) ∷ (9 ∷ []) ∷ [])
      ∷ [])
    ≡ true
unfolding branch_root leaf_next hash_concatinated hash256
check_proofs_sibling_example =
    check_proofs_sibling kept (1 ∷ 2 ∷ []) first_leaf second_leaf (2 ∷ []) (1 ∷ []) []
      ((9 ∷ []) ∷ []) refl refl
