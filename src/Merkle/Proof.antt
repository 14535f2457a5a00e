-- ===== src/Merkle/Proof.antt =====
-- include/gigamonkey/merkle/proof.hpp: leaves, paths, branches and proofs; the double hash of
-- include/gigamonkey/hash.hpp. A digest is its bytes. SHA-256 is a parameter.
use gigamonkey.Base.{
  ℕ, ◌/◌, ◌%◌, Bool, true, false, List, [], ◌∷◌, ◌++◌, ◌==◌, ◌!=◌, if◌then◌else◌, not, ◌&&◌, ◌||◌,
  replicate,
}
use gigamonkey.Script.Counter.{same_bytes}

abbrev pub Digest : Type 0
Digest = List ℕ

-- `digest256 {}`
abbrev pub no_digest : Digest
no_digest = replicate 32 0

-- `nonzero::valid`
unfoldable pub is_nonzero : Digest → Bool
is_nonzero [] = false
is_nonzero (b ∷ bs) = b != 0 || is_nonzero bs

-- `==` on lists of digests
unfoldable pub same_digests : List Digest → List Digest → Bool
same_digests [] [] = true
same_digests [] (d ∷ ds) = false
same_digests (d ∷ ds) [] = false
same_digests (d ∷ ds) (e ∷ es) = same_bytes d e && same_digests ds es

-- `path`. The head of `digests` is the top of the stack.
pub record MerklePath : Type 0 where
  pub index : ℕ
  pub digests : List Digest

-- `leaf`
pub record Leaf : Type 0 where
  pub digest : Digest
  pub index : ℕ

-- `branch`
pub record Branch : Type 0 where
  pub leaf : Leaf
  pub digests : List Digest

-- `proof`
pub record Proof : Type 0 where
  pub branch : Branch
  pub root : Digest

-- the constructors from a root, and from nothing
unfoldable pub proof_of_root : Digest → Proof
proof_of_root r = record {
  branch = record { leaf = record { digest = r; index = 0 }; digests = [] };
  root = r;
}

unfoldable pub no_proof : Proof
no_proof = record {
  branch = record { leaf = record { digest = no_digest; index = 0 }; digests = [] };
  root = no_digest;
}

-- `branch (digest, path)` and the conversions of a branch
unfoldable pub branch_of_path : Digest → MerklePath → Branch
branch_of_path d p = record { leaf = record { digest = d; index = p.index }; digests = p.digests }

unfoldable pub path_of_branch : Branch → MerklePath
path_of_branch b = record { index = b.leaf.index; digests = b.digests }

-- `==` and `!=`
unfoldable pub path_eq : MerklePath → MerklePath → Bool
path_eq a b = a.index == b.index && same_digests a.digests b.digests

unfoldable pub path_ne : MerklePath → MerklePath → Bool
path_ne a b = a.index != b.index || same_digests a.digests b.digests

unfoldable pub leaf_eq : Leaf → Leaf → Bool
leaf_eq a b = same_bytes a.digest b.digest && a.index == b.index

unfoldable pub leaf_ne : Leaf → Leaf → Bool
leaf_ne a b = not (same_bytes a.digest b.digest) || a.index != b.index

unfoldable pub branch_eq : Branch → Branch → Bool
branch_eq a b = leaf_eq a.leaf b.leaf && same_digests a.digests b.digests

unfoldable pub branch_ne : Branch → Branch → Bool
branch_ne a b = leaf_ne a.leaf b.leaf || not (same_digests a.digests b.digests)

unfoldable pub proof_eq : Proof → Proof → Bool
proof_eq a b = same_bytes a.root b.root && branch_eq a.branch b.branch

unfoldable pub proof_ne : Proof → Proof → Bool
proof_ne a b = not (same_bytes a.root b.root) || branch_ne a.branch b.branch

-- `branch::valid`. Leaves and stacks of digests are valid where their digests are.
unfoldable pub all_nonzero : List Digest → Bool
all_nonzero [] = true
all_nonzero (d ∷ ds) = is_nonzero d && all_nonzero ds

unfoldable pub is_valid_branch : Branch → Bool
is_valid_branch b = is_nonzero b.leaf.digest && all_nonzero b.digests

module _ (sha2_256 : List ℕ → Digest) where
  -- `Bitcoin::Hash256`, which is `double_SHA2_256`
  unfoldable pub hash256 : List ℕ → Digest
  hash256 b = sha2_256 (sha2_256 b)

  unfoldable pub hash_concatinated : Digest → Digest → Digest
  hash_concatinated a b = hash256 (a ++ b)

  -- `leaf::next`
  unfoldable pub leaf_next : Leaf → Digest → Leaf
  leaf_next l d = record {
    digest =
        if l.index % 2 != 0 then hash_concatinated d l.digest else hash_concatinated l.digest d;
    index = l.index / 2;
  }

  -- `root (leaf, digests)`, whose loop does what `leaf::next` does
  unfoldable pub branch_root : Leaf → List Digest → Digest
  branch_root l [] = l.digest
  branch_root l (d ∷ ds) = branch_root (leaf_next l d) ds

  -- `path::derive_root`
  unfoldable pub derive_root : MerklePath → Digest → Digest
  derive_root p l = branch_root (record { digest = l; index = p.index }) p.digests

  -- `branch::rest`
  branch_after : Leaf → List Digest → Branch
  branch_after l [] = record { leaf = l; digests = [] }
  branch_after l (d ∷ ds) = record { leaf = leaf_next l d; digests = ds }

  unfoldable pub branch_rest : Branch → Branch
  unfolding branch_after
  branch_rest b = branch_after b.leaf b.digests

  -- `proof::valid`
  unfoldable pub is_valid_proof : Proof → Bool
  is_valid_proof p =
      is_nonzero p.root
      && (is_valid_branch p.branch
          && same_bytes p.root (branch_root p.branch.leaf p.branch.digests))
