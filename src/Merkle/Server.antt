-- ===== src/Merkle/Server.antt =====
-- include/gigamonkey/merkle/server.hpp and src/gigamonkey/merkle.cpp: the server, which holds the
-- digests of all rounds one after the other.
pub mod Rounds
pub mod Climb
pub mod Proofs
use gigamonkey.Base.{
  ℕ, zero, suc, ◌+◌, ◌-◌, ◌/◌, ◌%◌, ◌^◌, Bool, true, false, List, [], ◌∷◌, ◌++◌, Option, none, some,
  ltb, leb, ◌==◌, ◌!=◌, if◌then◌else◌, not, ◌&&◌, ◌||◌, length, get_elem?, take, drop, replicate,
}
use mathlib.Core.List.{reverse, map}
use gigamonkey.Merkle.Proof.{Digest, Leaf, Branch, Proof, no_digest, no_proof, same_digests}
use gigamonkey.P2p.VarInt.{◌>>=◌}
use gigamonkey.Merkle.Rounds.{round}
use gigamonkey.Merkle.Tree.{
  Tree, empty, node, left, right, is_empty, tip, tree_root, MerkleTree, no_tree,
}

-- `server`. `indices` has what the constructor put into the map, one after the other.
pub record Server : Type 0 where
  pub digests : List Digest
  pub indices : List (Digest × ℕ)
  pub width : ℕ
  pub height : ℕ

unfoldable pub no_server : Server
no_server = record { digests = []; indices = []; width = 0; height = 0 }

-- `(width + 1) / 2` on uint32
abbrev pub half : ℕ → ℕ
half width = (width + 1) % 2 ^ 32 / 2

-- the loops that count the digests of all rounds, and the rounds; a round has fewer digests, so that
-- the width is fuel enough
unfoldable pub count_rounds : ℕ → ℕ → ℕ → ℕ → ℕ × ℕ
count_rounds zero width total height = (total, height)
count_rounds (suc fuel) width total height = elim (ltb 1 width) [
  | true ↦ count_rounds fuel (half width) ((total + half width) % 2 ^ 32) (height + 1)
  | false ↦ (total, height)
]

-- `Digests [-1]`, which is `server::root`
unfoldable pub last_digest : List Digest → Option Digest
last_digest [] = none
last_digest (d ∷ []) = some d
last_digest (d ∷ e ∷ ds) = last_digest (e ∷ ds)

unfoldable pub server_root : Server → Option Digest
server_root s = last_digest s.digests

-- the index of the sibling of `i`, within a round of `width` digests
unfoldable pub sibling : ℕ → ℕ → ℕ
sibling width i = if i % 2 != 0 then i - 1 else if i == width - 1 then i else i + 1

-- the loop of `get_server_proof`, which is none where it reads behind the digests
unfoldable pub climb : ℕ → List Digest → ℕ → ℕ → ℕ → List Digest → Option (List Digest)
climb zero x width cumulative i p = some p
climb (suc fuel) x width cumulative i p = elim (ltb 1 width) [
  | true ↦ elim (get_elem? x (cumulative + sibling width i)) [
    | none ↦ none
    | some d ↦ climb fuel x (half width) ((cumulative + width) % 2 ^ 32) (i / 2) (d ∷ p)
  ]
  | false ↦ some p
]

-- `get_server_proof`
unfoldable pub get_server_proof : List Digest → ℕ → ℕ → Option Proof
get_server_proof x width index = do
  p ← climb width x width 0 index []
  d ← get_elem? x index
  r ← last_digest x
  some record {
    branch = record { leaf = record { digest = d; index = index }; digests = reverse p };
    root = r;
  }

-- `server::operator []`. What the data library finds in a map is a parameter.
unfoldable pub server_proof : (List (Digest × ℕ) → Digest → ℕ) → Server → Digest → Option Proof
server_proof find s d =
    let index = find s.indices d in
    if index == 0 then some no_proof else get_server_proof s.digests s.width (index - 1)

-- `server::proofs`, from index `i` on
unfoldable pub server_proofs : Server → ℕ → ℕ → Option (List Proof)
server_proofs s i zero = some []
server_proofs s i (suc left) = do
  p ← get_server_proof s.digests s.width i
  ps ← server_proofs s (i + 1) left
  some (p ∷ ps)

-- `server::operator ==`
unfoldable pub server_eq : Server → Server → Bool
server_eq s t = s.width == t.width && (s.height == t.height && same_digests s.digests t.digests)

-- the pairs of the leaves with their index and one
numbered_pairs : ℕ → List Digest → List (Digest × ℕ)
numbered_pairs i [] = []
numbered_pairs i (d ∷ ds) = (d, i) ∷ numbered_pairs (i + 1) ds

module _ (sha2_256 : List ℕ → Digest) where
  -- the loop of the constructor from leaves, which writes one round after the other until all of the
  -- `total` digests are written
  unfoldable pub fill : ℕ → ℕ → List Digest → List Digest → List Digest
  fill zero total out v = out
  fill (suc fuel) total out v = elim (length (out ++ v) == total) [
    | true ↦ out ++ v
    | false ↦ fill fuel total (out ++ v) (round sha2_256 v)
  ]

  -- the constructor from leaves
  of_leaves : ℕ → List Digest → Server
  of_leaves zero l = no_server
  of_leaves (suc n) l =
      let (total, height) = count_rounds (length l) (length l) (length l) 1 in
      record {
        digests = fill (length l) total [] l;
        indices = numbered_pairs 1 l;
        width = length l % 2 ^ 32;
        height = height;
      }

  unfoldable pub serve : List Digest → Server
  unfolding of_leaves numbered_pairs
  serve l = of_leaves (length l) l

module _ (sha2_256 : List ℕ → Digest) (root_of_empty : Digest) where
  -- `write_at_height`
  unfoldable pub write_at_height : List Digest → Tree → ℕ → List Digest
  write_at_height out t zero = out ++ (tree_root sha2_256 root_of_empty t ∷ [])
  write_at_height out t (suc k) =
      let l = write_at_height out (left t) k in
      let both = write_at_height l (right t) k in if not (is_empty (right t)) then both else l

  write_rounds : List Digest → Tree → ℕ → List Digest
  write_rounds out t zero = out
  write_rounds out t (suc height) = write_rounds (write_at_height out t height) t height

  -- the constructor from a tree. Digests that are not written stay what they are made as.
  unfoldable pub server_of_tree : MerkleTree → Server
  unfolding write_rounds
  server_of_tree t =
      if t.width == 0 || t.height == 0
      then no_server
      else (let total = (count_rounds t.width t.width t.width 0).0 in
          let written = write_rounds [] t.tree t.height in
          record {
            digests = written ++ replicate (total - length written) no_digest;
            indices = [];
            width = t.width;
            height = t.height;
          })

-- the inner loop of the conversion to a tree: a round of trees over those of the round before, and
-- the digests that are left. The digests run out first only where the source reads behind them.
unfoldable pub pair_next : List Digest → List Tree → List Tree × List Digest
pair_next b [] = ([], b)
pair_next [] (a ∷ trees) = ([], [])
pair_next (d ∷ b) (a ∷ []) = (node d a empty ∷ [], b)
pair_next (d ∷ b) (a ∷ c ∷ trees) = let (above, b') = pair_next b trees in (node d a c ∷ above, b')

unfoldable pub join_rounds : ℕ → List Digest → List Tree → Option Tree
join_rounds zero b trees = none
join_rounds (suc fuel) b [] = none
join_rounds (suc fuel) b (t ∷ []) = some t
join_rounds (suc fuel) b (t ∷ u ∷ trees) =
    let (above, b') = pair_next b (t ∷ u ∷ trees) in join_rounds fuel b' above

-- the conversion to a tree, with the width as fuel
unfoldable pub tree_of_server : Server → Option MerkleTree
tree_of_server s = if s.width == 0 || s.height == 0 then some no_tree else (do
  t ← join_rounds s.width (drop s.width s.digests) (map tip (take s.width s.digests))
  some record { tree = t; width = s.width; height = s.height })
