-- ===== src/Merkle/Rounds.antt =====
-- src/gigamonkey/merkle.cpp: one round of hashing, and the root of a list of leaves.
use gigamonkey.Base.{ℕ, zero, suc, List, [], ◌∷◌, Option, none, some, length}
use gigamonkey.Merkle.Proof.{Digest, no_digest, hash_concatinated}

module _ (sha2_256 : List ℕ → Digest) where
  -- `round`
  unfoldable pub round : List Digest → List Digest
  round [] = []
  round (a ∷ []) = hash_concatinated sha2_256 a a ∷ []
  round (a ∷ b ∷ l) = hash_concatinated sha2_256 a b ∷ round l

  -- the loop of `root`; the fuel is the number of rounds
  unfoldable pub root_loop : ℕ → List Digest → Option Digest
  root_loop zero l = none
  root_loop (suc fuel) [] = none
  root_loop (suc fuel) (a ∷ []) = some a
  root_loop (suc fuel) (a ∷ b ∷ l) = root_loop fuel (round (a ∷ b ∷ l))

  -- `root` of leaf digests
  unfoldable pub root : List Digest → Option Digest
  root [] = some no_digest
  root (a ∷ l) = root_loop (length (a ∷ l)) (a ∷ l)
