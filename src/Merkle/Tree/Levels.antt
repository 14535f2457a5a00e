-- ===== src/Merkle/Tree/Levels.antt =====
-- src/gigamonkey/merkle.cpp: the trees that `tree::make` has after each round.
use gigamonkey.Base.{
  ℕ, zero, suc, ◌+◌, ◌-◌, ◌^◌, ◌≤◌, ◌<◌, ◌≡◌, refl, ap, true, false, List, [], ◌∷◌, ◌++◌, arith,
  append_assoc, append-nil, if◌then◌else◌,
}
use native.Mathlib.Nat.{pow-suc}
use mathlib.Core.List.{map}
use gigamonkey.Merkle.Proof.{Digest, is_nonzero, hash_concatinated}
use gigamonkey.Merkle.Rounds.{round}
use gigamonkey.Merkle.Tree.{Tree, empty, node, right, is_empty, pair, tree_root}

-- the leaves of a tree from the left to the right
unfoldable pub leaves : Tree → List Digest
leaves empty = []
leaves (node d l r) = if is_empty l then d ∷ [] else leaves l ++ leaves r

unfoldable pub all_leaves : List Tree → List Digest
all_leaves [] = []
all_leaves (t ∷ ts) = leaves t ++ all_leaves ts

module _ (sha2_256 : List ℕ → Digest) (none_root : Digest) where
  abbrev pub root_of : Tree → Digest
  root_of = tree_root sha2_256 none_root

  abbrev pub hash : Digest → Digest → Digest
  hash = hash_concatinated sha2_256

  -- A tree of hashes over `w` leaves, of height `k` above them: the left tree is full where there is
  -- a right one, and is hashed with itself where there is none.
  pub data IsMerkle : ℕ → ℕ → Tree → Type 0 where
    single : {w : ℕ} {d : Digest} → w ≡ 1 → is_nonzero d ≡ true → IsMerkle 0 w (node d empty empty)
    alone :
        {k w : ℕ} {d : Digest} {a : Tree}
        → d ≡ hash (root_of a) (root_of a)
        → IsMerkle k w a
        → IsMerkle (suc k) w (node d a empty)
    both :
        {k v w : ℕ} {d : Digest} {a c : Tree}
        → d ≡ hash (root_of a) (root_of c)
        → v ≡ 2 ^ k
        → IsMerkle k v a
        → IsMerkle k (w - v) c
        → v < w
        → IsMerkle (suc k) w (node d a c)

  pub IsMerkle-nonempty : {k w : ℕ} {a : Tree} → IsMerkle k w a → is_empty a ≡ false
  unfolding is_empty
  IsMerkle-nonempty (single e v) = refl
  IsMerkle-nonempty (alone e h) = refl
  IsMerkle-nonempty (both e f h g m) = refl

  -- The trees of a round: each is full but the last, which has what is left of the width.
  abbrev pub IsLevel : ℕ → List Tree → ℕ → Type 0
  IsLevel k [] w = w ≡ 0
  IsLevel k (t ∷ []) w = IsMerkle k w t × (1 ≤ w) × (w ≤ 2 ^ k)
  IsLevel k (t ∷ u ∷ ts) w = IsMerkle k (2 ^ k) t × (2 ^ k < w) × IsLevel k (u ∷ ts) (w - 2 ^ k)

  -- The digests of the next round over the trees of this one.
  abbrev pub next_trees : List Tree → List Tree
  next_trees ts = pair (round sha2_256 (map root_of ts)) ts

  double : (k : ℕ) → 2 ^ suc k ≡ 2 ^ k + 2 ^ k
  double k = omega (arith, pow-suc 2 k)

  pow_pos : (k : ℕ) → 0 < 2 ^ k
  pow_pos zero = omega arith
  pow_pos (suc k) = omega (arith, double k, pow_pos k)

  node_full :
      (k : ℕ) (a c : Tree)
      → IsMerkle k (2 ^ k) a
      → IsMerkle k (2 ^ k) c
      → IsMerkle (suc k) (2 ^ suc k) (node (hash (root_of a) (root_of c)) a c)
  node_full k a c ha hc =
      let rest : 2 ^ suc k - 2 ^ k ≡ 2 ^ k = omega (arith, double k) in
      both refl refl ha (rw rest hc) (omega (arith, double k, pow_pos k))

  pub next_trees-IsLevel :
      (k w : ℕ) (ts : List Tree) → IsLevel k ts w → IsLevel (suc k) (next_trees ts) w
  unfolding pair round
  next_trees-IsLevel k w [] h = h
  next_trees-IsLevel k w (a ∷ []) (ha, lo, hi) = (alone refl ha, lo, omega (arith, hi, double k))
  next_trees-IsLevel k w (a ∷ c ∷ []) (ha, more, (hc, lo, hi)) =
      (both refl refl ha hc more, omega (arith, more), omega (arith, hi, double k))
  next_trees-IsLevel k w (a ∷ c ∷ d ∷ []) (ha, more, (hc, more', rest)) =
      let w' : w - 2 ^ k - 2 ^ k ≡ w - 2 ^ suc k = omega (arith, double k) in
      (
        node_full k a c ha hc,
        omega (arith, double k, more'),
        rw (← w') (next_trees-IsLevel k (w - 2 ^ k - 2 ^ k) (d ∷ []) rest),
      )
  next_trees-IsLevel k w (a ∷ c ∷ d ∷ e ∷ ts) (ha, more, (hc, more', rest)) =
      let w' : w - 2 ^ k - 2 ^ k ≡ w - 2 ^ suc k = omega (arith, double k) in
      (
        node_full k a c ha hc,
        omega (arith, double k, more'),
        rw (← w') (next_trees-IsLevel k (w - 2 ^ k - 2 ^ k) (d ∷ e ∷ ts) rest),
      )

  pub next_trees-roots :
      (ts : List Tree) → map root_of (next_trees ts) ≡ round sha2_256 (map root_of ts)
  unfolding pair round tree_root
  next_trees-roots [] = refl
  next_trees-roots (a ∷ []) = refl
  next_trees-roots (a ∷ c ∷ ts) = ap (λ t. hash (root_of a) (root_of c) ∷ t) (next_trees-roots ts)

  IsLevel-rest :
      (k w : ℕ) (a c : Tree) (ts : List Tree)
      → IsLevel k (a ∷ c ∷ ts) w
      → (is_empty a ≡ false) × ((w' : ℕ) × IsLevel k ts w')
  IsLevel-rest k w a c [] h = (IsMerkle-nonempty h.0, (0, refl))
  IsLevel-rest k w a c (d ∷ ts) (ha, more, (hc, more', rest)) =
      (IsMerkle-nonempty ha, (w - 2 ^ k - 2 ^ k, rest))

  pub next_trees-leaves :
      (k w : ℕ) (ts : List Tree) → IsLevel k ts w → all_leaves (next_trees ts) ≡ all_leaves ts
  unfolding pair round all_leaves leaves
  next_trees-leaves k w [] h = refl
  next_trees-leaves k w (a ∷ []) (ha, lo, hi) =
      rw (IsMerkle-nonempty ha) (append-nil (leaves a ++ []))
  next_trees-leaves k w (a ∷ c ∷ ts) h =
      let (full, (w', rest)) = IsLevel-rest k w a c ts h in
      rw (full, next_trees-leaves k w' ts rest) (append_assoc (leaves a) (leaves c) (all_leaves ts))

  -- Where one tree is left, it has two below it.
  abbrev pub HasTwo : List Tree → Type 0
  HasTwo [] = Unit {0}
  HasTwo (t ∷ []) = is_empty (right t) ≡ false
  HasTwo (t ∷ u ∷ ts) = Unit {0}

  pub next_trees-HasTwo :
      (k w : ℕ) (t u : Tree) (ts : List Tree)
      → IsLevel k (t ∷ u ∷ ts) w
      → HasTwo (next_trees (t ∷ u ∷ ts))
  unfolding pair round right
  next_trees-HasTwo k w t u [] (ht, more, (hu, lo, hi)) = IsMerkle-nonempty hu
  next_trees-HasTwo k w t u (a ∷ []) h = tt
  next_trees-HasTwo k w t u (a ∷ c ∷ ts) h = tt
