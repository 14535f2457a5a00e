-- ===== src/Merkle/Tree/Proofs.antt =====
-- src/gigamonkey/merkle.cpp: the proofs that `append_proofs` and `tree::proofs` collect.
use gigamonkey.Base.{
  ℕ, zero, suc, ◌+◌, ◌-◌, ◌*◌, ◌%◌, ◌^◌, ◌≤◌, ◌≡◌, refl, ap, sym, ◌∙◌, List, [], ◌∷◌, ◌++◌, arith,
  length, All, append-nil, append_assoc, length-append, All-append,
}
use mathlib.Core.List.{map, map-append}
use mathlib.Core.Path.{subst}
use native.Mathlib.Nat.{mod-eq_of_lt, pow-suc}
use gigamonkey.Merkle.Proof.{Digest, Leaf, Proof, branch_root, leaf_next, hash_concatinated}
use gigamonkey.Merkle.Tree.{Tree, left, right, is_empty, tree_root, append_proofs}
use gigamonkey.Merkle.Tree.Levels.{IsMerkle, single, alone, both, IsMerkle-nonempty, leaves}

-- the leaves with their indices, from `i` on
abbrev pub numbered : ℕ → List Digest → List Leaf
numbered i [] = []
numbered i (d ∷ ds) = record { digest = d; index = i } ∷ numbered (suc i) ds

abbrev pub leaf_of : Proof → Leaf
leaf_of p = p.branch.leaf

numbered-append :
    (i : ℕ) (xs ys : List Digest)
    → numbered i (xs ++ ys) ≡ numbered i xs ++ numbered (i + length xs) ys
numbered-append i [] ys = ap (λ n. numbered n ys) (omega arith)
numbered-append i (x ∷ xs) ys =
    ap (λ t. record { digest = x; index = i } ∷ t)
      (numbered-append (suc i) xs ys ∙ ap (λ n. numbered (suc i) xs ++ numbered n ys) (omega arith))

module _ (sha2_256 : List ℕ → Digest) (none_root : Digest) where
  abbrev root_of : Tree → Digest
  root_of = tree_root sha2_256 none_root

  -- The branch of a proof leads from its leaf to its root, which is `r`.
  abbrev pub Leads : Digest → Proof → Type 0
  Leads r p = (branch_root sha2_256 p.branch.leaf p.branch.digests ≡ p.root) × (p.root ≡ r)

  pub length-leaves :
      (k w : ℕ) (t : Tree) → IsMerkle sha2_256 none_root k w t → length (leaves t) ≡ w
  unfolding leaves is_empty
  length-leaves zero w t (single e v) = omega (arith, e)
  length-leaves (suc k) w t (alone {a} e h) =
      rw (IsMerkle-nonempty sha2_256 none_root h)
        (ap length (append-nil (leaves a)) ∙ length-leaves k w a h)
  length-leaves (suc k) w t (both {v} {a} {c} e f ha hc more) =
      rw (IsMerkle-nonempty sha2_256 none_root ha) (
        omega (
          arith,
          length-append (leaves a) (leaves c),
          length-leaves k v a ha,
          length-leaves k (w - v) c hc,
          more,
        ))

  pow_pos : (k : ℕ) → 1 ≤ 2 ^ k
  pow_pos zero = omega arith
  pow_pos (suc k) = omega (arith, pow-suc 2 k, pow_pos k)

  pub positive : (k w : ℕ) (t : Tree) → IsMerkle sha2_256 none_root k w t → 1 ≤ w
  positive zero w t (single e v) = omega (arith, e)
  positive (suc k) w t (alone {a} e h) = positive k w a h
  positive (suc k) w t (both e f ha hc more) = omega (arith, more)

  -- one step of a branch to the left, and to the right
  pub step_left :
      (i : ℕ) (x d : Digest) (ds : List Digest)
      → branch_root sha2_256 (record { digest = x; index = i * 2 }) (d ∷ ds)
        ≡ branch_root sha2_256 (record { digest = hash_concatinated sha2_256 x d; index = i }) ds
  unfolding branch_root leaf_next
  step_left i x d ds = ap (λ n. branch_root sha2_256 n ds) (ground arith)

  pub step_right :
      (i : ℕ) (x d : Digest) (ds : List Digest)
      → branch_root sha2_256 (record { digest = x; index = i * 2 + 1 }) (d ∷ ds)
        ≡ branch_root sha2_256 (record { digest = hash_concatinated sha2_256 d x; index = i }) ds
  unfolding branch_root leaf_next
  step_right i x d ds = ap (λ n. branch_root sha2_256 n ds) (ground arith)

  double :
      (i k : ℕ)
      → (i * 2 * 2 ^ k ≡ i * 2 ^ suc k)
        × ((i * 2 + 1) * 2 ^ k ≡ i * 2 ^ suc k + 2 ^ k)
        × (i * 2 ≤ i * 2 ^ suc k)
  double i k =
      let p = pow-suc 2 k in (grind (arith, p), grind (arith, p), grind (arith, p, pow_pos k))

  -- What `append_proofs` adds for a tree of hashes: proofs that lead to the root, of its leaves in
  -- their order.
  pub record Adds (p q : List Proof) (r : Digest) (i : ℕ) (ds : List Digest) : Type 0 where
    pub all_lead : All (Leads r) p → All (Leads r) q
    pub in_order : map leaf_of q ≡ map leaf_of p ++ numbered i ds

  pub Adds-trans :
      (p q q' : List Proof) (r : Digest) (i : ℕ) (xs ys : List Digest)
      → Adds p q r i xs
      → Adds q q' r (i + length xs) ys
      → Adds p q' r i (xs ++ ys)
  Adds-trans p q q' r i xs ys a c = record {
    all_lead = λ h. c.all_lead (a.all_lead h);
    in_order =
        c.in_order
        ∙ ap (λ t. t ++ numbered (i + length xs) ys) a.in_order
        ∙ append_assoc (map leaf_of p) (numbered i xs) (numbered (i + length xs) ys)
        ∙ ap (λ t. map leaf_of p ++ t) (sym (numbered-append i xs ys));
  }

  pub append_proofs-Adds :
      (p : List Proof) (i : ℕ) (l : List Digest) (t : Tree) (r : Digest) (k w : ℕ)
      → IsMerkle sha2_256 none_root k w t
      → i * 2 ^ k + w ≤ 2 ^ 32
      → branch_root sha2_256 (record { digest = root_of t; index = i }) l ≡ r
      → Adds p (append_proofs sha2_256 none_root p i l t r (suc k)) r (i * 2 ^ k) (leaves t)
  unfolding append_proofs tree_root leaves is_empty left right
  append_proofs-Adds p i l t r zero w (single {d} e v) fits leads = record {
    all_lead = λ h. All-append (Leads r) p _ h ((leads, refl), tt);
    in_order =
        map-append leaf_of p _ ∙ ap (λ n. map leaf_of p ++ numbered n (d ∷ [])) (omega arith);
  }
  append_proofs-Adds p i l t r (suc k) w (alone {d} {a} e h) fits leads =
      let (at, next, le) = double i k in
      let small : i * 2 % 2 ^ 32 ≡ i * 2 =
        mod-eq_of_lt (omega (arith, le, fits, positive k w a h)) in
      let here : branch_root sha2_256 (record { digest = root_of a; index = i * 2 }) (root_of a ∷ l)
          ≡ r =
        step_left i (root_of a) (root_of a) l
        ∙ ap (λ x. branch_root sha2_256 (record { digest = x; index = i }) l) (sym e)
        ∙ leads in
      rw (IsMerkle-nonempty sha2_256 none_root h, small, append-nil (leaves a), ← at)
        (append_proofs-Adds p (i * 2) (root_of a ∷ l) a r k w h (omega (arith, at, fits)) here)
  append_proofs-Adds p i l t r (suc k) w (both {v} {d} {a} {c} e f ha hc more) fits leads =
      let (at, next, le) = double i k in
      let small : i * 2 % 2 ^ 32 ≡ i * 2 = mod-eq_of_lt (omega (arith, le, fits, more)) in
      let small' : (i * 2 + 1) % 2 ^ 32 ≡ i * 2 + 1 =
        mod-eq_of_lt (omega (arith, le, fits, more, positive k v a ha)) in
      let lead =
        ap (λ x. branch_root sha2_256 (record { digest = x; index = i }) l) (sym e) ∙ leads in
      let q = append_proofs sha2_256 none_root p (i * 2) (root_of c ∷ l) a r (suc k) in
      let first : Adds p q r (i * 2 ^ suc k) (leaves a) =
        subst (λ n. Adds p q r n (leaves a)) at
          (append_proofs-Adds p (i * 2) (root_of c ∷ l) a r k v ha (omega (arith, at, fits, more))
            (step_left i (root_of a) (root_of c) l ∙ lead)) in
      let from : (i * 2 + 1) * 2 ^ k ≡ i * 2 ^ suc k + length (leaves a) =
        omega (arith, next, length-leaves k v a ha, f) in
      let q' = append_proofs sha2_256 none_root q (i * 2 + 1) (root_of a ∷ l) c r (suc k) in
      let second : Adds q q' r (i * 2 ^ suc k + length (leaves a)) (leaves c) =
        subst (λ n. Adds q q' r n (leaves c)) from
          (append_proofs-Adds q (i * 2 + 1) (root_of a ∷ l) c r k (w - v) hc
            (omega (arith, next, f, fits, more)) (step_right i (root_of c) (root_of a) l ∙ lead)) in
      rw
        (
          IsMerkle-nonempty sha2_256 none_root ha,
          IsMerkle-nonempty sha2_256 none_root hc,
          small,
          small',
        )
        (Adds-trans p q q' r (i * 2 ^ suc k) (leaves a) (leaves c) first second)
