-- ===== src/Merkle/Dual/Repeated.antt =====
-- src/gigamonkey/merkle.cpp: `check_proofs` leaves a branch at the first leaf that it has seen.
use gigamonkey.Base.{ℕ, ◌≡◌, refl, ap, ◌∙◌, true, List, [], ◌∷◌, some, arith, Bool-cases, inl, inr}
use gigamonkey.Merkle.Proof.{Digest, Leaf, Proof, leaf_eq, leaf_next, branch_root}
use gigamonkey.Merkle.Dual.{contains, check_branch, check_proofs_from, check_proofs}
use gigamonkey.Script.Counter.Same.{same_bytes_refl}

contains-cons_self : (l : Leaf) (g : List Leaf) → contains (l ∷ g) l ≡ true
unfolding contains leaf_eq
contains-cons_self l g = ground (arith, same_bytes_refl l.digest)

contains-cons : (k l : Leaf) (g : List Leaf) → contains g k ≡ true → contains (l ∷ g) k ≡ true
unfolding contains
contains-cons k l g h = ground (arith, h)

module _ (sha2_256 : List ℕ → Digest) (r : Digest) where
  -- What a branch that leads to the root leaves in the set.
  record Sees (g g' : List Leaf) (l : Leaf) : Type 0 where
    keeps : (k : Leaf) → contains g k ≡ true → contains g' k ≡ true
    sees : contains g' l ≡ true

  check_branch-Sees :
      (g : List Leaf) (l : Leaf) (ds : List Digest)
      → branch_root sha2_256 l ds ≡ r
      → (g' : List Leaf) × ((check_branch sha2_256 g l ds r ≡ some g') × Sees g g' l)
  unfolding check_branch branch_root
  check_branch-Sees g l [] leads = elim (Bool-cases (contains g l)) [
    | inl seen ↦ (g, (rw seen, record { keeps = λ k h. h; sees = seen }))
    | inr new ↦ (
      l ∷ g,
      (
        rw (new, leads, same_bytes_refl r),
        record { keeps = λ k h. contains-cons k l g h; sees = contains-cons_self l g },
      ),
    )
  ]
  check_branch-Sees g l (d ∷ ds) leads = elim (Bool-cases (contains g l)) [
    | inl seen ↦ (g, (rw seen, record { keeps = λ k h. h; sees = seen }))
    | inr new ↦
        let (g', (goes, s)) = check_branch-Sees (l ∷ g) (leaf_next sha2_256 l d) ds leads in
        (
          g',
          (
            rw new goes,
            record {
              keeps = λ k h. s.keeps k (contains-cons k l g h);
              sees = s.keeps l (contains-cons_self l g);
            },
          ),
        )
  ]

  abbrev pub to_root : Leaf → List Digest → Proof
  to_root l ds = record { branch = record { leaf = l; digests = ds }; root = r }

  again :
      (g : List Leaf) (l : Leaf) (other : List Digest)
      → contains g l ≡ true
      → check_branch sha2_256 g l other r ≡ some g
  unfolding check_branch
  again g l [] seen = ground (arith, seen)
  again g l (d ∷ ds) seen = ground (arith, seen)

  first :
      (l : Leaf) (e : Digest) (ds : List Digest)
      → check_branch sha2_256 [] l (e ∷ ds) r
        ≡ check_branch sha2_256 (l ∷ []) (leaf_next sha2_256 l e) ds r
  unfolding check_branch contains
  first l e ds = refl

  -- A branch whose first step comes to a leaf that was seen is accepted.
  joins :
      (g : List Leaf) (m : Leaf) (d : Digest) (other : List Digest)
      → contains g (leaf_next sha2_256 m d) ≡ true
      → (g' : List Leaf) × (check_branch sha2_256 g m (d ∷ other) r ≡ some g')
  unfolding check_branch
  joins g m d other seen = elim (Bool-cases (contains g m)) [
    | inl old ↦ (g, rw old)
    | inr new ↦ (
      m ∷ g,
      rw new (
          again (m ∷ g) (leaf_next sha2_256 m d) other
            (contains-cons (leaf_next sha2_256 m d) m g seen)),
    )
  ]

  -- After a proof that leads to the root, `check_proofs` accepts every proof to the same root of the
  -- leaf beside it, whatever digests are above the two.
  pub check_proofs_sibling :
      (l m : Leaf) (e d : Digest) (ds other : List Digest)
      → branch_root sha2_256 l (e ∷ ds) ≡ r
      → leaf_next sha2_256 m d ≡ leaf_next sha2_256 l e
      → check_proofs sha2_256 (to_root l (e ∷ ds) ∷ to_root m (d ∷ other) ∷ []) ≡ true
  unfolding check_proofs check_proofs_from branch_root
  check_proofs_sibling l m e d ds other leads same =
      let (g, (goes, s)) = check_branch-Sees (l ∷ []) (leaf_next sha2_256 l e) ds leads in
      let (g', joined) = joins g m d other (ap (contains g) same ∙ s.sees) in
      rw (first l e ds ∙ goes, check_proofs_from) (rw (joined, check_proofs_from))
