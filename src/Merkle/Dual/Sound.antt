-- ===== src/Merkle/Dual/Sound.antt =====
-- src/gigamonkey/merkle.cpp: what `check_proofs` says of the leaves.
use gigamonkey.Base.{
  ℕ, ◌≡◌, refl, ap, sym, ◌∙◌, true, false, List, [], ◌∷◌, ◌++◌, All-append, some, arith, All,
  Bool-cases, Option-cases, inl, inr,
}
use mathlib.Core.Path.{subst}
use gigamonkey.Merkle.Proof.{Digest, Leaf, Proof, leaf_eq, leaf_next, branch_root}
use gigamonkey.Merkle.Dual.{contains, check_branch, check_proofs_from, check_proofs}
use gigamonkey.Script.Counter.Same.{same_bytes→eq}

leaf_eq→eq : (k l : Leaf) → leaf_eq k l ≡ true → k ≡ l
unfolding leaf_eq
leaf_eq→eq k l h = ground (arith, same_bytes→eq k.digest l.digest, h)

module _ (sha2_256 : List ℕ → Digest) (r : Digest) where
  -- Some branch leads from the leaf to the root `r`.
  abbrev pub IsUnder : Leaf → Type 0
  IsUnder l = (ds : List Digest) × (branch_root sha2_256 l ds ≡ r)

  contains-IsUnder : (g : List Leaf) (l : Leaf) → All IsUnder g → contains g l ≡ true → IsUnder l
  unfolding contains
  contains-IsUnder [] l h c = cc
  contains-IsUnder (k ∷ g) l (hk, h) c = elim (Bool-cases (leaf_eq k l)) [
    | inl same ↦ subst IsUnder (leaf_eq→eq k l same) hk
    | inr other ↦ contains-IsUnder g l h (ground (arith, other, c))
  ]

  -- the leaves of a branch
  abbrev pub along : Leaf → List Digest → List Leaf
  along l [] = l ∷ []
  along l (d ∷ ds) = l ∷ along (leaf_next sha2_256 l d) ds

  -- None of the leaves `ks` is one of `ls`.
  abbrev pub IsApart : List Leaf → List Leaf → Type 0
  IsApart ks ls = All (λ l. contains ks l ≡ false) ls

  -- No leaf comes twice in a branch.
  abbrev pub IsAcyclic : Leaf → List Digest → Type 0
  IsAcyclic l [] = Unit {0}
  IsAcyclic l (d ∷ ds) =
      IsApart (l ∷ []) (along (leaf_next sha2_256 l d) ds) × IsAcyclic (leaf_next sha2_256 l d) ds

  contains-append :
      (xs ys : List Leaf) (l : Leaf)
      → contains xs l ≡ false
      → contains (xs ++ ys) l ≡ true
      → contains ys l ≡ true
  unfolding contains
  contains-append [] ys l h c = c
  contains-append (x ∷ xs) ys l h c = ground (arith, contains-append xs ys l, h, c)

  IsApart-cons :
      (l : Leaf) (ks ls : List Leaf) → IsApart (l ∷ []) ls → IsApart ks ls → IsApart (l ∷ ks) ls
  unfolding contains
  IsApart-cons l ks [] h k = tt
  IsApart-cons l ks (m ∷ ls) (h, hs) (k, ks') = (ground (arith, h, k), IsApart-cons l ks ls hs ks')

  seen_before :
      (g g' : List Leaf) (l : Leaf) (ds : List Digest)
      → contains g l ≡ true
      → check_branch sha2_256 g l ds r ≡ some g'
      → g ≡ g'
  unfolding check_branch
  seen_before g g' l [] seen e = ground (arith, seen, e)
  seen_before g g' l (d ∷ ds) seen e = ground (arith, seen, e)

  at_root :
      (g g' : List Leaf) (l : Leaf)
      → contains g l ≡ false
      → check_branch sha2_256 g l [] r ≡ some g'
      → (l.digest ≡ r) × (l ∷ g ≡ g')
  unfolding check_branch
  at_root g g' l new e = ground (arith, same_bytes→eq l.digest r, new, e)

  goes_on :
      (g g' : List Leaf) (l : Leaf) (d : Digest) (ds : List Digest)
      → contains g l ≡ false
      → check_branch sha2_256 g l (d ∷ ds) r ≡ some g'
      → check_branch sha2_256 (l ∷ g) (leaf_next sha2_256 l d) ds r ≡ some g'
  unfolding check_branch
  goes_on g g' l d ds new e = ground (arith, new, e)

  IsApart-nil : (ls : List Leaf) → IsApart [] ls
  unfolding contains
  IsApart-nil [] = tt
  IsApart-nil (l ∷ ls) = (refl, IsApart-nil ls)

  check_branch-IsUnder :
      (begun known g' : List Leaf) (l : Leaf) (ds : List Digest)
      → All IsUnder known
      → (IsUnder l → All IsUnder begun)
      → IsApart begun (along l ds)
      → IsAcyclic l ds
      → check_branch sha2_256 (begun ++ known) l ds r ≡ some g'
      → IsUnder l × All IsUnder g'
  unfolding branch_root
  check_branch-IsUnder begun known g' l [] h up (apart, _) acyclic e =
      elim (Bool-cases (contains (begun ++ known) l)) [
        | inl seen ↦
            let under = contains-IsUnder known l h (contains-append begun known l apart seen) in
            (
              under,
              subst (All IsUnder) (seen_before (begun ++ known) g' l [] seen e)
                  (All-append IsUnder begun known (up under) h),
            )
        | inr new ↦
            let (here, grown) = at_root (begun ++ known) g' l new e in
            let under : IsUnder l = ([], here) in
            (under, subst (All IsUnder) grown (under, All-append IsUnder begun known (up under) h))
      ]
  check_branch-IsUnder begun known g' l (d ∷ ds) h up (apart, rest) (once, acyclic) e =
      elim (Bool-cases (contains (begun ++ known) l)) [
        | inl seen ↦
            let under = contains-IsUnder known l h (contains-append begun known l apart seen) in
            (
              under,
              subst (All IsUnder) (seen_before (begun ++ known) g' l (d ∷ ds) seen e)
                  (All-append IsUnder begun known (up under) h),
            )
        | inr new ↦
            let l' = leaf_next sha2_256 l d in
            let (under', all) =
              check_branch-IsUnder (l ∷ begun) known g' l' ds h
                (λ u. ((d ∷ u.0, u.1), up (d ∷ u.0, u.1)))
                (IsApart-cons l begun (along l' ds) once rest) acyclic
                (goes_on (begun ++ known) g' l d ds new e) in
            ((d ∷ under'.0, under'.1), all)
      ]

  next_proof :
      (g g' : List Leaf) (p : Proof) (ps : List Proof)
      → check_branch sha2_256 g p.branch.leaf p.branch.digests p.root ≡ some g'
      → check_proofs_from sha2_256 g (p ∷ ps) ≡ check_proofs_from sha2_256 g' ps
  unfolding check_proofs_from
  next_proof g g' p ps goes = rw (goes, check_proofs_from)

  check_proofs_from-IsUnder :
      (g : List Leaf) (ps : List Proof)
      → All IsUnder g
      → All (λ p. (p.root ≡ r) × IsAcyclic p.branch.leaf p.branch.digests) ps
      → check_proofs_from sha2_256 g ps ≡ true
      → All (λ p. IsUnder p.branch.leaf) ps
  unfolding check_proofs_from
  check_proofs_from-IsUnder g [] h fine e = tt
  check_proofs_from-IsUnder g (p ∷ ps) h ((same, acyclic), fine) e =
      elim (Option-cases (check_branch sha2_256 g p.branch.leaf p.branch.digests p.root)) [
        | inl fails ↦ ground (arith, fails, e)
        | inr (g', goes) ↦
            let (under, h') =
              check_branch-IsUnder [] g g' p.branch.leaf p.branch.digests h (λ u. tt)
                (IsApart-nil (along p.branch.leaf p.branch.digests)) acyclic
                (ap (check_branch sha2_256 g p.branch.leaf p.branch.digests) (sym same) ∙ goes) in
            (under, check_proofs_from-IsUnder g' ps h' fine (sym (next_proof g g' p ps goes) ∙ e))
      ]

  -- Where `check_proofs` accepts proofs that have the root `r` all, and none of whose branches comes to
  -- a leaf a second time, there is for each proof some branch that leads from its leaf to `r`.
  pub check_proofs-IsUnder :
      (ps : List Proof)
      → All (λ p. (p.root ≡ r) × IsAcyclic p.branch.leaf p.branch.digests) ps
      → check_proofs sha2_256 ps ≡ true
      → All (λ p. IsUnder p.branch.leaf) ps
  unfolding check_proofs
  check_proofs-IsUnder ps fine e = check_proofs_from-IsUnder [] ps tt fine e
