-- ===== src/Merkle/Server/Proofs.antt =====
-- src/gigamonkey/merkle.cpp: the root and the proofs of a server made from leaves.
use gigamonkey.Base.{
  ℕ, zero, suc, ◌^◌, ◌≤◌, ◌<◌, ◌≡◌, refl, ap, sym, ◌∙◌, List, [], ◌∷◌, ◌++◌, arith, length,
  length-append, some, get_elem?,
}
use mathlib.Core.List.{reverse_aux, reverse, reverse-reverse}
use native.Mathlib.Nat.{mod-eq_of_lt}
use gigamonkey.Merkle.Proof.{Digest, Proof, branch_root}
use gigamonkey.Merkle.Rounds.{round, root, root_loop}
use gigamonkey.Merkle.Server.{serve, get_server_proof, server_root, climb, last_digest}
use gigamonkey.Merkle.Server.Rounds.{
  rounds_above, length-round, rounds_above_one, count_rounds_lem, fill_lem, length-rounds_above_le,
}
use gigamonkey.Merkle.Server.Climb.{climb_lem, last_digest-append, get_elem?-before}

module _ (sha2_256 : List ℕ → Digest) where
  rounds_above_none : (f : ℕ) → rounds_above sha2_256 f [] ≡ []
  unfolding rounds_above
  rounds_above_none zero = refl
  rounds_above_none (suc f) = refl

  rounds_above_enough :
      (f g : ℕ) (v : List Digest)
      → length v ≤ suc f
      → length v ≤ suc g
      → rounds_above sha2_256 f v ≡ rounds_above sha2_256 g v
  unfolding rounds_above
  rounds_above_enough f g [] p q = rounds_above_none f ∙ sym (rounds_above_none g)
  rounds_above_enough f g (a ∷ []) p q =
      rounds_above_one sha2_256 f a ∙ sym (rounds_above_one sha2_256 g a)
  rounds_above_enough zero g (a ∷ c ∷ v) p q = absurd (omega (arith, p))
  rounds_above_enough (suc f) zero (a ∷ c ∷ v) p q = absurd (omega (arith, q))
  rounds_above_enough (suc f) (suc g) (a ∷ c ∷ v) p q =
      let above = round sha2_256 (a ∷ c ∷ v) in
      let size = length-round sha2_256 (a ∷ c ∷ v) in
      ap (λ t. above ++ t)
        (rounds_above_enough f g above (omega (arith, size, p)) (omega (arith, size, q)))

  -- The digests of a server are those of the leaves and of the rounds above them.
  serve-digests :
      (a : Digest) (l : List Digest)
      → length (a ∷ l) < 2 ^ 30
      → (serve sha2_256 (a ∷ l)).digests ≡ (a ∷ l) ++ rounds_above sha2_256 (length (a ∷ l)) (a ∷ l)
  unfolding serve
  serve-digests a l fits =
      let h = a ∷ l in
      let above = length-rounds_above_le sha2_256 (length h) h (omega arith) in
      let total =
        count_rounds_lem sha2_256 (length h) (length h) 1 h (omega (arith, fits))
          (omega (arith, fits, above)) in
      let same = rounds_above_enough (length l) (length h) h (omega arith) (omega arith) in
      fill_lem sha2_256 (length l) _ [] h (omega arith) (omega arith)
        (omega (arith, total, ap length same))
      ∙ ap (λ t. h ++ t) same

  serve-width :
      (a : Digest) (l : List Digest)
      → length (a ∷ l) < 2 ^ 30
      → (serve sha2_256 (a ∷ l)).width ≡ length (a ∷ l)
  unfolding serve
  serve-width a l fits = mod-eq_of_lt (omega (arith, fits))

  -- The last of the digests is what `root` computes.
  last_digest-root_loop :
      (f : ℕ) (v : List Digest)
      → 1 ≤ length v
      → length v ≤ suc f
      → last_digest (v ++ rounds_above sha2_256 f v) ≡ root_loop sha2_256 (suc f) v
  unfolding rounds_above root_loop last_digest
  last_digest-root_loop f [] some_leaf enough = absurd (omega (arith, some_leaf))
  last_digest-root_loop f (a ∷ []) some_leaf enough =
      ap (λ t. last_digest (a ∷ t)) (rounds_above_one sha2_256 f a)
  last_digest-root_loop zero (a ∷ c ∷ v) some_leaf enough = absurd (omega (arith, enough))
  last_digest-root_loop (suc f) (a ∷ c ∷ v) some_leaf enough =
      let low = a ∷ c ∷ v in
      let above = round sha2_256 low in
      let size = length-round sha2_256 low in
      last_digest-append low (above ++ rounds_above sha2_256 f above)
        (omega (arith, size, length-append above (rounds_above sha2_256 f above)))
      ∙ last_digest-root_loop f above (omega (arith, size)) (omega (arith, size, enough))

  get_server_proof_lem :
      (x : List Digest) (w i : ℕ) (p : List Digest) (d r : Digest)
      → climb w x w 0 i [] ≡ some p
      → get_elem? x i ≡ some d
      → last_digest x ≡ some r
      → get_server_proof x w i
        ≡ some record {
          branch = record { leaf = record { digest = d; index = i }; digests = reverse p };
          root = r;
        }
  unfolding get_server_proof
  get_server_proof_lem x w i p d r climbs at last = rw (climbs, at, last, get_server_proof)

  -- A server made from leaves, fewer than 2 ^ 30, has a proof for the leaf `d` at each index `i`. The
  -- branch of the proof leads from the leaf to the root of the proof, and that is the root of the
  -- server and what `root` computes from the leaves.
  pub serve-get_server_proof :
      (h : List Digest) (i : ℕ) (d : Digest)
      → length h < 2 ^ 30
      → get_elem? h i ≡ some d
      → (p : Proof) × (get_server_proof (serve sha2_256 h).digests (serve sha2_256 h).width i
          ≡ some p)
        × (p.branch.leaf ≡ record { digest = d; index = i })
        × (branch_root sha2_256 p.branch.leaf p.branch.digests ≡ p.root)
        × (server_root (serve sha2_256 h) ≡ some p.root)
        × (root sha2_256 h ≡ some p.root)
  unfolding server_root root
  serve-get_server_proof [] i d fits at = ground (arith, at)
  serve-get_server_proof (a ∷ l) i d fits at =
      let h = a ∷ l in
      let all = serve-digests a l fits in
      let x = h ++ rounds_above sha2_256 (length h) h in
      let above = length-rounds_above_le sha2_256 (length h) h (omega arith) in
      let (ss, climbs, leads) =
        climb_lem sha2_256 (length h) i d [] h [] (omega arith) at (omega (arith, above, fits)) in
      let r = branch_root sha2_256 (record { digest = d; index = i }) ss in
      let p : Proof = record {
        branch = record { leaf = record { digest = d; index = i }; digests = ss };
        root = r;
      } in
      let same = rounds_above_enough (length l) (length h) h (omega arith) (omega arith) in
      (
        p,
        ap (λ y. get_server_proof y (serve sha2_256 h).width i) all
            ∙ ap (λ w. get_server_proof x w i) (serve-width a l fits)
            ∙ get_server_proof_lem x (length h) i (reverse_aux ss []) d r climbs
                (get_elem?-before h (rounds_above sha2_256 (length h) h) i d at) leads
            ∙ ap
                (λ t. some record {
                  branch = record { leaf = record { digest = d; index = i }; digests = t };
                  root = r;
                })
                (reverse-reverse ss),
        refl,
        refl,
        ap last_digest all ∙ leads,
        sym (last_digest-root_loop (length l) h (omega arith) (omega arith))
            ∙ ap (λ t. last_digest (h ++ t)) same
            ∙ leads,
      )
