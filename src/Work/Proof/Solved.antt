-- ===== src/Work/Proof/Solved.antt =====
-- Work/Proof.antt: the search for a solution ends, and which shares it has tried then.
use gigamonkey.Base.{
  ℕ, zero, suc, ◌<◌, ◌≤◌, Bool, true, false, ◌≡◌, ◌≢◌, ◌⊎◌, inl, inr, refl, ap, sym, ◌∙◌, arith,
  Bool-cases, Option-cases, ◌==◌, List,
}
use gigamonkey.Work.Proof.{
  Puzzle, Share, Solution, Proof, Search, found, throws, bump, solve_loop, cpu_solve, proof_valid,
  no_proof,
}
use gigamonkey.Work.Proof.Shares.{
  IsShare, Follows, room, later, later-zero, bump-Follows, last-room,
}
use gigamonkey.Work.Target.{expand}

-- The proof that is tried after `n` others.
unfoldable pub attempt : Puzzle → Solution → ℕ → Proof
attempt p x n = record { puzzle = p; solution = record x { share = later n x.share } }

-- The first `n` of what is tried fail.
abbrev pub AllFail : (ℕ → Bool) → ℕ → Type 0
AllFail test zero = Unit {0}
AllFail test (suc n) = AllFail test n × (test n ≡ false)

AllFail-next :
    (test rest : ℕ → Bool)
    → test 0 ≡ false
    → ((n : ℕ) → rest n ≡ test (suc n))
    → (n : ℕ) → AllFail rest n
    → AllFail test (suc n)
AllFail-next test rest first same zero fails = (tt, first)
AllFail-next test rest first same (suc n) (fails, last) =
    (AllFail-next test rest first same n fails, sym (same n) ∙ last)

module _ (sha2_256 : List ℕ → List ℕ) where
  unfoldable pub tries : Puzzle → Solution → ℕ → Bool
  tries p x n = proof_valid sha2_256 (attempt p x n)

  -- An exception comes after the last share has failed, and otherwise what is found is the first that
  -- is valid.
  abbrev pub Searched : Puzzle → Solution → Search → Type 0
  Searched p x o =
      ((o ≡ throws) × AllFail (tries p x) (suc (room x.share)))
      ⊎ ((n : ℕ) × ((n ≤ room x.share)
            × ((o ≡ found (attempt p x n)) × ((tries p x n ≡ true) × AllFail (tries p x) n))))

  attempt-zero :
      (p : Puzzle) (x : Solution)
      → IsShare x.share
      → attempt p x 0 ≡ record { puzzle = p; solution = x }
  unfolding attempt IsShare
  attempt-zero p x (nonce, last) = rw (later-zero x.share nonce) refl

  -- what is tried from the next share on
  tries-next :
      (p : Puzzle) (x : Solution) (s : Share)
      → Follows x.share s
      → (n : ℕ) → attempt p (record x { share = s }) n ≡ attempt p x (suc n)
  unfolding attempt Follows
  tries-next p x s (fits, (less, same)) n = rw (same n) refl

  Searched-next :
      (p : Puzzle) (x : Solution) (s : Share) (o : Search)
      → Follows x.share s
      → tries p x 0 ≡ false
      → Searched p (record x { share = s }) o
      → Searched p x o
  unfolding tries Follows
  Searched-next p x s o follows first searched =
      let same : (n : ℕ) → tries p (record x { share = s }) n ≡ tries p x (suc n) =
        λ n. ap (proof_valid sha2_256) (tries-next p x s follows n) in
      let next = AllFail-next (tries p x) (tries p (record x { share = s })) first same in
      let (fits, (less, later)) = follows in
      elim searched [
        | inl (thrown, fails) ↦ inl (thrown, rw (less) (next (suc (room s)) fails))
        | inr (n, (within, (is, (valid, fails)))) ↦ inr (
          suc n,
          (
            omega (arith, within, less),
            (is ∙ ap found (tries-next p x s follows n), (sym (same n) ∙ valid, next n fails)),
          ),
        )
      ]

  solve_loop-Searched :
      (fuel : ℕ) (p : Puzzle) (x : Solution)
      → IsShare x.share
      → room x.share < fuel
      → Searched p x (solve_loop sha2_256 fuel p x)
  unfolding solve_loop tries Follows
  solve_loop-Searched zero p x fits enough = absurd (omega (arith, enough))
  solve_loop-Searched (suc fuel) p x fits enough =
      let start = attempt-zero p x fits in
      elim (Bool-cases (proof_valid sha2_256 (record { puzzle = p; solution = x }))) [
        | inl valid ↦ inr (
          0,
          (
            omega arith,
            (rw (valid) (ap found (sym start)), (ap (proof_valid sha2_256) start ∙ valid, tt)),
          ),
        )
        | inr invalid ↦
            let first : tries p x 0 ≡ false = ap (proof_valid sha2_256) start ∙ invalid in
            elim (Option-cases (bump x.share)) [
              | inl none_left ↦
                  inl (
                    rw (invalid, none_left) refl,
                    rw (last-room x.share fits none_left) (tt, first),
                  )
              | inr (s, e) ↦
                  let follows = bump-Follows x.share s fits e in
                  let (fits', (less, later)) = follows in
                  rw (invalid, e)
                    (Searched-next p x s (solve_loop sha2_256 fuel p (record x { share = s }))
                      follows first
                      (solve_loop-Searched fuel p (record x { share = s }) fits'
                        (omega (arith, less, enough))))
            ]
      ]

  -- From a share whose nonce has 32 bits and whose last byte is a byte, with more fuel than the shares
  -- that come after it, the search comes to an end. A target that
  -- expands to 0 gives the empty proof. With any other target the shares are tried in the order of
  -- their nonces, with the last byte of the extra nonce counted up where the nonce is over: the result
  -- is the first that makes a valid proof of the puzzle, and the exception comes only where all of
  -- them, the last included, have failed.
  pub cpu_solve-Ends :
      (fuel : ℕ) (p : Puzzle) (x : Solution)
      → IsShare x.share
      → room x.share < fuel
      → ((expand p.candidate.target ≡ 0) × (cpu_solve sha2_256 fuel p x ≡ found no_proof))
        ⊎ ((expand p.candidate.target ≢ 0) × Searched p x (cpu_solve sha2_256 fuel p x))
  unfolding cpu_solve
  cpu_solve-Ends fuel p x fits enough = elim (Bool-cases (expand p.candidate.target == 0)) [
    | inl no_target ↦ inl (ground (arith, no_target), rw (no_target) refl)
    | inr target ↦
        inr (ground (arith, target), rw (target) (solve_loop-Searched fuel p x fits enough))
  ]
