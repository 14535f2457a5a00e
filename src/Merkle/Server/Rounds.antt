-- ===== src/Merkle/Server/Rounds.antt =====
-- src/gigamonkey/merkle.cpp: the digests that the server's constructor writes.
use gigamonkey.Base.{
  ℕ, zero, suc, ◌+◌, ◌*◌, ◌%◌, ◌/◌, ◌^◌, ◌≤◌, ◌<◌, ◌≡◌, refl, ap, sym, ◌∙◌, List, [], ◌∷◌, ◌++◌,
  arith, length, append_assoc, length-append, lt→ltb,
}
use gigamonkey.Merkle.Proof.{Digest, hash_concatinated}
use gigamonkey.Merkle.Rounds.{round}
use gigamonkey.Merkle.Server.{count_rounds, half, fill}

module _ (sha2_256 : List ℕ → Digest) where
  -- the digests of the rounds above one
  unfoldable pub rounds_above : ℕ → List Digest → List Digest
  rounds_above zero v = []
  rounds_above (suc fuel) [] = []
  rounds_above (suc fuel) (a ∷ []) = []
  rounds_above (suc fuel) (a ∷ c ∷ v) =
      let above = round sha2_256 (a ∷ c ∷ v) in above ++ rounds_above fuel above

  pub rounds_above_one : (f : ℕ) (d : Digest) → rounds_above f (d ∷ []) ≡ []
  unfolding rounds_above
  rounds_above_one zero d = refl
  rounds_above_one (suc f) d = refl

  pub length-round : (v : List Digest) → length (round sha2_256 v) ≡ (length v + 1) / 2
  unfolding round
  length-round [] = omega arith
  length-round (a ∷ []) = omega arith
  length-round (a ∷ c ∷ v) = omega (arith, length-round v)

  pub length-rounds_above_le :
      (f : ℕ) (v : List Digest) → 1 ≤ length v → length (rounds_above f v) + 2 ≤ 2 * length v
  unfolding rounds_above round
  length-rounds_above_le zero v h = omega (arith, h)
  length-rounds_above_le (suc f) [] h = omega (arith, h)
  length-rounds_above_le (suc f) (a ∷ []) h = omega arith
  length-rounds_above_le (suc f) (a ∷ c ∷ []) h =
      omega (arith, ap length (rounds_above_one f (hash_concatinated sha2_256 a c)))
  length-rounds_above_le (suc f) (a ∷ c ∷ d ∷ v) h =
      let above = round sha2_256 (a ∷ c ∷ d ∷ v) in
      omega (
        arith,
        length-round (a ∷ c ∷ d ∷ v),
        length-append above (rounds_above f above),
        length-rounds_above_le f above (omega (arith, length-round (a ∷ c ∷ d ∷ v))),
      )

  pub half_lem :
      (v : List Digest) → length v + 1 < 2 ^ 32 → half (length v) ≡ length (round sha2_256 v)
  half_lem v h = omega (arith, length-round v, h)

  count_rounds-suc :
      (f w total height : ℕ)
      → 1 < w
      → count_rounds (suc f) w total height
        ≡ count_rounds f (half w) ((total + half w) % 2 ^ 32) (height + 1)
  unfolding count_rounds
  count_rounds-suc f w total height h = rw (lt→ltb 1 w h, count_rounds) refl

  -- The loops count the digests that there are.
  pub count_rounds_lem :
      (f total height : ℕ) (v : List Digest)
      → length v + 1 < 2 ^ 32
      → total + length (rounds_above f v) < 2 ^ 32
      → (count_rounds f (length v) total height).0 ≡ total + length (rounds_above f v)
  unfolding count_rounds rounds_above
  count_rounds_lem zero total height v fits small = omega arith
  count_rounds_lem (suc f) total height [] fits small = omega arith
  count_rounds_lem (suc f) total height (a ∷ []) fits small = omega arith
  count_rounds_lem (suc f) total height (a ∷ c ∷ v) fits small =
      let w = length (a ∷ c ∷ v) in
      let above = round sha2_256 (a ∷ c ∷ v) in
      let size = half_lem (a ∷ c ∷ v) fits in
      let more = length-append above (rounds_above f above) in
      let sum : (total + half w) % 2 ^ 32 ≡ total + length above =
        omega (arith, size, more, small) in
      ap (λ p. p.0)
        (count_rounds-suc f w total height (omega arith)
          ∙ ap (λ n. count_rounds f n ((total + half w) % 2 ^ 32) (height + 1)) size
          ∙ ap (λ n. count_rounds f (length above) n (height + 1)) sum)
      ∙ count_rounds_lem f (total + length above) (height + 1) above
          (omega (arith, length-round (a ∷ c ∷ v), fits)) (omega (arith, more, small))
      ∙ omega (arith, more)

  fill-done :
      (f total : ℕ) (out v : List Digest)
      → length (out ++ v) ≡ total
      → fill sha2_256 (suc f) total out v ≡ out ++ v
  unfolding fill
  fill-done f total out v h = ground (arith, h)

  fill-more :
      (f total : ℕ) (out v : List Digest)
      → length (out ++ v) < total
      → fill sha2_256 (suc f) total out v ≡ fill sha2_256 f total (out ++ v) (round sha2_256 v)
  unfolding fill
  fill-more f total out v h = ground (arith, h)

  -- The constructor writes each round once.
  pub fill_lem :
      (f total : ℕ) (out v : List Digest)
      → length v ≤ suc f
      → 1 ≤ length v
      → total ≡ length out + length v + length (rounds_above f v)
      → fill sha2_256 (suc f) total out v ≡ out ++ (v ++ rounds_above f v)
  unfolding rounds_above
  fill_lem f total out [] enough some_leaf e = absurd (omega (arith, some_leaf))
  fill_lem f total out (a ∷ []) enough some_leaf e =
      let top = rounds_above_one f a in
      fill-done f total out (a ∷ []) (omega (arith, length-append out (a ∷ []), e, ap length top))
      ∙ ap (λ t. out ++ (a ∷ t)) (sym top)
  fill_lem zero total out (a ∷ c ∷ v) enough some_leaf e = absurd (omega (arith, enough))
  fill_lem (suc f) total out (a ∷ c ∷ v) enough some_leaf e =
      let low = a ∷ c ∷ v in
      let above = round sha2_256 low in
      let size = length-round low in
      let more = length-append above (rounds_above f above) in
      fill-more (suc f) total out low (omega (arith, length-append out low, e, more, size))
      ∙ fill_lem f total (out ++ low) above (omega (arith, size, enough)) (omega (arith, size))
          (omega (arith, length-append out low, e, more))
      ∙ append_assoc out low (above ++ rounds_above f above)
