-- ===== src/Merkle/Server/Climb.antt =====
-- src/gigamonkey/merkle.cpp: the loop of `get_server_proof` climbs from a leaf to the root.
use gigamonkey.Base.{
  ℕ, zero, suc, ◌+◌, ◌%◌, ◌/◌, ◌^◌, ◌≤◌, ◌<◌, ◌≡◌, refl, ap, sym, ◌∙◌, List, [], ◌∷◌, ◌++◌, arith,
  length, append_assoc, length-append, some, get_elem?, lt→ltb,
}
use mathlib.Core.List.{reverse_aux}
use gigamonkey.Merkle.Proof.{Digest, leaf_next, branch_root}
use gigamonkey.Merkle.Rounds.{round}
use gigamonkey.Merkle.Server.{climb, half, sibling, last_digest}
use gigamonkey.Merkle.Server.Rounds.{rounds_above, length-round, half_lem, rounds_above_one}

pub last_digest-append :
    (xs ys : List Digest) → 1 ≤ length ys → last_digest (xs ++ ys) ≡ last_digest ys
unfolding last_digest
last_digest-append [] ys h = refl
last_digest-append (x ∷ []) [] h = absurd (omega (arith, h))
last_digest-append (x ∷ []) (y ∷ ys) h = refl
last_digest-append (x ∷ x' ∷ xs) ys h = last_digest-append (x' ∷ xs) ys h

get_elem?-behind :
    {A : Type 0} (pre xs : List A) (i : ℕ) → get_elem? (pre ++ xs) (length pre + i) ≡ get_elem? xs i
get_elem?-behind [] xs i = ap (get_elem? xs) (omega arith)
get_elem?-behind (a ∷ pre) xs i =
    let e : suc (length pre) + i ≡ suc (length pre + i) = omega arith in
    rw e (get_elem?-behind pre xs i)

pub get_elem?-before :
    {A : Type 0} (xs ys : List A) (i : ℕ) (a : A)
    → get_elem? xs i ≡ some a
    → get_elem? (xs ++ ys) i ≡ some a
get_elem?-before [] ys i a h = ground (arith, h)
get_elem?-before (x ∷ xs) ys zero a h = h
get_elem?-before (x ∷ xs) ys (suc i) a h = get_elem?-before xs ys i a h

sibling-suc-suc : (w i : ℕ) → 1 ≤ w → sibling (suc (suc w)) (suc (suc i)) ≡ suc (suc (sibling w i))
unfolding sibling
sibling-suc-suc w i h = ground arith

module _ (sha2_256 : List ℕ → Digest) where
  -- In a round, the sibling of a digest is there, and the digest of the two is in the next round.
  next_digest :
      (v : List Digest) (i : ℕ) (d : Digest)
      → get_elem? v i ≡ some d
      → (s : Digest) × (get_elem? v (sibling (length v) i) ≡ some s)
        × (get_elem? (round sha2_256 v) (i / 2)
            ≡ some (leaf_next sha2_256 (record { digest = d; index = i }) s).digest)
  unfolding round sibling leaf_next
  next_digest [] i d h = ground (arith, h)
  next_digest (a ∷ []) zero d h = (a, refl, cc)
  next_digest (a ∷ []) (suc i) d h = ground (arith, h)
  next_digest (a ∷ c ∷ v) zero d h = (c, ground arith, cc)
  next_digest (a ∷ c ∷ v) (suc zero) d h = (a, refl, cc)
  next_digest (a ∷ c ∷ []) (suc (suc i)) d h = ground (arith, h)
  next_digest (a ∷ c ∷ e ∷ v) (suc (suc i)) d h =
      let (s, at, up) = next_digest (e ∷ v) i d h in
      let third : suc (suc i) / 2 ≡ suc (i / 2) = omega arith in
      let same : suc (suc i) % 2 ≡ i % 2 = omega arith in
      (s, rw (sibling-suc-suc (suc (length v)) i (omega arith)) at, rw (third, same) up)

  climb-suc :
      (f w cumulative i : ℕ) (x p : List Digest) (s : Digest)
      → 1 < w
      → get_elem? x (cumulative + sibling w i) ≡ some s
      → climb (suc f) x w cumulative i p
        ≡ climb f x (half w) ((cumulative + w) % 2 ^ 32) (i / 2) (s ∷ p)
  unfolding climb
  climb-suc f w cumulative i x p s h at = rw (lt→ltb 1 w h, at, climb) refl

  climb_one :
      (f : ℕ) (x : List Digest) (cumulative i : ℕ) (p : List Digest)
      → climb f x 1 cumulative i p ≡ some p
  unfolding climb
  climb_one zero x cumulative i p = refl
  climb_one (suc f) x cumulative i p = refl

  -- From a digest of a round up to the root: what the loop collects leads there.
  pub climb_lem :
      (f i : ℕ) (d : Digest) (pre v p : List Digest)
      → length v ≤ suc f
      → get_elem? v i ≡ some d
      → length pre + length v + length (rounds_above sha2_256 f v) < 2 ^ 32
      → (ss : List Digest) × (climb f
            (pre ++ (v ++ rounds_above sha2_256 f v))
            (length v)
            (length pre)
            i
            p
          ≡ some (reverse_aux ss p))
        × (last_digest (v ++ rounds_above sha2_256 f v)
            ≡ some (branch_root sha2_256 (record { digest = d; index = i }) ss))
  unfolding rounds_above branch_root leaf_next last_digest
  climb_lem f i d pre [] p enough h small = ground (arith, h)
  climb_lem f zero d pre (a ∷ []) p enough h small = (
    [],
    climb_one f (pre ++ (a ∷ rounds_above sha2_256 f (a ∷ []))) (length pre) 0 p,
    ap (λ t. last_digest (a ∷ t)) (rounds_above_one sha2_256 f a) ∙ h,
  )
  climb_lem f (suc i) d pre (a ∷ []) p enough h small = ground (arith, h)
  climb_lem zero i d pre (a ∷ c ∷ v) p enough h small = absurd (omega (arith, enough))
  climb_lem (suc f) i d pre (a ∷ c ∷ v) p enough h small =
      let low = a ∷ c ∷ v in
      let above = round sha2_256 low in
      let rest = above ++ rounds_above sha2_256 f above in
      let size = length-round sha2_256 low in
      let more = length-append above (rounds_above sha2_256 f above) in
      let (s, at, up) = next_digest low i d h in
      let d' = (leaf_next sha2_256 (record { digest = d; index = i }) s).digest in
      let before = length-append pre low in
      let joined = append_assoc pre low rest in
      let sum : (length pre + length low) % 2 ^ 32 ≡ length (pre ++ low) =
        omega (arith, small, before) in
      let (ss, climbs, leads) =
        climb_lem f (i / 2) d' (pre ++ low) above (s ∷ p) (omega (arith, size, enough)) up
          (omega (arith, small, more, before)) in
      (
        s ∷ ss,
        climb-suc f (length low) (length pre) i (pre ++ (low ++ rest)) p s (omega arith) (
              get_elem?-behind pre (low ++ rest) (sibling (length low) i)
              ∙ get_elem?-before low rest (sibling (length low) i) s at)
            ∙ ap
                (λ n.
                  climb f (pre ++ (low ++ rest)) n ((length pre + length low) % 2 ^ 32) (i / 2)
                    (s ∷ p))
                (half_lem sha2_256 low (omega (arith, small, more, size)))
            ∙ ap (λ n. climb f (pre ++ (low ++ rest)) (length above) n (i / 2) (s ∷ p)) sum
            ∙ ap (λ x. climb f x (length above) (length (pre ++ low)) (i / 2) (s ∷ p)) (sym joined)
            ∙ climbs,
        last_digest-append low rest (omega (arith, more, size)) ∙ leads,
      )
