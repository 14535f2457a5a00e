-- ===== src/Merkle/Tree/Grown.antt =====
-- src/gigamonkey/merkle.cpp: the loop of `tree::make` over the rounds.
use gigamonkey.Base.{
  ℕ, zero, suc, ◌+◌, ◌-◌, ◌*◌, ◌≤◌, ◌<◌, ◌≡◌, refl, ap, sym, ◌∙◌, true, false, List, [], ◌∷◌, arith,
  length, All, append-nil, some, lt→ltb,
}
use mathlib.Core.List.{map}
use mathlib.Core.Path.{subst}
use native.Mathlib.Numerals.{add-one}
use gigamonkey.Merkle.Proof.{Digest, is_nonzero}
use gigamonkey.Merkle.Rounds.{round, root_loop}
use gigamonkey.Merkle.Tree.{Tree, right, is_empty, tip, pair, tree_root, grow}
use gigamonkey.Merkle.Tree.Levels.{
  IsMerkle, single, HasTwo, next_trees-HasTwo, IsLevel, leaves, all_leaves, next_trees,
  next_trees-IsLevel, next_trees-roots, next_trees-leaves,
}

module _ (sha2_256 : List ℕ → Digest) (none_root : Digest) where
  abbrev root_of : Tree → Digest
  root_of = tree_root sha2_256 none_root

  length-round : (ds : List Digest) → length (round sha2_256 ds) * 2 ≤ length ds + 1
  unfolding round
  length-round [] = omega arith
  length-round (a ∷ []) = omega arith
  length-round (a ∷ c ∷ ds) = omega (arith, length-round ds)

  round-nonempty : (ds : List Digest) → 1 ≤ length ds → 1 ≤ length (round sha2_256 ds)
  unfolding round
  round-nonempty [] h = h
  round-nonempty (a ∷ []) h = omega arith
  round-nonempty (a ∷ c ∷ ds) h = omega arith

  length-roots : (ts : List Tree) → length (map root_of ts) ≡ length ts
  length-roots [] = refl
  length-roots (t ∷ ts) = ap suc (length-roots ts)

  -- A round has half of the trees, and one at least.
  length-next :
      (ts : List Tree)
      → (length (next_trees sha2_256 none_root ts) * 2 ≤ length ts + 1)
        × (1 ≤ length ts → 1 ≤ length (next_trees sha2_256 none_root ts))
  length-next ts =
      let roots = ap length (next_trees-roots sha2_256 none_root ts) in
      let same = length-roots (next_trees sha2_256 none_root ts) in
      (
        omega (arith, roots, same, length-round (map root_of ts), length-roots ts),
        λ h. omega (
          arith,
          roots,
          same,
          round-nonempty (map root_of ts) (omega (arith, h, length-roots ts)),
        ),
      )

  grow-suc :
      (fuel : ℕ) (ds : List Digest) (trees : List Tree) (height : ℕ)
      → 1 < length ds
      → grow sha2_256 (suc fuel) ds trees height
        ≡ grow sha2_256 fuel (round sha2_256 ds) (pair (round sha2_256 ds) trees) (suc height)
  unfolding grow
  grow-suc fuel ds trees height h = rw (lt→ltb 1 (length ds) h, grow) (rw add-one)

  -- One tree of height `height` over the leaves `h`, with the root that the rounds have.
  pub record IsMade (h : List Digest) (w : ℕ) (ds : List Digest) (t : Tree) (k : ℕ) : Type 0 where
    pub shape : IsMerkle sha2_256 none_root k w t
    pub two : is_empty (right t) ≡ false
    pub taken : leaves t ≡ h
    pub rooted : (f : ℕ) → length ds ≤ f → root_loop sha2_256 f ds ≡ some (root_of t)

  one_root :
      (t : Tree) (f : ℕ)
      → length (root_of t ∷ []) ≤ f
      → root_loop sha2_256 f (root_of t ∷ []) ≡ some (root_of t)
  unfolding root_loop
  one_root t zero h = absurd (omega (arith, h))
  one_root t (suc f) h = refl

  more_rounds :
      (a c : Digest) (ds : List Digest) (t : Tree)
      → ((f : ℕ)
          → length (round sha2_256 (a ∷ c ∷ ds)) ≤ f
          → root_loop sha2_256 f (round sha2_256 (a ∷ c ∷ ds)) ≡ some (root_of t))
      → (f : ℕ) → length (a ∷ c ∷ ds) ≤ f
      → root_loop sha2_256 f (a ∷ c ∷ ds) ≡ some (root_of t)
  unfolding root_loop
  more_rounds a c ds t again zero h = absurd (omega (arith, h))
  more_rounds a c ds t again (suc f) h = again f (omega (arith, length-round (a ∷ c ∷ ds), h))

  grow-IsMade :
      (fuel k w : ℕ) (h : List Digest) (trees : List Tree)
      → IsLevel sha2_256 none_root k trees w
      → HasTwo sha2_256 none_root trees
      → all_leaves trees ≡ h
      → 1 ≤ length trees
      → length trees ≤ fuel
      → (t : Tree) × ((n : ℕ) × (grow sha2_256 fuel (map root_of trees) trees (suc k)
            ≡ some (t ∷ [], suc n))
          × IsMade h w (map root_of trees) t n)
  unfolding grow all_leaves
  grow-IsMade zero k w h trees level two took some_tree enough =
      absurd (omega (arith, some_tree, enough))
  grow-IsMade (suc fuel) k w h [] level two took some_tree enough =
      absurd (omega (arith, some_tree))
  grow-IsMade (suc fuel) k w h (t ∷ []) (ht, lo, hi) two took some_tree enough = (
    t,
    (
      k,
      refl,
      record {
        shape = ht;
        two = two;
        taken = sym (append-nil (leaves t)) ∙ took;
        rooted = one_root t;
      },
    ),
  )
  grow-IsMade (suc fuel) k w h (t ∷ u ∷ ts) level two took some_tree enough =
      let trees = t ∷ u ∷ ts in
      let next = next_trees sha2_256 none_root trees in
      let roots : map root_of next ≡ round sha2_256 (map root_of trees) =
        next_trees-roots sha2_256 none_root trees in
      let fewer = length-next trees in
      let (made, (n, grown, is_made)) =
        grow-IsMade fuel (suc k) w h next (next_trees-IsLevel sha2_256 none_root k w trees level)
          (next_trees-HasTwo sha2_256 none_root k w t u ts level)
          (next_trees-leaves sha2_256 none_root k w trees level ∙ took) (omega (arith, fewer))
          (omega (arith, fewer, enough)) in
      (
        made,
        (
          n,
          grow-suc fuel (map root_of trees) trees (suc k) (omega arith)
              ∙ ap (λ d. grow sha2_256 fuel d next (suc (suc k))) (sym roots)
              ∙ grown,
          record {
            shape = is_made.shape;
            two = is_made.two;
            taken = is_made.taken;
            rooted = more_rounds (root_of t) (root_of u) (map root_of ts) made (
                subst (λ d. (f : ℕ) → length d ≤ f → root_loop sha2_256 f d ≡ some (root_of made))
                  roots is_made.rooted);
          },
        ),
      )

  tips-IsLevel :
      (h : List Digest)
      → All (λ d. is_nonzero d ≡ true) h
      → IsLevel sha2_256 none_root 0 (map tip h) (length h)
  unfolding tip
  tips-IsLevel [] valid = refl
  tips-IsLevel (a ∷ []) (va, valid) = (single refl va, omega arith, omega arith)
  tips-IsLevel (a ∷ c ∷ h) (va, valid) =
      let more : suc (suc (length h)) - 1 ≡ suc (length h) = omega arith in
      (
        single refl va,
        omega arith,
        subst (λ n. IsLevel sha2_256 none_root 0 (map tip (c ∷ h)) n) (sym more)
            (tips-IsLevel (c ∷ h) valid),
      )

  tips-leaves : (h : List Digest) → all_leaves (map tip h) ≡ h
  unfolding tip all_leaves leaves is_empty
  tips-leaves [] = refl
  tips-leaves (a ∷ h) = ap (λ t. a ∷ t) (tips-leaves h)

  tips-roots : (h : List Digest) → map root_of (map tip h) ≡ h
  unfolding tip tree_root
  tips-roots [] = refl
  tips-roots (a ∷ h) = ap (λ t. a ∷ t) (tips-roots h)

  -- The rounds from the tips on, of two leaves at least.
  pub rounds-IsMade :
      (a c : Digest) (h : List Digest)
      → let ds = a ∷ c ∷ h in
        All (λ d. is_nonzero d ≡ true) ds
        → (t : Tree) × ((n : ℕ) × (grow sha2_256
                (suc (length ds))
                (round sha2_256 ds)
                (pair (round sha2_256 ds) (map tip ds))
                2
              ≡ some (t ∷ [], suc n))
            × IsMade ds (length ds) (round sha2_256 ds) t n)
  rounds-IsMade a c h valid =
      let ds = a ∷ c ∷ h in
      let tips = map tip ds in
      let next = next_trees sha2_256 none_root tips in
      let level = tips-IsLevel ds valid in
      let roots = next_trees-roots sha2_256 none_root tips in
      let under = tips-roots ds in
      let fewer = length-next tips in
      let size : length tips ≡ length ds = sym (length-roots tips) ∙ ap length under in
      let (t, (n, grown, made)) =
        grow-IsMade (suc (length ds)) 1 (length ds) ds next
          (next_trees-IsLevel sha2_256 none_root 0 (length ds) tips level)
          (next_trees-HasTwo sha2_256 none_root 0 (length ds) (tip a) (tip c) (map tip h) level)
          (next_trees-leaves sha2_256 none_root 0 (length ds) tips level ∙ tips-leaves ds)
          (fewer.1 (omega (arith, size))) (omega (arith, fewer.0, size)) in
      (
        t,
        (
          n,
          ap
                (λ d.
                  grow sha2_256 (suc (length ds)) (round sha2_256 d) (pair (round sha2_256 d) tips)
                    2)
                (sym under)
              ∙ ap (λ d. grow sha2_256 (suc (length ds)) d next 2) (sym roots)
              ∙ grown,
          subst (λ d. IsMade ds (length ds) d t n) (roots ∙ ap (round sha2_256) under) made,
        ),
      )

  pub round_shorter : (ds : List Digest) → 2 ≤ length ds → length (round sha2_256 ds) < length ds
  round_shorter ds h = omega (arith, length-round ds, h)
