-- ===== src/P2p/VarInt/Size.antt =====
-- How many bytes a sequence is written in.
use gigamonkey.Base.{ℕ, ◌+◌, ◌≡◌, arith, List, [], ◌∷◌, length, All}
use gigamonkey.P2p.VarInt.{size, sizes, write, write_all, write_sequence}
use gigamonkey.P2p.VarInt.RoundTrip.{length-write}

module _ {X : Type 0} (put : List ℕ → X → List ℕ) (measure : X → ℕ) (P : X → Type 0)
    (put_lem : (w : List ℕ) (x : X) → P x → length (put w x) ≡ length w + measure x) where
  length-write_all :
      (w : List ℕ) (l : List X) → All P l → length (write_all put w l) ≡ length w + sizes measure l
  unfolding write_all sizes
  length-write_all w [] all = omega arith
  length-write_all w (x ∷ l) (one, all) =
      omega (arith, length-write_all (put w x) l all, put_lem w x one)

  -- A sequence takes the bytes of its items, and of their number.
  pub length-write_sequence :
      (w : List ℕ) (l : List X)
      → All P l
      → length (write_sequence put w l) ≡ length w + size (length l) + sizes measure l
  unfolding write_sequence
  length-write_sequence w l all =
      omega (arith, length-write_all (write w (length l)) l all, length-write w (length l))
