-- ===== src/Script/Counter/Same.antt =====
-- src/gigamonkey/script/counter.cpp: comparing bytes.
use gigamonkey.Base.{ℕ, ◌≡◌, refl, List, [], ◌∷◌, true, arith}
use gigamonkey.Script.Counter.{same_bytes}

pub same_bytes_refl : (d : List ℕ) → same_bytes d d ≡ true
unfolding same_bytes
same_bytes_refl [] = refl
same_bytes_refl (x ∷ d) = ground (arith, same_bytes_refl d)

pub same_bytes→eq : (d e : List ℕ) → same_bytes d e ≡ true → d ≡ e
unfolding same_bytes
same_bytes→eq [] [] h = refl
same_bytes→eq [] (y ∷ e) h = ground (arith, h)
same_bytes→eq (x ∷ d) [] h = ground (arith, h)
same_bytes→eq (x ∷ d) (y ∷ e) h = ground (arith, same_bytes→eq d e)
