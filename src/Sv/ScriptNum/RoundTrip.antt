-- ===== src/Sv/ScriptNum/RoundTrip.antt =====
-- src/sv/script/script_num.cpp: the bytes of a number that was put on the stack are read back as it.
use gigamonkey.Base.{
  some, ℕ, ◌≤◌, ◌<◌, ◌^◌, ◌≡◌, refl, true, false, List, [], ◌∷◌, length, arith, ltb, zero, suc,
}
use gigamonkey.Base.Int.{ℤ, pos, negsuc}
use gigamonkey.Script.Action.{done}
use gigamonkey.Sv.BigNum.{BigNum}
use gigamonkey.Sv.IntSerialization.{abs, serialize, deserialize}
use gigamonkey.Sv.IntSerialization.Minimal.{serialize_minimal}
use gigamonkey.Sv.IntSerialization.RoundTrip.{deserialize-serialize}
use gigamonkey.Sv.ScriptNum.{small, read_span, from_bytes, getvch}

module _ (b : BigNum) where
  read_span-some :
      (bs : List ℕ) (n : ℤ) → deserialize bs ≡ some n → read_span b bs false ≡ some (small n)
  unfolding deserialize read_span
  read_span-some [] n e = absurd (ground (arith, e))
  read_span-some (x ∷ xs) n e = rw (read_span, e) refl

  read_span-serialize : (n : ℤ) → abs n < 2 ^ 63 → read_span b (serialize n) false ≡ some (small n)
  unfolding abs serialize read_span
  read_span-serialize (pos zero) h = refl
  read_span-serialize (pos (suc n)) h =
      read_span-some (serialize (pos (suc n))) (pos (suc n))
        (deserialize-serialize (pos (suc n)) (omega arith) h)
  read_span-serialize (negsuc n) h =
      read_span-some (serialize (negsuc n)) (negsuc n)
        (deserialize-serialize (negsuc n) (omega arith) h)

  accepted : (n : ℕ) (max : ℕ) → n ≤ max → ltb max n ≡ false
  accepted n max h = ground (arith, h)

  -- An int64 whose magnitude has 63 bits is read back from its own bytes, with minimal encoding
  -- required, wherever that many bytes are allowed.
  pub from_bytes-getvch :
      {S : Type 0} (n : ℤ) (max_size : ℕ) (s : S)
      → abs n < 2 ^ 63
      → length (getvch b (small n)) ≤ max_size
      → from_bytes b (getvch b (small n)) true max_size false s ≡ done (small n) s
  unfolding from_bytes getvch
  from_bytes-getvch n max_size s h fits = rw (
    accepted (length (serialize n)) max_size fits,
    serialize_minimal n max_size fits,
    read_span-serialize n h,
  )
