-- ===== src/Script/Machine/Truth.antt =====
-- src/gigamonkey/script/machine.cpp: `CastToBool` and the numbers.
use gigamonkey.Base.{ℕ, zero, suc, ◌≡◌, ◌≢◌, ◌↔◌, List, [], ◌∷◌, Bool, true, false, arith, All}
use gigamonkey.Base.Bytes.{IsByte}
use gigamonkey.Base.Int.{pos}
use gigamonkey.Script.Machine.{cast_to_bool, is_last}
use gigamonkey.Sv.IntSerialization.{signed}
use gigamonkey.Sv.IntSerialization.Value.{magnitude, sign, value}

cast_to_bool_iff : (v : List ℕ) → All IsByte v → (cast_to_bool v ≡ true) ↔ (magnitude v ≢ 0)
unfolding cast_to_bool is_last magnitude
cast_to_bool_iff [] h = ground arith
cast_to_bool_iff (x ∷ []) h = ground (arith, h)
cast_to_bool_iff (x ∷ y ∷ v) h = ground (arith, h.0, cast_to_bool_iff (y ∷ v) h.1)

signed_zero : (s : Bool) (n : ℕ) → (n ≢ 0) ↔ (signed s n ≢ pos 0)
unfolding signed
signed_zero true zero = ground arith
signed_zero true (suc n) = ground arith
signed_zero false n = ground arith

-- Bytes are true exactly when the integer that they stand for is not 0, of either sign.
pub cast_to_bool-value : (v : List ℕ) → All IsByte v → (cast_to_bool v ≡ true) ↔ (value v ≢ pos 0)
unfolding value
cast_to_bool-value v h =
    let (to, from) = cast_to_bool_iff v h in
    let (to', from') = signed_zero (sign v) (magnitude v) in (λ e. to' (to e), λ e. from (from' e))
