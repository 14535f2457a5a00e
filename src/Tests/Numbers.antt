-- ===== src/Tests/Numbers.antt =====
-- The theorems on numbers at concrete inputs.
use gigamonkey.Base.{some, false, ◌⊎◌, ℕ, ◌≡◌, refl, List, [], ◌∷◌, ◌++◌, arith}
use gigamonkey.Base.Int.{ℤ, pos, negsuc, ◌+ℤ◌, ◌-ℤ◌, ◌*ℤ◌}
use gigamonkey.Sv.IntSerialization.{
  back, before_back, serialize, deserialize, is_minimally_encoded, minimally_encode,
}
use gigamonkey.Sv.IntSerialization.Value.{value}
use gigamonkey.Sv.IntSerialization.Value.Encode.{minimally_encode-value}
use gigamonkey.Sv.IntSerialization.Value.Unique.{serialize-deserialize}
use gigamonkey.Sv.ScriptNum.{
  ScriptNum, small, read_span, num_add, num_subtract, num_multiply, getvch,
}
use gigamonkey.Script.Action.{done, throws}
use gigamonkey.Script.Error.{other}
use gigamonkey.Sv.ScriptNum.Range.{IsInt64, num_add-IsInt64, arithmetic-value}
use gigamonkey.Tests.{integers}

abbrev seven : ℕ
seven = 7

abbrev one : List ℕ
one = 1 ∷ []

abbrev padded_five : List ℕ
padded_five = 5 ∷ 0 ∷ []

abbrev number_255 : List ℕ
number_255 = 255 ∷ 0 ∷ []

serialize-deserialize_example :
    (n : ℤ) × ((deserialize number_255 ≡ some n) × (serialize n ≡ number_255))
unfolding is_minimally_encoded back before_back
serialize-deserialize_example =
    serialize-deserialize number_255 4 (omega arith) (omega arith) (omega arith) refl

minimally_encode-value_example :
    value (minimally_encode (5 ∷ 0 ∷ 128 ∷ [])).0 ≡ value (5 ∷ 0 ∷ 128 ∷ [])
minimally_encode-value_example = minimally_encode-value (5 ∷ 0 ∷ 128 ∷ []) (omega arith)

abbrev minus_five : List ℕ
minus_five = getvch integers (small (negsuc 4))

num_add-IsInt64_example :
    (((num_add integers (small (pos 2)) (small (pos 3)) seven ≡ done (small (pos 5)) seven)
        × IsInt64 (pos 5))
      ⊎ ((num_add integers (small (pos 2)) (small (pos 3)) seven ≡ throws other seven)
          × ¬ IsInt64 (pos 5)))
    × (((num_subtract integers (small (pos 2)) (small (pos 3)) seven
            ≡ done (small (negsuc 0)) seven)
          × IsInt64 (negsuc 0))
        ⊎ ((num_subtract integers (small (pos 2)) (small (pos 3)) seven ≡ throws other seven)
            × ¬ IsInt64 (negsuc 0)))
unfolding ◌+ℤ◌ ◌-ℤ◌
num_add-IsInt64_example = num_add-IsInt64 integers (pos 2) (pos 3) seven (omega arith) (omega arith)

arithmetic-value_example :
    (m : ScriptNum integers) × ((n : ScriptNum integers) × ((read_span integers (5 ∷ []) false
          ≡ some m)
        × ((read_span integers (0x82 ∷ []) false ≡ some n)
            × ((num_add integers m n seven
                  ≡ done (small (value (5 ∷ []) +ℤ value (0x82 ∷ []))) seven)
                × ((num_subtract integers m n seven
                      ≡ done (small (value (5 ∷ []) -ℤ value (0x82 ∷ []))) seven)
                    × (num_multiply integers m n seven
                        ≡ done (small (value (5 ∷ []) *ℤ value (0x82 ∷ []))) seven))))))
arithmetic-value_example =
    arithmetic-value integers (5 ∷ []) (0x82 ∷ []) seven (omega arith) (omega arith) (omega arith)
      (omega arith)

abbrev put_byte : List ℕ → ℕ → List ℕ
put_byte w x = w ++ (x ∷ [])
