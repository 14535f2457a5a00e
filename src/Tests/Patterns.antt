-- ===== src/Tests/Patterns.antt =====
-- Patterns of scripts at concrete inputs, where no data is a number.
use gigamonkey.Base.{ℕ, ◌≡◌, refl, [], ◌∷◌, none, false, Bool, List}
use gigamonkey.Base.Int.{ℤ}
use gigamonkey.Script.Pattern.{
  text, optional, repeated, or_more, endless, fails, scan, scan_text, Slots,
}
use gigamonkey.Script.Pattern.Compiled.{Element, asked, read_into}
use gigamonkey.Script.Instruction.{op_code, with_data}
use gigamonkey.Script.Pattern.Endless.{scan_repeated_optional}

abbrev not_a_value : ℤ → List ℕ → Bool
not_a_value v d = false

-- a push of two bytes, and OP_DROP
abbrev pushes : List Element
pushes = read_into 0 (with_data 2 (7 ∷ 8 ∷ [])) ∷ asked (op_code 0x75) ∷ []

absent : (s : Slots) → scan none not_a_value 5 (text (1 ∷ [])) [] s ≡ fails s
unfolding scan scan_text
absent s = refl

scan_repeated_optional_example :
    scan none not_a_value 5 (repeated (optional (text (1 ∷ []))) 0 none or_more) [] [] ≡ endless
scan_repeated_optional_example =
    scan_repeated_optional none not_a_value 5 (text (1 ∷ [])) 0 [] [] absent
