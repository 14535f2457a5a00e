-- ===== src/Tests/Work.antt =====
-- Compact targets and proofs of work at concrete numbers. The hash gives 32 zeros.
use gigamonkey.Base.{
  ◌⊎◌, ℕ, ◌+◌, ◌*◌, ◌/◌, ◌^◌, ◌≤◌, ◌≡◌, ◌≢◌, ◌<◌, ◌-◌, refl, List, [], ◌∷◌, replicate, none, arith,
}
use gigamonkey.Merkle.Proof.{hash256}
use gigamonkey.Work.Boost.{category, magic_number, bits, category-magic_number-bits}
use gigamonkey.Work.Proof.{
  Puzzle, Solution, WorkString, cpu_solve, found, no_proof, proof_string, proof_of_string,
  last_byte,
}
use gigamonkey.Work.Proof.Shares.{IsShare, room}
use gigamonkey.Work.Proof.Solved.{Searched, cpu_solve-Ends}
use gigamonkey.Work.Proof.Strings.{proof_string-proof_of_string}
use gigamonkey.Work.Target.{encode, expand, of_uint256}
use gigamonkey.Work.Target.Rounded.{
  expand-of_uint256, of_uint256-expand-encode, of_uint256_small, IsNormal,
}

-- the digits 0x00ffff at exponent 29, the greatest target
unit-IsNormal : IsNormal 26 0xffff
unfolding IsNormal
unit-IsNormal = (omega arith, (omega arith, omega arith))

expand-of_uint256_example :
    (k : ℕ) × ((expand (of_uint256 7 0x12345678) ≡ 0x12345678 / 256 ^ k * 256 ^ k)
      × (2 ^ 15 ≤ 0x12345678 / 256 ^ k))
expand-of_uint256_example = expand-of_uint256 7 0x12345678 (omega arith) (omega arith)

of_uint256-expand-encode_example :
    of_uint256 7 (expand (encode (26 + 3) 0xffff)) ≡ encode (26 + 3) 0xffff
of_uint256-expand-encode_example =
    of_uint256-expand-encode 7 26 0xffff unit-IsNormal (omega arith) (omega arith)

of_uint256_small_example : expand (of_uint256 0 0x123456) ≡ 0
of_uint256_small_example = of_uint256_small 0 0x123456 (omega arith)

abbrev hashed : List ℕ → List ℕ
hashed m = replicate 32 0

abbrev puzzle : Puzzle
puzzle = record {
  candidate = record {
    category = 1;
    digest = replicate 32 0;
    target = 0x1d00ffff;
    path = record { index = 0; digests = [] };
  };
  header = 1 ∷ [];
  body = 2 ∷ [];
  mask = 2 ^ 32 - 1;
}

-- the last share
abbrev first_try : Solution
first_try = record {
  share = record { timestamp = 5; nonce = 2 ^ 32 - 1; extra_nonce_2 = 255 ∷ []; bits = none };
  extra_nonce_1 = 7;
}

first_try-IsShare : IsShare first_try.share
unfolding IsShare last_byte
first_try-IsShare = (omega arith, omega arith)

no_room : room first_try.share < 1
unfolding room last_byte
no_room = omega arith

cpu_solve-Ends_example :
    ((expand puzzle.candidate.target ≡ 0) × (cpu_solve hashed 1 puzzle first_try ≡ found no_proof))
    ⊎ ((expand puzzle.candidate.target ≢ 0)
        × Searched hashed puzzle first_try (cpu_solve hashed 1 puzzle first_try))
cpu_solve-Ends_example = cpu_solve-Ends hashed 1 puzzle first_try first_try-IsShare no_room

abbrev work_string : WorkString
work_string = record {
  category = 1;
  digest = replicate 32 0;
  merkle_root = replicate 32 0;
  timestamp = 5;
  target = 0x1d00ffff;
  nonce = 9;
}

proof_string-proof_of_string_example :
    proof_string hashed (
      proof_of_string hashed work_string
        (record { index = 0; digests = [] })
        (1 ∷ [])
        7
        (3 ∷ [])
        (2 ∷ []))
    ≡ work_string
unfolding hash256
proof_string-proof_of_string_example =
    proof_string-proof_of_string hashed work_string (record { index = 0; digests = [] }) (1 ∷ []) 7
      (3 ∷ []) (2 ∷ []) (omega arith) refl

category-magic_number-bits_example :
    (category (magic_number 0x2345_6789) (bits 0x2345_6789) ≡ 0x2345_6789)
    × (magic_number (category 0xe00f 0x1234) ≡ 0xe00f)
    × (bits (category 0xe00f 0x1234) ≡ 0x1234)
category-magic_number-bits_example =
    category-magic_number-bits 0x2345_6789 0xe00f 0x1234 (omega arith) (omega arith) (omega arith)
