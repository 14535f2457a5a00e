-- ===== src/Work/Proof/Strings.antt =====
-- Work/Proof.antt: work strings, headers and proofs say the same.
use gigamonkey.Base.{
  ℕ, ◌-◌, ◌^◌, ◌<◌, List, ◌++◌, true, false, ◌≡◌, refl, ap, sym, ◌∙◌, arith, ltb, bit_and, bit_or,
}
use gigamonkey.Base.Bytes.{from_little, to_little}
use gigamonkey.Base.Wide.{bit_and_low, bit_or_shifted}
use gigamonkey.Merkle.Proof.{MerklePath, hash256, derive_root, branch_root}
use gigamonkey.Script.Counter.{same_bytes}
use gigamonkey.Script.Counter.Same.{same_bytes_refl}
use gigamonkey.Timechain.Header
use gigamonkey.Timechain.Header.RoundTrip.{FitsHeader, header_of_slice-header_bytes}
use gigamonkey.Work.Proof.{
  WorkString, no_proof, read_string, write_string, header_of_string, string_of_header, string_valid,
  string_hash, proof_string, proof_of_string, proof_root, general_purpose_bits, meta,
}
use mathlib.Core.List.{reverse}
use gigamonkey.Work.Target.{expand}
use native.Mathlib.Nat.{mod-eq_of_lt}

-- A work string that fits is read back from its 80 bytes, which are valid where it is.
pub read_string-write_string :
    (sha2_256 : List ℕ → List ℕ) (w : WorkString)
    → FitsHeader (header_of_string w)
    → (read_string (write_string w) ≡ w)
      × (Header.string_valid sha2_256 (write_string w) ≡ string_valid sha2_256 w)
unfolding read_string write_string header_of_string string_valid string_hash Header.string_valid
    Header.header_of_slice string_of_header
read_string-write_string sha2_256 w fits =
    let back : Header.header_of_slice (write_string w) ≡ header_of_string w =
      header_of_slice-header_bytes (header_of_string w) fits in
    (
      ap string_of_header back,
      ap (λ h. ltb (from_little (hash256 sha2_256 (write_string w))) (expand h.target)) back,
    )

module _ (sha2_256 : List ℕ → List ℕ) (w : WorkString) (mp : MerklePath) (h : List ℕ) (n1 : ℕ)
    (n2 b : List ℕ) where
  -- the coinbase that a proof stands for
  abbrev pub coinbase : List ℕ
  coinbase = h ++ (reverse (to_little 4 n1) ++ (n2 ++ b))

  -- The proof that is made of a work string is a proof of that string, where its merkle root is the hash of
  -- the coinbase.
  pub proof_string-proof_of_string :
      w.category < 2 ^ 32
      → w.merkle_root ≡ hash256 sha2_256 coinbase
      → proof_string sha2_256 (proof_of_string sha2_256 w mp h n1 n2 b) ≡ w
  unfolding proof_string proof_of_string proof_root meta derive_root branch_root
      general_purpose_bits
  proof_string-proof_of_string fits root =
      let same : same_bytes w.merkle_root (hash256 sha2_256 coinbase) ≡ true =
        ap (λ r. same_bytes w.merkle_root r) (sym root) ∙ same_bytes_refl w.merkle_root in
      let masked : bit_and w.category (2 ^ 32 - 1) ≡ w.category =
        bit_and_low 32 w.category ∙ mod-eq_of_lt fits in
      let whole : bit_or w.category 0 ≡ w.category =
        bit_or_shifted 32 w.category 0 fits ∙ omega arith in
      rw (same, masked, whole, sym root) refl

  -- It is the empty proof everywhere else, whatever the path that it is given.
  pub proof_of_string_root :
      same_bytes w.merkle_root (hash256 sha2_256 coinbase) ≡ false
      → proof_of_string sha2_256 w mp h n1 n2 b ≡ no_proof
  unfolding proof_of_string proof_root meta derive_root branch_root
  proof_of_string_root other = rw (other) refl
