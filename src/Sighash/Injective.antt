-- ===== src/Sighash/Injective.antt =====
-- Sighash.antt: what the bytes of `Amaury::write` determine.
use gigamonkey.Base.{
  ℕ, ◌^◌, ◌<◌, List, [], ◌++◌, append_assoc, append-nil, none, some, ◌≡◌, refl, ap, sym, ◌∙◌, arith,
}
use gigamonkey.Base.{length, take, drop, take-length-append, drop-length-append}
use gigamonkey.Base.Bytes.{to_little, from_little, from_little-to_little, length-to_little}
use gigamonkey.P2p.VarInt.{read_string, write_string}
use gigamonkey.P2p.VarInt.RoundTrip.{read_string-write_string}
use gigamonkey.Merkle.Proof.{Digest, no_digest, hash256}
use gigamonkey.Script.Document
use gigamonkey.Script.Document.{Outpoint, SighashDocument}
use gigamonkey.Sighash
use gigamonkey.Timechain.Transaction.{word64, int64_of, write_outpoint}
use gigamonkey.Timechain.Transaction.RoundTrip.{IsInt64, int64_of-word64, word64_lt, FitsOutpoint}

-- what two lists with first parts of the same length have in common
split : (a b c d : List ℕ) → length a ≡ length b → a ++ c ≡ b ++ d → (a ≡ b) × (c ≡ d)
split a b c d size e = (
  sym (take-length-append a c)
      ∙ ap (take (length a)) e
      ∙ ap (λ n. take n (b ++ d)) size
      ∙ take-length-append b d,
  sym (drop-length-append a c)
      ∙ ap (drop (length a)) e
      ∙ ap (λ n. drop n (b ++ d)) size
      ∙ drop-length-append b d,
)

split_word :
    (k m n : ℕ) (c d : List ℕ)
    → m < 256 ^ k
    → n < 256 ^ k
    → to_little k m ++ c ≡ to_little k n ++ d
    → (m ≡ n) × (c ≡ d)
split_word k m n c d fits_m fits_n e =
    let (same, rest) =
      split (to_little k m) (to_little k n) c d (length-to_little k m ∙ sym (length-to_little k n))
        e in
    (
      sym (from_little-to_little k m fits_m)
          ∙ ap from_little same
          ∙ from_little-to_little k n fits_n,
      rest,
    )

split_string :
    (s t c d : List ℕ)
    → length s < 2 ^ 64
    → length t < 2 ^ 64
    → write_string [] s ++ c ≡ write_string [] t ++ d
    → (s ≡ t) × (c ≡ d)
split_string s t c d fits_s fits_t e =
    let both : some (s, c) ≡ some (t, d) =
      sym (read_string-write_string none s c fits_s)
      ∙ ap (read_string none) e
      ∙ read_string-write_string none t d fits_t in
    (
      ap (λ o. elim o [ none ↦ s | some p ↦ p.0 ]) both,
      ap (λ o. elim o [ none ↦ c | some p ↦ p.1 ]) both,
    )

split_outpoint :
    (o p : Outpoint) (c d : List ℕ)
    → FitsOutpoint o
    → FitsOutpoint p
    → write_outpoint [] o ++ c ≡ write_outpoint [] p ++ d
    → (o.digest ≡ p.digest) × (o.index ≡ p.index) × (c ≡ d)
unfolding write_outpoint
split_outpoint o p c d (size_o, fits_o) (size_p, fits_p) e =
    let e' : o.digest ++ (to_little 4 o.index ++ c) ≡ p.digest ++ (to_little 4 p.index ++ d) =
      sym (append_assoc o.digest (to_little 4 o.index) c)
      ∙ e
      ∙ append_assoc p.digest (to_little 4 p.index) d in
    let (digest, rest) =
      split o.digest p.digest (to_little 4 o.index ++ c) (to_little 4 p.index ++ d)
        (size_o ∙ sym size_p) e' in
    let (index, rest') = split_word 4 o.index p.index c d fits_o fits_p rest in
    (digest, index, rest')

-- The fields of a document are within the widths of their types.
unfoldable pub FitsDocument : SighashDocument → ℕ → Document.Input → Digest → Type 0
FitsDocument doc d x outputs =
    (doc.signed_transaction.version < 2 ^ 32)
    × FitsOutpoint x.reference
    × (length doc.script_code < 2 ^ 64)
    × IsInt64 doc.redeemed
    × (x.sequence < 2 ^ 32)
    × (length outputs ≡ 32)
    × (doc.signed_transaction.locktime < 2 ^ 32)
    × (d < 256)

none_size : length no_digest ≡ 32
none_size = refl

module _ (sha2_256 : List ℕ → List ℕ) (size : (m : List ℕ) → length (sha2_256 m) ≡ 32) where
  length-prevouts_digest :
      (doc : SighashDocument) (d : ℕ) → length (Sighash.prevouts_digest sha2_256 doc d) ≡ 32
  unfolding Sighash.prevouts_digest Sighash.hash_prevouts hash256
  length-prevouts_digest doc d =
      ground (arith, none_size, size (sha2_256 (Sighash.prevouts doc.signed_transaction.inputs)))

  length-sequence_digest :
      (doc : SighashDocument) (d : ℕ) → length (Sighash.sequence_digest sha2_256 doc d) ≡ 32
  unfolding Sighash.sequence_digest Sighash.hash_sequence hash256
  length-sequence_digest doc d =
      ground (arith, none_size, size (sha2_256 (Sighash.sequences doc.signed_transaction.inputs)))

  -- The bytes that are signed determine each part of what is signed, the digests among them.
  pub preimage-injective :
      (a b : SighashDocument) (d e : ℕ) (x y : Document.Input) (p q : Digest)
      → FitsDocument a d x p
      → FitsDocument b e y q
      → Sighash.preimage sha2_256 a d x p ≡ Sighash.preimage sha2_256 b e y q
      → (a.signed_transaction.version ≡ b.signed_transaction.version)
        × (Sighash.prevouts_digest sha2_256 a d ≡ Sighash.prevouts_digest sha2_256 b e)
        × (Sighash.sequence_digest sha2_256 a d ≡ Sighash.sequence_digest sha2_256 b e)
        × (x.reference.digest ≡ y.reference.digest)
        × (x.reference.index ≡ y.reference.index)
        × (a.script_code ≡ b.script_code)
        × (a.redeemed ≡ b.redeemed)
        × (x.sequence ≡ y.sequence)
        × (p ≡ q)
        × (a.signed_transaction.locktime ≡ b.signed_transaction.locktime)
        × (d ≡ e)
  unfolding FitsDocument Sighash.preimage
  preimage-injective a b d e x y p q fits_a fits_b same =
      let (va, oa, ca, ra, za, pa, la, da) = fits_a in
      let (vb, ob, cb, rb, zb, pb, lb, db) = fits_b in
      let (version, r1) =
        split_word 4 a.signed_transaction.version b.signed_transaction.version _ _ va vb same in
      let (prevouts, r2) =
        split (Sighash.prevouts_digest sha2_256 a d) (Sighash.prevouts_digest sha2_256 b e) _ _
          (length-prevouts_digest a d ∙ sym (length-prevouts_digest b e)) r1 in
      let (sequences, r3) =
        split (Sighash.sequence_digest sha2_256 a d) (Sighash.sequence_digest sha2_256 b e) _ _
          (length-sequence_digest a d ∙ sym (length-sequence_digest b e)) r2 in
      let (digest, index, r4) = split_outpoint x.reference y.reference _ _ oa ob r3 in
      let (code, r5) = split_string a.script_code b.script_code _ _ ca cb r4 in
      let (value, r6) =
        split_word 8 (word64 a.redeemed) (word64 b.redeemed) _ _ (word64_lt a.redeemed)
          (word64_lt b.redeemed) r5 in
      let (sequence, r7) = split_word 4 x.sequence y.sequence _ _ za zb r6 in
      let (outputs, r8) = split p q _ _ (pa ∙ sym pb) r7 in
      let (lock, r9) =
        split_word 4 a.signed_transaction.locktime b.signed_transaction.locktime _ _ la lb r8 in
      let r10 : to_little 4 d ++ [] ≡ to_little 4 e ++ [] =
        append-nil (to_little 4 d) ∙ r9 ∙ sym (append-nil (to_little 4 e)) in
      let (directive, nothing) =
        split_word 4 d e [] [] (omega (arith, da)) (omega (arith, db)) r10 in
      let redeemed : a.redeemed ≡ b.redeemed =
        sym (int64_of-word64 a.redeemed ra) ∙ ap int64_of value ∙ int64_of-word64 b.redeemed rb in
      (
        version, prevouts, sequences, digest, index, code, redeemed, sequence, outputs, lock,
        directive,
      )
