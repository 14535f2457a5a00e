-- ===== src/Fees/Expected.antt =====
-- Fees.antt: the expected size and the size, and the documents that are signed.
use gigamonkey.Base.{
  ℕ, zero, suc, ◌+◌, ◌%◌, ◌^◌, ◌<◌, List, [], ◌∷◌, none, some, false, ◌≡◌, refl, ap, ◌∙◌, arith,
  ◌!=◌, length, get_elem?,
}
use gigamonkey.Fees.{
  DesignInput, TransactionDesign, incomplete_of_input, expected_input_size, expected_size,
  incomplete_of_design, complete_design, script_code, documents, documents_from,
}
use gigamonkey.P2p.VarInt.{size, sizes}
use gigamonkey.Script.Document
use gigamonkey.Script.Document.{SighashDocument}
use gigamonkey.Timechain.Incomplete.{complete, complete_inputs, complete_input}
use gigamonkey.Timechain.Transaction.{Transaction, input_size, transaction_size}
use mathlib.Core.List.{map}

-- the scripts have the sizes that were expected
abbrev pub AsExpected : List DesignInput → List (List ℕ) → Type 0
AsExpected [] [] = Unit {0}
AsExpected [] (x ∷ xs) = ⊥
AsExpected (i ∷ is) [] = ⊥
AsExpected (i ∷ is) (x ∷ xs) = (length x ≡ i.expected_script_size) × AsExpected is xs

AsExpected-length :
    (is : List DesignInput) (xs : List (List ℕ))
    → AsExpected is xs
    → length xs ≡ length (map incomplete_of_input is)
AsExpected-length [] [] h = refl
AsExpected-length [] (x ∷ xs) h = absurd h
AsExpected-length (i ∷ is) [] h = absurd h
AsExpected-length (i ∷ is) (x ∷ xs) (e, h) = ap suc (AsExpected-length is xs h)

completed_size :
    (is : List DesignInput) (xs : List (List ℕ))
    → AsExpected is xs
    → (sizes input_size (complete_inputs (map incomplete_of_input is) xs)
        ≡ sizes expected_input_size is)
      × (length (complete_inputs (map incomplete_of_input is) xs) ≡ length is)
unfolding complete_inputs complete_input input_size expected_input_size sizes
completed_size [] [] h = (refl, refl)
completed_size [] (x ∷ xs) h = absurd h
completed_size (i ∷ is) [] h = absurd h
completed_size (i ∷ is) (x ∷ xs) (e, h) =
    let (total, count) = completed_size is xs h in
    (omega (arith, ap size e, e, total), ap suc count)

-- With scripts of the sizes that were expected, the transaction has the expected size, but for the bytes of
-- the number of outputs, in the place of which those of the number of inputs are expected once more.
pub expected_size-transaction_size :
    (t : TransactionDesign) (redeem : List (List ℕ))
    → AsExpected t.inputs redeem
    → (u : Transaction) × ((complete_design t redeem ≡ some u)
        × (transaction_size u + size (length t.inputs) ≡ expected_size t + size (length t.outputs)))
unfolding complete_design complete incomplete_of_design transaction_size expected_size
expected_size-transaction_size t redeem h =
    let (total, count) = completed_size t.inputs redeem h in
    let same : (length redeem != length (map incomplete_of_input t.inputs)) ≡ false =
      ground (arith, AsExpected-length t.inputs redeem h) in
    (
      record {
        version = t.version;
        inputs = complete_inputs (map incomplete_of_input t.inputs) redeem;
        outputs = t.outputs;
        locktime = t.locktime;
      },
      (rw (same) refl, omega (arith, total, ap size count)),
    )

-- the document of an input
abbrev pub document_of : Document.Transaction → ℕ → DesignInput → SighashDocument
document_of u k x = record {
  redeemed = x.redeemed.value;
  script_code = script_code x;
  signed_transaction = u;
  index_of_input = k;
}

documents_from-get :
    (u : Document.Transaction) (is : List DesignInput) (k i : ℕ) (x : DesignInput)
    → k + length is < 2 ^ 32
    → get_elem? is i ≡ some x
    → get_elem? (documents_from u k is) i ≡ some (document_of u (k + i) x)
unfolding documents_from
documents_from-get u [] k i x few e = ground (arith, e)
documents_from-get u (y ∷ is) k zero x few e =
    let same : y ≡ x = ap (λ o. elim o [ none ↦ y | some v ↦ v ]) e in
    let first : k ≡ k + 0 = omega arith in
    ap (λ v. some (document_of u k v)) same ∙ ap (λ n. some (document_of u n x)) first
documents_from-get u (y ∷ is) k (suc i) x few e =
    let next : (k + 1) % 2 ^ 32 ≡ k + 1 = omega (arith, few) in
    let index : k + 1 + i ≡ k + suc i = omega arith in
    ap (λ n. get_elem? (documents_from u n is) i) next
    ∙ documents_from-get u is (k + 1) i x (omega (arith, few)) e
    ∙ ap (λ n. some (document_of u n x)) index

get-map :
    (is : List DesignInput) (i : ℕ) (x : DesignInput)
    → get_elem? is i ≡ some x
    → get_elem? (map incomplete_of_input is) i ≡ some (incomplete_of_input x)
get-map [] i x e = ground (arith, e)
get-map (y ∷ is) zero x e =
    ap (λ o. elim o [ none ↦ none | some v ↦ some (incomplete_of_input v) ]) e
get-map (y ∷ is) (suc i) x e = get-map is i x e

-- The document of each input stands at its index, with the value that it redeems and its script code, and
-- signs the transaction at that input.
pub documents-get :
    (t : TransactionDesign) (i : ℕ) (x : DesignInput)
    → length t.inputs < 2 ^ 32
    → get_elem? t.inputs i ≡ some x
    → (get_elem? (documents t) i ≡ some (document_of (incomplete_of_design t) i x))
      × (get_elem? (incomplete_of_design t).inputs i ≡ some (incomplete_of_input x))
unfolding documents incomplete_of_design
documents-get t i x few e =
    let index : 0 + i ≡ i = omega arith in
    (
      documents_from-get (incomplete_of_design t) t.inputs 0 i x (omega (arith, few)) e
          ∙ ap (λ n. some (document_of (incomplete_of_design t) n x)) index,
      get-map t.inputs i x e,
    )
