-- ===== src/Ledger/Valid.antt =====
-- Ledger.antt: what a valid vertex says of the transaction and the outputs that it redeems.
use gigamonkey.Base.{
  ℕ, suc, ◌+◌, ◌%◌, ◌^◌, List, [], ◌∷◌, Option, none, some, Bool, true, false, ◌≡◌, ◌↔◌, ◌∙◌, refl,
  ap, arith, if◌then◌else◌, ◌&&◌,
}
use gigamonkey.Base.Int.{ℤ, pos, ◌+ℤ◌, ltb_ℤ}
use gigamonkey.Ledger.{
  Edge, Vertex, contains, contains_all, find_output, edges_of, incoming_edges, sum_spent, spent,
  is_success, edge_valid, evaluate_edge, evaluate_all, edges_valid, vertex_valid,
}
use gigamonkey.P2p.VarInt.{Read, ◌>>=◌}
use gigamonkey.Script.Document.{Outpoint, Output, Signatures}
use gigamonkey.Script.Error.{EvalResult}
use gigamonkey.Script.Instruction.{is_ok}
use gigamonkey.Script.Machine.Crypto.{Hashes}
use gigamonkey.Script.Machine.Evaluate.{evaluate}
use gigamonkey.Sv.BigNum.{BigNum}
use gigamonkey.Timechain.Incomplete.{incomplete}
use gigamonkey.Timechain.Transaction.{
  Input, Transaction, word64, int64_of, sum_values, sent, input_valid, output_valid,
  transaction_valid, all_valid,
}
use mathlib.Core.Path.{subst}

-- a test that may throw, and what is asked where it passes
guarded :
    (o x : Option Bool)
    → (o >>= (λ v. if v then x else some false)) ≡ some true
    → (o ≡ some true) × (x ≡ some true)
guarded none x e = absurd (ground (arith, e))
guarded (some true) x e = (refl, e)
guarded (some false) x e = absurd (ground (arith, e))

chosen :
    (c : Bool) (x : Option Bool)
    → (if c then x else some false) ≡ some true
    → (c ≡ true) × (x ≡ some true)
chosen true x e = (refl, e)
chosen false x e = absurd (ground (arith, e))

refused :
    (c : Bool) (x : Option Bool)
    → (if c then some false else x) ≡ some true
    → (c ≡ false) × (x ≡ some true)
refused true x e = absurd (ground (arith, e))
refused false x e = (refl, e)

bound :
    {A B : Type 0} (o : Option A) (f : A → Option B) (b : B)
    → (o >>= f) ≡ some b
    → (a : A) × ((o ≡ some a) × (f a ≡ some b))
bound none f b e = absurd (ground (arith, e))
bound (some a) f b e = (a, (refl, e))

same_list : (es fs : List Edge) → some es ≡ some fs → es ≡ fs
same_list es fs e = ap (λ o. elim o [ none ↦ es | some x ↦ x ]) e

-- the outputs that edges redeem, and what is spent by them
abbrev outputs_of : List Edge → List Output
outputs_of [] = []
outputs_of (e ∷ es) = e.output ∷ outputs_of es

sum_spent-sum_values : (x : ℤ) (es : List Edge) → sum_spent x es ≡ sum_values x (outputs_of es)
unfolding sum_spent sum_values
sum_spent-sum_values x [] = refl
sum_spent-sum_values x (e ∷ es) = sum_spent-sum_values (int64_of (word64 (x +ℤ e.output.value))) es

module _ (past_end : Read ℕ) (b : BigNum) (h : Hashes) (g : Signatures) (fuel flags : ℕ) where
  -- The script of input `k` and that of its output are evaluated with success.
  abbrev pub IsUnlocked : Transaction → ℕ → Input → Output → Type 0
  IsUnlocked t k i o =
      (r : EvalResult) × ((evaluate past_end b h g fuel
            (some (record {
              redeemed_value = o.value;
              transaction = incomplete t;
              input_index = k % 2 ^ 32;
            }))
            i.script o.script flags
          ≡ some r)
        × ((is_ok r.error && r.success) ≡ true))

  -- From input `k` on, the outputs are those that the inputs refer to, one for each; inputs and
  -- outputs are valid, and each output is unlocked.
  abbrev pub Redeems :
      Transaction → List (Outpoint × Output) → ℕ → List Input → List Output → Type 0
  Redeems t m k [] [] = Unit {0}
  Redeems t m k [] (o ∷ os) = ⊥
  Redeems t m k (i ∷ is) [] = ⊥
  Redeems t m k (i ∷ is) (o ∷ os) =
      (find_output m i.reference ≡ some o)
      × ((output_valid past_end o ≡ some true)
          × ((input_valid past_end i ≡ some true)
              × (IsUnlocked t k i o × Redeems t m (suc k) is os)))

  edges-Redeems :
      (t : Transaction) (m : List (Outpoint × Output)) (k : ℕ) (is : List Input) (es : List Edge)
      → edges_of m is ≡ some es
      → all_valid (edge_valid past_end) es ≡ some true
      → evaluate_all past_end b h g fuel flags t (k % 2 ^ 32) es ≡ some true
      → Redeems t m k is (outputs_of es)
  unfolding edges_of all_valid edge_valid evaluate_all evaluate_edge is_success
  edges-Redeems t m k [] [] made valid ran = tt
  edges-Redeems t m k [] (x ∷ es) made valid ran = absurd (ground (arith, made))
  edges-Redeems t m k (i ∷ is) es made valid ran =
      let (o, (found, made1)) = bound (find_output m i.reference) _ es made in
      let (fs, (others, made2)) = bound (edges_of m is) _ es made1 in
      subst
        (λ xs.
          all_valid (edge_valid past_end) xs ≡ some true
          → evaluate_all past_end b h g fuel flags t (k % 2 ^ 32) xs ≡ some true
          → Redeems t m k (i ∷ is) (outputs_of xs))
        (same_list (record { output = o; input = i } ∷ fs) es made2)
        (λ valid ran.
          let (fine, valid') =
            guarded (edge_valid past_end (record { output = o; input = i })) _ valid in
          let (fine_output, fine_input) = guarded (output_valid past_end o) _ fine in
          let (r, (result, ran1)) =
            bound
              (evaluate_edge past_end b h g fuel flags t (k % 2 ^ 32)
                (record { output = o; input = i }))
              _ true ran in
          let (good, ran2) = chosen (is_success r) _ ran1 in
          let next : (k % 2 ^ 32 + 1) % 2 ^ 32 ≡ suc k % 2 ^ 32 = omega arith in
          (
            found,
            (
              fine_output,
              (
                fine_input,
                (
                  (r, (result, good)),
                  edges-Redeems t m (suc k) is fs others valid' (
                      subst (λ n. evaluate_all past_end b h g fuel flags t n fs ≡ some true) next
                        ran2),
                ),
              ),
            ),
          ))
        valid ran

  -- what `vertex::valid` finds of the edges, from input `k` on
  AreUnlocked : Transaction → List (Outpoint × Output) → ℕ → List Input → List Edge → Type 0
  AreUnlocked t m k is es =
      (edges_of m is ≡ some es)
      × ((contains_all m is ≡ true)
          × ((all_valid (edge_valid past_end) es ≡ some true)
              × (evaluate_all past_end b h g fuel flags t (k % 2 ^ 32) es ≡ some true)))

  Redeems-edges :
      (t : Transaction) (m : List (Outpoint × Output)) (k : ℕ) (is : List Input) (os : List Output)
      → Redeems t m k is os
      → (es : List Edge) × ((outputs_of es ≡ os) × AreUnlocked t m k is es)
  unfolding AreUnlocked edges_of contains_all contains all_valid edge_valid evaluate_all
      evaluate_edge is_success
  Redeems-edges t m k [] [] r = ([], (refl, (refl, (refl, (refl, refl)))))
  Redeems-edges t m k [] (o ∷ os) r = absurd r
  Redeems-edges t m k (i ∷ is) [] r = absurd r
  Redeems-edges t m k (i ∷ is) (o ∷ os)
        (found, (fine_output, (fine_input, ((r, (ran, good)), rest)))) =
      let (es, (same, (edges, (all, (valid, others))))) = Redeems-edges t m (suc k) is os rest in
      let next : (k % 2 ^ 32 + 1) % 2 ^ 32 ≡ suc k % 2 ^ 32 = omega arith in
      (
        record { output = o; input = i } ∷ es,
        (
          ap (λ l. o ∷ l) same,
          (
            rw (found, edges) refl,
            (
              rw (contains_all, contains, found) all,
              (rw (fine_output, fine_input) valid, rw (ran, good, next) others),
            ),
          ),
        ),
      )

  -- A vertex is valid just where its transaction is, and where there is, for each of its inputs, in their
  -- order, an output that the input refers to, so that: the values of the transaction's outputs are not
  -- more than those of the outputs that are redeemed, as sums of int64s; inputs and redeemed outputs are
  -- valid; and the script of each input and that of its output are evaluated with success, within the
  -- fuel that is given, over the value of that output and at the index of that input, as a uint32.
  pub vertex_valid-Redeems :
      (v : Vertex)
      → (vertex_valid past_end b h g fuel flags v ≡ some true) ↔ (
          (transaction_valid past_end v.transaction ≡ some true)
          × ((os : List Output) × ((ltb_ℤ
                    (sum_values (pos 0) os)
                    (sum_values (pos 0) v.transaction.outputs)
                  ≡ false)
                × Redeems v.transaction v.previous 0 v.transaction.inputs os)))
  unfolding vertex_valid edges_valid incoming_edges spent sent AreUnlocked
  vertex_valid-Redeems v = (
    λ e.
        let (valid, e1) = guarded (transaction_valid past_end v.transaction) _ e in
        let (all, e2) = chosen (contains_all v.previous v.transaction.inputs) _ e1 in
        let (es, (edges, e3)) =
          bound (incoming_edges v) (edges_valid past_end b h g fuel flags v) true e2 in
        let (fine, e4) = guarded (all_valid (edge_valid past_end) es) _ e3 in
        let (enough, e5) = refused (ltb_ℤ (spent es) (sent v.transaction)) _ e4 in
        (
          valid,
          (
            outputs_of es,
            (
              rw (← sum_spent-sum_values (pos 0) es) enough,
              edges-Redeems v.transaction v.previous 0 v.transaction.inputs es edges fine e5,
            ),
          ),
        ),
    λ (valid, (os, (enough, redeems))).
        let (es, (same, (edges, (all, (fine, ran))))) =
          Redeems-edges v.transaction v.previous 0 v.transaction.inputs os redeems in
        let sums : spent es ≡ sum_values (pos 0) os =
          sum_spent-sum_values (pos 0) es ∙ ap (sum_values (pos 0)) same in
        rw (valid, all, edges, fine, sums, enough) ran,
  )
