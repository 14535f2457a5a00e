-- ===== src/Script/Stack/Erased.antt =====
-- The memory count through the loops of include/gigamonkey/script/stack.hpp that take several
-- elements away.
use mathlib.Core.List.{reverse, reverse_aux}
use native.Mathlib.Nat.{sub-zero, suc-sub-suc}
use gigamonkey.Base.{ℕ, zero, suc, ◌+◌, ◌-◌, ◌^◌, ◌≤◌, ◌<◌, ◌≡◌, ap, arith, ◌∙◌}
use gigamonkey.Base.{List, [], ◌∷◌, leb, length, take, drop, Bool-cases, inl, inr}
use gigamonkey.Script.Action.{done, ◌>>=◌, on_done, on_throw, Keeps, Any}
use gigamonkey.Script.Stack.{
  Bytes, Stacks, element_overhead, decrease_all, erase_range, valtypes_loop, move_to_valtypes,
}
use gigamonkey.Script.Stack.Memory.{
  memory, memory-append, memory-take-drop, WellCounted, decrease_lem, counting,
}

decrease_all_lem :
    (l : List Bytes) (s : Stacks)
    → memory l ≤ s.combined_size
    → s.combined_size < 2 ^ 64
    → decrease_all l s ≡ done tt (counting (s.combined_size - memory l) s)
unfolding decrease_all memory
decrease_all_lem [] s h fits = ap (λ c. done tt (counting c s)) (omega arith)
decrease_all_lem (v ∷ l) s h fits =
    rw (decrease_lem (length v + element_overhead) s (omega arith) fits, ◌>>=◌)
      (decrease_all_lem l (counting (s.combined_size - (length v + element_overhead)) s)
          (omega arith) (omega arith)
        ∙ ap (λ c. done tt (counting c s)) (omega arith))

-- A list cut at two places.
memory_cut :
    (last first : ℕ) (l : List Bytes)
    → last ≤ first
    → memory (take last l) + memory (take (first - last) (drop last l)) + memory (drop first l)
      ≡ memory l
unfolding memory
memory_cut zero first l h = rw sub-zero (omega (arith, memory-take-drop first l))
memory_cut (suc last) zero l h = absurd (omega arith)
memory_cut (suc last) (suc first) [] h =
    rw suc-sub-suc (omega (arith, memory-take-drop (first - last) []))
memory_cut (suc last) (suc first) (v ∷ l) h =
    rw suc-sub-suc (omega (arith, memory_cut last first l (omega arith)))

pub erase_range-Keeps : (first last : ℕ) → Keeps WellCounted Any (erase_range first last)
unfolding erase_range
erase_range-Keeps first last s i = elim (Bool-cases (leb first last)) [
  | inl bad ↦ rw bad (on_throw i)
  | inr good ↦
      let cut = memory_cut last first s.main (ground arith) in
      rw
        (
          good,
          decrease_all_lem (take (first - last) (drop last s.main)) s
              (omega (arith, cut, i.counted)) (omega (arith, i.within, i.limited)),
          ◌>>=◌,
        )
        (on_done tt record {
          counted =
              omega (arith, cut, i.counted, memory-append (take last s.main) (drop first s.main));
          within = omega (arith, i.within);
          limited = i.limited;
        })
]

valtypes_loop_lem :
    (l out : List Bytes) (s : Stacks)
    → memory l ≤ s.combined_size
    → s.combined_size < 2 ^ 64
    → valtypes_loop l out s ≡ done (reverse_aux l out) (counting (s.combined_size - memory l) s)
unfolding valtypes_loop memory
valtypes_loop_lem [] out s h fits = ap (λ c. done out (counting c s)) (omega arith)
valtypes_loop_lem (v ∷ l) out s h fits =
    rw (decrease_lem (length v + element_overhead) s (omega arith) fits, ◌>>=◌)
      (valtypes_loop_lem l (v ∷ out) (counting (s.combined_size - (length v + element_overhead)) s)
          (omega arith) (omega arith)
        ∙ ap (λ c. done (reverse_aux l (v ∷ out)) (counting c s)) (omega arith))

-- `MoveToValtypes` gives the elements from the bottom up, empties the stack, and leaves counted
-- what the alt stack takes.
pub move_to_valtypes_lem :
    (s : Stacks)
    → WellCounted s
    → move_to_valtypes s
      ≡ done (reverse s.main) (record s { combined_size = memory s.alt; main = [] })
unfolding move_to_valtypes
move_to_valtypes_lem s i =
    let c : s.combined_size - memory s.main ≡ memory s.alt = omega (arith, i.counted) in
    rw (
      valtypes_loop_lem s.main [] s (omega (arith, i.counted)) (omega (arith, i.within, i.limited)),
      ◌>>=◌,
      c,
    )
