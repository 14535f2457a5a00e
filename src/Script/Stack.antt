-- ===== src/Script/Stack.antt =====
-- include/gigamonkey/script/stack.hpp: the stack of the machine and its child, the alt stack, with
-- the memory that both use counted in the parent.
-- A list holds the elements with the top first, so `stacktop (-k)` is the element at `k - 1`.
-- Every `LimitedVector` of the two stacks was made by the parent, which only lends it to the child:
-- the test that an element belongs to the stack that it is pushed on always passes.
pub mod Memory
pub mod Counted
pub mod Erased
pub mod Kept
use gigamonkey.Base.{ℕ, zero, suc, ◌+◌, ◌-◌, ◌%◌, ◌^◌, List, [], ◌∷◌, ◌++◌, Option, none, some}
use gigamonkey.Base.{Bool, true, false, leb, ltb, ◌==◌, if◌then◌else◌, length, get_elem?}
use gigamonkey.Base.{take, drop, set, replicate}
use gigamonkey.Script.Action.{Outcome, done, throws, Action, ◌>>=◌, ◌>>◌, pure, skip, raise}
use gigamonkey.Script.Error.{Exception, stack_overflow_error, out_of_range, other}
use gigamonkey.Sv.IntSerialization.{minimally_encode}

abbrev pub Bytes : Type 0
Bytes = List ℕ

-- The two stacks. `combined_size` and `max_size` are the parent's; the child has none of its own.
pub record Stacks : Type 0 where
  pub combined_size : ℕ
  pub max_size : ℕ
  pub main : List Bytes
  pub alt : List Bytes

-- `LimitedStack (uint64_t)` and `makeChildStack`
abbrev pub empty_stacks : ℕ → Stacks
empty_stacks max_size = record { combined_size = 0; max_size = max_size; main = []; alt = [] }

abbrev pub StackOp : Type 0 → Type 0
StackOp = Action Stacks

-- `ELEMENT_OVERHEAD`
abbrev pub element_overhead : ℕ
element_overhead = 32

abbrev pub size : Stacks → ℕ
size s = length s.main

-- `increaseCombinedStackSize` and `decreaseCombinedStackSize`, on uint64
unfoldable pub increase : ℕ → StackOp (Unit {0})
increase n s =
    if ltb s.max_size ((s.combined_size + n) % 2 ^ 64)
    then throws stack_overflow_error s
    else done tt (record s { combined_size = (s.combined_size + n) % 2 ^ 64 })

unfoldable pub decrease : ℕ → StackOp (Unit {0})
decrease n s = done tt (record s { combined_size = (s.combined_size + 2 ^ 64 - n) % 2 ^ 64 })

-- the vector of the parent, as it is and after a change
abbrev pub get_main : StackOp (List Bytes)
get_main s = done s.main s

abbrev pub put_main : List Bytes → StackOp (Unit {0})
put_main l s = done tt (record s { main = l })

-- `stack.at (stack.size () - k)`, which throws where there are fewer elements. The operations that
-- take a distance refuse one that is not negative.
unfoldable pub at_distance : List Bytes → ℕ → StackOp Bytes
at_distance l zero s = throws other s
at_distance l (suc k) s = elim (get_elem? l k) [ none ↦ throws out_of_range s | some v ↦ done v s ]

-- `stacktop (-k)`
unfoldable pub stacktop : ℕ → StackOp Bytes
unfolding at_distance
stacktop k = do l ← get_main; at_distance l k

-- `push_back`
unfoldable pub push_back : Bytes → StackOp (Unit {0})
push_back v = do increase (length v + element_overhead); l ← get_main; put_main (v ∷ l)

-- `pop_back`
drop_top : List Bytes → StackOp (Unit {0})
drop_top [] = raise other
drop_top (v ∷ l) = do decrease (length v + element_overhead); put_main l

unfoldable pub pop_back : StackOp (Unit {0})
unfolding drop_top
pop_back = do l ← get_main; drop_top l

-- `erase (-first, -last)`
decrease_all : List Bytes → StackOp (Unit {0})
decrease_all [] = skip
decrease_all (v ∷ l) = do decrease (length v + element_overhead); decrease_all l

unfoldable pub erase_range : ℕ → ℕ → StackOp (Unit {0})
unfolding decrease_all
erase_range first last = if leb first last then raise other else do
  l ← get_main
  decrease_all (take (first - last) (drop last l))
  put_main (take last l ++ drop first l)

-- `erase (-k)`
unfoldable pub erase : ℕ → StackOp (Unit {0})
erase k = do
  l ← get_main
  v ← at_distance l k
  decrease (length v + element_overhead)
  put_main (take (k - 1) l ++ drop k l)

-- `insert (-k, element)`: behind the `k` elements at the top
unfoldable pub insert : ℕ → Bytes → StackOp (Unit {0})
insert k v = do
  increase (length v + element_overhead)
  l ← get_main
  put_main (take k l ++ (v ∷ drop k l))

-- `swapElements (size () - i, size () - j)`
unfoldable pub swap_elements : ℕ → ℕ → StackOp (Unit {0})
swap_elements i j = do
  l ← get_main
  a ← at_distance l i
  b ← at_distance l j
  put_main (set (set l (i - 1) b) (j - 1) a)

-- `AltStack.moveTopToStack (Stack)` and `Stack.moveTopToStack (AltStack)`
move_top : List Bytes → List Bytes → (List Bytes → List Bytes → Stacks) → StackOp (Unit {0})
move_top [] to moved s = throws out_of_range s
move_top (v ∷ from) to moved s = done tt (moved from (v ∷ to))

unfoldable pub move_to_alt : StackOp (Unit {0})
unfolding move_top
move_to_alt s = move_top s.main s.alt (λ m a. record s { main = m; alt = a }) s

unfoldable pub move_from_alt : StackOp (Unit {0})
unfolding move_top
move_from_alt s = move_top s.alt s.main (λ a m. record s { main = m; alt = a }) s

-- `vch[i] = …` on the element at distance `k`, which keeps its size: `new` is the element after it.
unfoldable pub overwrite : ℕ → Bytes → StackOp (Unit {0})
overwrite k new = do l ← get_main; put_main (set l (k - 1) new)

-- `LimitedVector::append` on the top element
unfoldable pub append_to_top : Bytes → StackOp (Unit {0})
append_to_top second = do
  v ← stacktop 1
  increase (length second)
  l ← get_main
  put_main (set l 0 (v ++ second))

-- `LimitedVector::padRight` on the top element
pub padded : Bytes → ℕ → ℕ → Bytes
padded v size signbit = v ++ (replicate (size - length v - 1) 0 ++ (signbit ∷ []))

unfoldable pub pad_right : ℕ → ℕ → StackOp (Unit {0})
pad_right size signbit = do
  v ← stacktop 1
  if ltb (length v) size
      then (do increase (size - length v); l ← get_main; put_main (set l 0 (padded v size signbit)))
      else skip

-- `LimitedVector::MinimallyEncode` on the top element
unfoldable pub minimally_encode_top : StackOp Bool
minimally_encode_top = do
  v ← stacktop 1
  decrease (length v)
  l ← get_main
  put_main (set l 0 (minimally_encode v).0)
  increase (length (minimally_encode v).0)
  pure (minimally_encode v).1

-- `MoveToValtypes`: the elements, from the bottom, and an empty stack
valtypes_loop : List Bytes → List Bytes → StackOp (List Bytes)
valtypes_loop [] out = pure out
valtypes_loop (v ∷ l) out = do decrease (length v + element_overhead); valtypes_loop l (v ∷ out)

unfoldable pub move_to_valtypes : StackOp (List Bytes)
unfolding valtypes_loop
move_to_valtypes = do l ← get_main; out ← valtypes_loop l []; put_main []; pure out
