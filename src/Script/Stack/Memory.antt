-- ===== src/Script/Stack/Memory.antt =====
-- The memory count of include/gigamonkey/script/stack.hpp: it is what the elements of both stacks
-- take, it stays within the limit, and no operation that a step makes breaks that.
use native.Mathlib.Decide.{dec_lt}
use gigamonkey.Base.{ℕ, zero, suc, ◌+◌, ◌-◌, ◌^◌, ◌≤◌, ◌<◌, ◌≡◌, refl, ap, arith}
use gigamonkey.Base.{List, [], ◌∷◌, ◌++◌, some}
use gigamonkey.Base.{length, get_elem?, take, drop, set, Option-cases, ◌⊎◌, inl, inr}
use gigamonkey.Script.Action.{done, throws, ◌>>=◌, Ensures, on_done, on_throw, Keeps, Any}
use gigamonkey.Script.Error.{Exception, stack_overflow_error, out_of_range, other}
use gigamonkey.Script.Stack.{
  Bytes, Stacks, element_overhead, increase, decrease, at_distance, stacktop, push_back, pop_back,
  drop_top, erase, insert,
}

-- what a vector of elements takes: each its bytes and the overhead
unfoldable pub memory : List Bytes → ℕ
memory [] = 0
memory (v ∷ l) = length v + element_overhead + memory l

-- `std::vector` holds fewer bytes than this.
abbrev pub IsSize : Bytes → Type 0
IsSize v = length v + element_overhead < 2 ^ 63

-- The count is true and within the limit, which is an int64.
pub record WellCounted (s : Stacks) : Type 0 where
  pub counted : s.combined_size ≡ memory s.main + memory s.alt
  pub within : s.combined_size ≤ s.max_size
  pub limited : s.max_size < 2 ^ 63

pub memory-append : (l m : List Bytes) → memory (l ++ m) ≡ memory l + memory m
unfolding memory
memory-append [] m = omega arith
memory-append (v ∷ l) m = omega (arith, memory-append l m)

pub memory-take-drop : (n : ℕ) (l : List Bytes) → memory (take n l) + memory (drop n l) ≡ memory l
unfolding memory
memory-take-drop zero l = omega arith
memory-take-drop (suc n) [] = omega arith
memory-take-drop (suc n) (v ∷ l) = omega (arith, memory-take-drop n l)

pub memory-set :
    (l : List Bytes) (k : ℕ) {v : Bytes} (w : Bytes)
    → get_elem? l k ≡ some v
    → memory (set l k w) + length v ≡ memory l + length w
unfolding memory
memory-set [] k w h = cc
memory-set (x ∷ l) zero w h = ground arith
memory-set (x ∷ l) (suc k) w h = omega (arith, memory-set l k w h)

pub memory-get_elem? :
    (l : List Bytes) (k : ℕ) {v : Bytes}
    → get_elem? l k ≡ some v
    → memory (take k l ++ drop (suc k) l) + length v + element_overhead ≡ memory l
unfolding memory
memory-get_elem? [] k h = cc
memory-get_elem? (x ∷ l) zero h = ground arith
memory-get_elem? (x ∷ l) (suc k) h = omega (arith, memory-get_elem? l k h)

-- An element is read, or the read throws; either way the state is left alone.
pub at_distance_cases :
    (l : List Bytes) (k : ℕ) (s : Stacks)
    → ((x : Exception) × (at_distance l k s ≡ throws x s))
      ⊎ ((v : Bytes) × (at_distance l k s ≡ done v s) × (0 < k) × (get_elem? l (k - 1) ≡ some v))
unfolding at_distance
at_distance_cases l zero s = inl (other, refl)
at_distance_cases l (suc k) s = elim (Option-cases (get_elem? l k)) [
  | inl e ↦ inl (out_of_range, rw (e, at_distance))
  | inr (v, e) ↦
      let one : suc k - 1 ≡ k = omega arith in inr (v, rw (e, at_distance), omega arith, rw one e)
]

pub get_elem?-IsSize :
    (s : Stacks) (k : ℕ) {v : Bytes} → WellCounted s → get_elem? s.main k ≡ some v → IsSize v
get_elem?-IsSize s k i e =
    omega (arith, memory-get_elem? s.main k e, i.counted, i.within, i.limited)

pub at_distance-Keeps :
    (s : Stacks) (k : ℕ) → WellCounted s → Ensures WellCounted IsSize (at_distance s.main k s)
at_distance-Keeps s k i = elim (at_distance_cases s.main k s) [
  | inl (x, e) ↦ rw e (on_throw i)
  | inr (v, e, _, g) ↦ rw e (on_done (get_elem?-IsSize s (k - 1) i g) i)
]

pub stacktop-Keeps : (k : ℕ) → Keeps WellCounted IsSize (stacktop k)
unfolding stacktop
stacktop-Keeps k s i = at_distance-Keeps s k i

memory-inserted :
    (k : ℕ) (v : Bytes) (l : List Bytes)
    → memory (take k l ++ (v ∷ drop k l)) ≡ memory l + length v + element_overhead
unfolding memory
memory-inserted k v l = omega (arith, memory-append (take k l) (v ∷ drop k l), memory-take-drop k l)

-- The count of a state, at another value.
abbrev pub counting : ℕ → Stacks → Stacks
counting n s = record s { combined_size = n }

-- Neither the sum nor the difference of the count wraps around.
pub increase_cases :
    (n : ℕ) (s : Stacks)
    → s.combined_size ≤ s.max_size
    → s.max_size < 2 ^ 63
    → n < 2 ^ 63
    → (increase n s ≡ throws stack_overflow_error s)
      ⊎ ((increase n s ≡ done tt (counting (s.combined_size + n) s))
          × (s.combined_size + n ≤ s.max_size))
unfolding increase
increase_cases n s within limited h = elim (dec_lt s.max_size (s.combined_size + n)) [
  | yes over ↦ inl (ground arith)
  | no fits ↦ inr (ground arith, omega arith)
]

pub increase_fits :
    (n : ℕ) (s : Stacks)
    → s.combined_size + n ≤ s.max_size
    → s.max_size < 2 ^ 63
    → increase n s ≡ done tt (counting (s.combined_size + n) s)
unfolding increase
increase_fits n s fits limited = ground arith

pub decrease_lem :
    (n : ℕ) (s : Stacks)
    → n ≤ s.combined_size
    → s.combined_size < 2 ^ 64
    → decrease n s ≡ done tt (counting (s.combined_size - n) s)
unfolding decrease
decrease_lem n s h fits = ap (λ c. done tt (counting c s)) (omega arith)

pub push_back-Keeps : (v : Bytes) → IsSize v → Keeps WellCounted Any (push_back v)
unfolding push_back memory
push_back-Keeps v h s i =
    elim (increase_cases (length v + element_overhead) s i.within i.limited h) [
      | inl e ↦ rw (e, ◌>>=◌) (on_throw i)
      | inr (e, fits) ↦
          rw (e, ◌>>=◌)
            (on_done tt
              record { counted = omega (arith, i.counted); within = fits; limited = i.limited })
    ]

pub pop_back-Keeps : Keeps WellCounted Any pop_back
unfolding pop_back drop_top memory
pop_back-Keeps s i = dropped s.main refl
  where
    dropped : (l : List Bytes) → s.main ≡ l → Ensures WellCounted Any (drop_top l s)
    dropped [] e = on_throw i
    dropped (v ∷ l) e =
        let m : memory s.main ≡ length v + element_overhead + memory l = ap memory e in
        rw
          (
            decrease_lem (length v + element_overhead) s (omega (arith, i.counted))
                (omega (arith, i.within, i.limited)),
            ◌>>=◌,
          )
          (on_done tt record {
            counted = omega (arith, i.counted);
            within = omega (arith, i.within);
            limited = i.limited;
          })

pub insert-Keeps : (k : ℕ) (v : Bytes) → IsSize v → Keeps WellCounted Any (insert k v)
unfolding insert
insert-Keeps k v h s i =
    elim (increase_cases (length v + element_overhead) s i.within i.limited h) [
      | inl e ↦ rw (e, ◌>>=◌) (on_throw i)
      | inr (e, fits) ↦
          rw (e, ◌>>=◌)
            (on_done tt record {
              counted = omega (arith, i.counted, memory-inserted k v s.main);
              within = fits;
              limited = i.limited;
            })
    ]

pub erase-Keeps : (k : ℕ) → Keeps WellCounted Any (erase k)
unfolding erase
erase-Keeps k s i = elim (at_distance_cases s.main k s) [
  | inl (x, e) ↦ rw (e, ◌>>=◌) (on_throw i)
  | inr (v, e, pos_k, g) ↦
      let next : suc (k - 1) ≡ k = omega arith in
      let m = rw next at (memory-get_elem? s.main (k - 1) g) in
      rw
        (
          e,
          ◌>>=◌,
          decrease_lem (length v + element_overhead) s (omega (arith, i.counted))
              (omega (arith, i.within, i.limited)),
        )
        (on_done tt record {
          counted = omega (arith, i.counted);
          within = omega (arith, i.within);
          limited = i.limited;
        })
]
