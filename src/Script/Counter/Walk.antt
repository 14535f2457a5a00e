-- ===== src/Script/Counter/Walk.antt =====
-- src/gigamonkey/script/counter.cpp: the instructions that a walk through a script visits, and what
-- `find_and_delete` leaves of them.
use gigamonkey.Base.{
  drop-drop, ℕ, zero, suc, ◌+◌, ◌≤◌, ◌<◌, ◌≡◌, refl, sym, ap, ◌∙◌, List, [], ◌∷◌, ◌++◌,
}
use gigamonkey.Base.{
  arith, Bool, true, false, if◌then◌else◌, length, take, drop, append-nil, append_assoc,
}
use gigamonkey.Base.{length-drop, length-take}
use gigamonkey.Script.Counter.{
  instruction_size, read_instruction, ProgramCounter, start, advance, same_bytes, delete_loop,
  find_and_delete,
}

instruction_size-pos : (op : ℕ) (rest : List ℕ) → 1 ≤ instruction_size (op ∷ rest)
unfolding instruction_size
instruction_size-pos op rest = ground arith

length-read_instruction : (op : ℕ) (rest : List ℕ) → 1 ≤ length (read_instruction (op ∷ rest))
unfolding read_instruction
length-read_instruction op rest =
    omega
      (arith, length-take (instruction_size (op ∷ rest)) (op ∷ rest), instruction_size-pos op rest)

length-read_instruction_le : (s : List ℕ) → length (read_instruction s) ≤ length s
unfolding read_instruction
length-read_instruction_le s = omega (arith, length-take (instruction_size s) s)

take-append-drop-length : (n : ℕ) (s : List ℕ) → take n s ++ drop (length (take n s)) s ≡ s
take-append-drop-length zero s = refl
take-append-drop-length (suc n) [] = refl
take-append-drop-length (suc n) (x ∷ s) = ap (λ t. x ∷ t) (take-append-drop-length n s)

-- An instruction and what follows it are the script.
read_instruction-append :
    (s : List ℕ) → read_instruction s ++ drop (length (read_instruction s)) s ≡ s
unfolding read_instruction
read_instruction-append s = take-append-drop-length (instruction_size s) s

take-suc : (n : ℕ) (x : ℕ) (s : List ℕ) → 1 ≤ n → (ys : List ℕ) × (take n (x ∷ s) ≡ x ∷ ys)
take-suc zero x s h = absurd (omega (arith, h))
take-suc (suc n) x s h = (take n s, refl)

-- The counter stands in the script, at the instruction it holds.
abbrev pub IsAt : ProgramCounter → Type 0
IsAt p =
    (p.counter ≤ length p.script)
    × (p.last_code_separator ≤ p.counter)
    × (p.next ≡ read_instruction (drop p.counter p.script))

pub start-IsAt : (s : List ℕ) → IsAt (start s)
unfolding start
start-IsAt s = (omega arith, omega arith, refl)

-- What the walk does at the rest of the script.
length-next :
    (s : List ℕ)
    → length (read_instruction s) ≤ length s × (0 < length s → 0 < length (read_instruction s))
length-next [] = (length-read_instruction_le [], λ h. omega (arith, h))
length-next (x ∷ s) = (length-read_instruction_le (x ∷ s), λ h. length-read_instruction x s)

-- A step of the counter keeps it in the script, and goes on as long as there is something left.
pub advance-IsAt :
    (p : ProgramCounter)
    → IsAt p
    → IsAt (advance p) × (p.counter < length p.script → p.counter < (advance p).counter)
unfolding advance
advance-IsAt p (le, sep, next) =
    let (fits, moves) = length-next (drop p.counter p.script) in
    let len : length p.next ≡ length (read_instruction (drop p.counter p.script)) =
      ap length next in
    let left = length-drop p.counter p.script in
    (
      (omega (arith, fits, len, left, le), ground arith, refl),
      λ h. omega (arith, moves (omega (arith, left, h)), len),
    )

-- The instructions of a script, one after the other.
abbrev pub instructions : ℕ → List ℕ → List (List ℕ)
instructions zero s = []
instructions (suc fuel) [] = []
instructions (suc fuel) (x ∷ s) =
    read_instruction (x ∷ s) ∷ instructions fuel (drop (length (read_instruction (x ∷ s))) (x ∷ s))

abbrev pub joined : List (List ℕ) → List ℕ
joined [] = []
joined (x ∷ xs) = x ++ joined xs

abbrev pub without : List ℕ → List (List ℕ) → List (List ℕ)
without instruction [] = []
without instruction (x ∷ xs) =
    if same_bytes x instruction then without instruction xs else x ∷ without instruction xs

instructions-cover_loop :
    (fuel : ℕ) (s : List ℕ) → length s ≤ fuel → joined (instructions fuel s) ≡ s
instructions-cover_loop zero [] h = refl
instructions-cover_loop zero (x ∷ s) h = absurd (omega (arith, h))
instructions-cover_loop (suc fuel) [] h = refl
instructions-cover_loop (suc fuel) (x ∷ s) h =
    ap (λ t. read_instruction (x ∷ s) ++ t)
      (instructions-cover_loop fuel (drop (length (read_instruction (x ∷ s))) (x ∷ s)) (
        omega (
          arith,
          length-drop (length (read_instruction (x ∷ s))) (x ∷ s),
          length-read_instruction x s,
          h,
        )))
    ∙ read_instruction-append (x ∷ s)

-- The instructions of a script, put together, are the script.
pub instructions-cover : (s : List ℕ) → joined (instructions (length s) s) ≡ s
instructions-cover s = instructions-cover_loop (length s) s (omega arith)

-- One round of the loop, where an instruction is left and where none is.
delete_loop-step :
    (fuel : ℕ) (p : ProgramCounter) (i w ys : List ℕ) (y : ℕ)
    → p.next ≡ y ∷ ys
    → delete_loop (suc fuel) p i w
      ≡ delete_loop fuel (advance p) i (if same_bytes p.next i then w else w ++ p.next)
unfolding delete_loop
delete_loop-step fuel p i w ys y h = rw h

delete_loop-stop :
    (fuel : ℕ) (p : ProgramCounter) (i w : List ℕ) → p.next ≡ [] → delete_loop (suc fuel) p i w ≡ w
unfolding delete_loop
delete_loop-stop fuel p i w h = rw h

written-joined :
    (b : Bool) (w x : List ℕ) (xs : List (List ℕ))
    → (if b then w else w ++ x) ++ joined xs ≡ w ++ joined (if b then xs else x ∷ xs)
written-joined true w x xs = refl
written-joined false w x xs = append_assoc w x (joined xs)

delete_loop_lem :
    (fuel : ℕ) (p : ProgramCounter) (i w s : List ℕ)
    → drop p.counter p.script ≡ s
    → p.next ≡ read_instruction s
    → delete_loop fuel p i w ≡ w ++ joined (without i (instructions fuel s))
unfolding delete_loop read_instruction instruction_size advance
delete_loop_lem zero p i w s hs hn = sym (append-nil w)
delete_loop_lem (suc fuel) p i w [] hs hn = delete_loop-stop fuel p i w hn ∙ sym (append-nil w)
delete_loop_lem (suc fuel) p i w (x ∷ s) hs hn =
    let (ys, first) = take-suc (instruction_size (x ∷ s)) x s (instruction_size-pos x s) in
    let rest : List ℕ = drop (length (read_instruction (x ∷ s))) (x ∷ s) in
    let moved : drop (p.counter + length p.next) p.script ≡ rest =
      drop-drop (p.counter + length p.next) p.counter (length p.next) p.script refl
      ∙ ap (λ t. drop (length p.next) t) hs
      ∙ ap (λ t. drop (length t) (x ∷ s)) hn in
    delete_loop-step fuel p i w ys x (hn ∙ first)
    ∙ delete_loop_lem fuel (advance p) i (if same_bytes p.next i then w else w ++ p.next) rest moved
        (ap read_instruction moved)
    ∙ ap
        (λ t. (if same_bytes t i then w else w ++ t) ++ joined (without i (instructions fuel rest)))
        hn
    ∙ written-joined (same_bytes (read_instruction (x ∷ s)) i) w (read_instruction (x ∷ s))
        (without i (instructions fuel rest))

-- `find_and_delete` leaves the instructions of the script other than the one given, in their order.
pub find_and_delete-without :
    (s i : List ℕ) → find_and_delete s i ≡ joined (without i (instructions (length s) s))
unfolding find_and_delete start
find_and_delete-without s i = delete_loop_lem (length s) (start s) i [] s refl refl
