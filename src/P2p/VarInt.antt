-- ===== src/P2p/VarInt.antt =====
-- include/gigamonkey/p2p/var_int.hpp and src/gigamonkey/p2p/var_int.cpp: numbers of 1, 3, 5 or 9
-- bytes, and the strings and sequences that begin with such a number.
-- A writer is the bytes that it was given. A reader is the bytes that are left; what reading does
-- when none are left is the data library's affair, and is the parameter `past_end`.
pub mod RoundTrip
pub mod Size
use gigamonkey.Base.{ℕ, zero, suc, ◌+◌, ◌-◌, ◌^◌, List, [], ◌∷◌, ◌++◌, Option, none, some}
use gigamonkey.Base.{leb, ltb, ◌==◌, if◌then◌else◌, length}
use gigamonkey.Base.Bytes.{to_little, from_little}

-- `var_int::size`
pub size : ℕ → ℕ
size x = if leb x 0xfc then 1 else if leb x 0xffff then 3 else if leb x 0xffff_ffff then 5 else 9

-- `var_int::write`
pub write : List ℕ → ℕ → List ℕ
write w x =
    if leb x 0xfc
    then w ++ (x ∷ [])
    else if leb x 0xffff
    then w ++ (0xfd ∷ to_little 2 x)
    else if leb x 0xffff_ffff
    then w ++ (0xfe ∷ to_little 4 x)
    else w ++ (0xff ∷ to_little 8 x)

-- `var_string::write`
pub write_string : List ℕ → List ℕ → List ℕ
write_string w b = write w (length b) ++ b

abbrev pub Read : Type 0 → Type 0
Read A = Option (A × List ℕ)

infixl 5 ◌>>=◌
abbrev pub ◌>>=◌ {ℓ κ} : {A : Type ℓ} {B : Type κ} → Option A → (A → Option B) → Option B
none >>= f = none
some a >>= f = f a

-- the sum that `data::fold` makes of the sizes of items
unfoldable pub sizes : {A : Type 0} → (A → ℕ) → List A → ℕ
sizes f [] = 0
sizes f (x ∷ xs) = f x + sizes f xs

module _ {X : Type 0} (put : List ℕ → X → List ℕ) where
  pub write_all : List ℕ → List X → List ℕ
  write_all w [] = w
  write_all w (x ∷ l) = write_all (put w x) l

  -- `var_sequence::write`, for items that `put` writes
  pub write_sequence : List ℕ → List X → List ℕ
  write_sequence w l = write_all (write w (length l)) l

module _ (past_end : Read ℕ) where
  -- `r >> b` for a byte `b`
  abbrev pub next : List ℕ → Read ℕ
  next [] = past_end
  next (b ∷ r) = some (b, r)

  -- `k` bytes, one after the other
  unfoldable pub read_bytes : ℕ → List ℕ → Read (List ℕ)
  read_bytes zero r = some ([], r)
  read_bytes (suc k) r = do (b, r') ← next r; (bs, r'') ← read_bytes k r'; some (b ∷ bs, r'')

  -- `r >> n` for a little-endian number of `k` bytes
  pub read_little : ℕ → List ℕ → Read ℕ
  read_little k r = do (bs, r') ← read_bytes k r; some (from_little bs, r')

  -- `var_int::read`
  pub read : List ℕ → Read ℕ
  read r = do
    (b, r') ← next r
    if leb b 0xfc
        then some (b, r')
        else if b == 0xfd
        then read_little 2 r'
        else if b == 0xfe
        then read_little 4 r'
        else read_little 8 r'

  -- `var_string::read`. The source's loop counts in an `int`, which holds lengths below 2 ^ 31.
  pub read_string : List ℕ → Read (List ℕ)
  read_string r = do (size, r') ← read r; read_bytes size r'

  -- `var_sequence::read`, for items that `get` reads. Its loop counts in an `int` too.
  module _ {X : Type 0} (get : List ℕ → Read X) where
    pub read_all : ℕ → List X → List ℕ → Read (List X)
    read_all zero l r = some (l, r)
    read_all (suc k) l r = do (x, r') ← get r; read_all k (l ++ (x ∷ [])) r'

    pub read_sequence : List ℕ → Read (List X)
    read_sequence r = do (size, r') ← read r; read_all size [] r'
