-- ===== src/P2p/VarInt/RoundTrip.antt =====
-- What `write` puts out, and that `read` takes it back.
use gigamonkey.Base.{ℕ, ◌+◌, ◌<◌, ◌^◌, ◌≡◌, refl, sym, ◌∙◌, List, [], ◌∷◌, ◌++◌, some, arith}
use gigamonkey.Base.{append_assoc, append-nil, length, length-append, All, ap}
use gigamonkey.Base.Bytes.{to_little, length-to_little, from_little-to_little}
use gigamonkey.P2p.VarInt.{
  Read, size, write, write_string, read_bytes, read_little, read, read_string, write_all,
  write_sequence, read_all, read_sequence,
}
use mathlib.Core.Path.{subst}

-- `var_int::size` is the number of bytes that `var_int::write` puts out.
pub length-write : (w : List ℕ) (x : ℕ) → length (write w x) ≡ length w + size x
unfolding write size
length-write w x = ground (
  arith,
  length-append w (x ∷ []),
  length-append w (0xfd ∷ to_little 2 x),
  length-append w (0xfe ∷ to_little 4 x),
  length-append w (0xff ∷ to_little 8 x),
  length-to_little 2 x,
  length-to_little 4 x,
  length-to_little 8 x,
)

-- `var_int::write` and `var_string::write` after other bytes
pub write-append : (w : List ℕ) (x : ℕ) → write w x ≡ w ++ write [] x
unfolding write
write-append w x = ground arith

pub write_string-append : (w b : List ℕ) → write_string w b ≡ w ++ write_string [] b
unfolding write_string
write_string-append w b = rw (write-append w (length b), append_assoc) refl

pub length-write_string : (b : List ℕ) → length (write_string [] b) ≡ size (length b) + length b
unfolding write_string
length-write_string b =
    omega (arith, length-append (write [] (length b)) b, length-write [] (length b))

-- the bytes of items, one after the other
abbrev pub joined : {X : Type 0} → (X → List ℕ) → List X → List ℕ
joined encoding [] = []
joined encoding (x ∷ l) = encoding x ++ joined encoding l

module _ (past_end : Read ℕ) where
  pub read_bytes-append :
      (bs rest : List ℕ) → read_bytes past_end (length bs) (bs ++ rest) ≡ some (bs, rest)
  unfolding read_bytes
  read_bytes-append [] rest = refl
  read_bytes-append (b ∷ bs) rest = rw (read_bytes-append bs rest)

  pub read_bytes_prefix :
      (k : ℕ) (bs rest : List ℕ)
      → length bs ≡ k
      → read_bytes past_end k (bs ++ rest) ≡ some (bs, rest)
  read_bytes_prefix k bs rest e =
      subst (λ n. read_bytes past_end n (bs ++ rest) ≡ some (bs, rest)) e
        (read_bytes-append bs rest)

  pub read_little-to_little :
      (k x : ℕ) (rest : List ℕ)
      → x < 256 ^ k
      → read_little past_end k (to_little k x ++ rest) ≡ some (x, rest)
  unfolding read_little
  read_little-to_little k x rest h =
      rw (
        read_bytes_prefix k (to_little k x) rest (length-to_little k x),
        from_little-to_little k x h,
      )

  -- `var_int::read` reads back any uint64 that `var_int::write` wrote, and leaves what follows.
  pub read-write :
      (x : ℕ) (rest : List ℕ) → x < 2 ^ 64 → read past_end (write [] x ++ rest) ≡ some (x, rest)
  unfolding read write
  read-write x rest h = ground (
    arith,
    read_little-to_little 2 x rest,
    read_little-to_little 4 x rest,
    read_little-to_little 8 x rest,
  )

  -- `var_string::read` reads back any string that `var_string::write` wrote.
  pub read_string-write_string :
      (b rest : List ℕ)
      → length b < 2 ^ 64
      → read_string past_end (write_string [] b ++ rest) ≡ some (b, rest)
  unfolding read_string write_string
  read_string-write_string b rest h =
      rw (append_assoc, read-write (length b) (b ++ rest) h, read_bytes-append) refl

  -- A sequence of items, each of which `put` writes as the bytes `encoding`, and which `get` takes back
  -- where they fit.
  module _ {X : Type 0} (put : List ℕ → X → List ℕ) (get : List ℕ → Read X) (encoding : X → List ℕ)
      (Fits : X → Type 0) (put_lem : (w : List ℕ) (x : X) → put w x ≡ w ++ encoding x)
      (get_lem : (x : X) (rest : List ℕ) → Fits x → get (encoding x ++ rest) ≡ some (x, rest)) where
    write_all-encodings : (w : List ℕ) (l : List X) → write_all put w l ≡ w ++ joined encoding l
    unfolding write_all
    write_all-encodings w [] = sym (append-nil w)
    write_all-encodings w (x ∷ l) = write_all-encodings (put w x) l ∙ rw (put_lem w x, append_assoc)

    read_all-encodings :
        (l acc : List X) (rest : List ℕ)
        → All Fits l
        → read_all past_end get (length l) acc (joined encoding l ++ rest) ≡ some (acc ++ l, rest)
    unfolding read_all
    read_all-encodings [] acc rest fit = rw append-nil
    read_all-encodings (x ∷ l) acc rest (fits, fit) =
        rw (append_assoc, get_lem x (joined encoding l ++ rest) fits)
          (read_all-encodings l (acc ++ (x ∷ [])) rest fit ∙ rw append_assoc)

    -- a written sequence is the number of its items, and their bytes
    pub write_sequence-joined :
        (l : List X) → write_sequence put [] l ≡ write [] (length l) ++ joined encoding l
    unfolding write_sequence
    write_sequence-joined l = write_all-encodings (write [] (length l)) l

    -- `var_sequence::write` after other bytes
    pub write_sequence-append :
        (w : List ℕ) (l : List X) → write_sequence put w l ≡ w ++ write_sequence put [] l
    unfolding write_sequence
    write_sequence-append w l =
        write_all-encodings (write w (length l)) l
        ∙ rw (write-append w (length l), append_assoc) refl
        ∙ ap (λ t. w ++ t) (sym (write_all-encodings (write [] (length l)) l))

    -- `var_sequence::read` reads back any sequence of fewer than 2 ^ 64 items that fit, and leaves what
    -- follows.
    pub read_sequence-fitting :
        (l : List X) (rest : List ℕ)
        → All Fits l
        → length l < 2 ^ 64
        → read_sequence past_end get (write_sequence put [] l ++ rest) ≡ some (l, rest)
    unfolding read_sequence write_sequence
    read_sequence-fitting l rest fit h =
        rw
          (
            write_all-encodings (write [] (length l)) l,
            append_assoc,
            read-write (length l) (joined encoding l ++ rest) h,
          )
          (read_all-encodings l [] rest fit)

  module _ {X : Type 0} (put : List ℕ → X → List ℕ) (get : List ℕ → Read X) (encoding : X → List ℕ)
      (put_lem : (w : List ℕ) (x : X) → put w x ≡ w ++ encoding x)
      (get_lem : (x : X) (rest : List ℕ) → get (encoding x ++ rest) ≡ some (x, rest)) where
    every : (l : List X) → All (λ x. Unit {0}) l
    every [] = tt
    every (x ∷ l) = (tt, every l)

    -- `var_sequence::read` reads back any sequence of fewer than 2 ^ 64 items that
    -- `var_sequence::write` wrote, and leaves what follows, where that holds of each item.
    pub read_sequence-write_sequence :
        (l : List X) (rest : List ℕ)
        → length l < 2 ^ 64
        → read_sequence past_end get (write_sequence put [] l ++ rest) ≡ some (l, rest)
    read_sequence-write_sequence l rest h =
        read_sequence-fitting put get encoding (λ x. Unit {0}) put_lem (λ x r u. get_lem x r) l rest
          (every l) h
