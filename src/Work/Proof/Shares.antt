-- ===== src/Work/Proof/Shares.antt =====
-- Work/Proof.antt: the shares that a search for a solution tries, by how many nonces they are later
-- than the first. A share without an extra nonce has no more than the nonces that are left to it.
use gigamonkey.Base.{
  ℕ, suc, ◌+◌, ◌-◌, ◌*◌, ◌/◌, ◌%◌, ◌^◌, ◌<◌, List, [], ◌∷◌, Option, none, some, false, ◌≡◌, ◌⊎◌,
  inl, inr, refl, ap, sym, ◌∙◌, arith, Bool-cases, Option-cases, ◌==◌,
}
use gigamonkey.Work.Proof.{Share, bump, last_byte, bump_last}
use mathlib.Core.Path.{subst}

some_value : {a b : Share} → some a ≡ some b → a ≡ b
some_value {a} {b} e = ap (λ o. elim o [ none ↦ a | some s ↦ s ]) e

none-some : {a : Share} → none ≡ some a → ⊥
none-some e = ground (arith, e)

last_byte-bump_last :
    (bs : List ℕ) (b : ℕ) → last_byte bs ≡ some b → last_byte (bump_last bs) ≡ some (suc b)
unfolding last_byte bump_last
last_byte-bump_last [] b e = ground (arith, e)
last_byte-bump_last (c ∷ []) b e = ground (arith, e)
last_byte-bump_last (c ∷ d ∷ []) b e = last_byte-bump_last (d ∷ []) b e
last_byte-bump_last (c ∷ d ∷ e' ∷ bs) b e = last_byte-bump_last (d ∷ e' ∷ bs) b e

abbrev pub last_value : Option ℕ → ℕ
last_value none = 255
last_value (some b) = b

-- A nonce of 32 bits, and an extra nonce whose last byte, where it has one, is a byte.
unfoldable pub IsShare : Share → Type 0
IsShare x = (x.nonce < 2 ^ 32) × (last_value (last_byte x.extra_nonce_2) < 256)

-- how many shares come after this one
unfoldable pub room : Share → ℕ
room x = (255 - last_value (last_byte x.extra_nonce_2)) * 2 ^ 32 + (2 ^ 32 - 1 - x.nonce)

-- the share after this one
next_nonce : Share → Share
next_nonce x = record x { nonce = x.nonce + 1 }

next_extra : Share → Share
next_extra x = record x { nonce = 0; extra_nonce_2 = bump_last x.extra_nonce_2 }

bump-cases :
    (x y : Share)
    → IsShare x
    → bump x ≡ some y
    → ((next_nonce x ≡ y) × (x.nonce + 1 < 2 ^ 32))
      ⊎ ((x.nonce + 1 ≡ 2 ^ 32)
          × ((next_extra x ≡ y)
              × ((b : ℕ) × ((last_byte x.extra_nonce_2 ≡ some b) × ((b == 0xff) ≡ false)))))
unfolding bump IsShare next_nonce next_extra
bump-cases x y (nonce, last) e = elim (Bool-cases ((x.nonce + 1) % 2 ^ 32 == 0)) [
  | inr there ↦
      let small : x.nonce + 1 < 2 ^ 32 = ground (arith, there, nonce) in
      let word : (x.nonce + 1) % 2 ^ 32 ≡ x.nonce + 1 = omega (arith, small) in
      let e' : some (next_nonce x) ≡ some y = sym (rw (there, bump, word) refl) ∙ e in
      inl (some_value e', small)
  | inl over ↦
      let word : (x.nonce + 1) % 2 ^ 32 ≡ 0 = ground (arith, over) in
      elim (Option-cases (last_byte x.extra_nonce_2)) [
        | inl missing ↦ absurd (none-some (sym (rw (bump, over, missing) refl) ∙ e))
        | inr (b, at) ↦ elim (Bool-cases (b == 0xff)) [
          | inl full ↦ absurd (none-some (sym (rw (bump, over, at, full) refl) ∙ e))
          | inr more ↦
              let e' : some (next_extra x) ≡ some y =
                sym (rw (bump, over, at, more, word) refl) ∙ e in
              inr (omega (arith, nonce, word), (some_value e', (b, (at, more))))
        ]
      ]
]

-- a number added to the last byte
unfoldable pub add_last : ℕ → List ℕ → List ℕ
add_last n [] = []
add_last n (b ∷ []) = (b + n) ∷ []
add_last n (b ∷ c ∷ bs) = b ∷ add_last n (c ∷ bs)

-- the share that comes `n` nonces later
unfoldable pub later : ℕ → Share → Share
later n x = record x {
  nonce = (x.nonce + n) % 2 ^ 32;
  extra_nonce_2 = add_last ((x.nonce + n) / 2 ^ 32) x.extra_nonce_2;
}

add_last-zero : (bs : List ℕ) → add_last 0 bs ≡ bs
unfolding add_last
add_last-zero [] = refl
add_last-zero (b ∷ []) = ap (λ t. t ∷ []) (omega arith)
add_last-zero (b ∷ c ∷ bs) = ap (λ t. b ∷ t) (add_last-zero (c ∷ bs))

add_last-bump_last : (n : ℕ) (bs : List ℕ) → add_last n (bump_last bs) ≡ add_last (suc n) bs
unfolding add_last bump_last
add_last-bump_last n [] = refl
add_last-bump_last n (b ∷ []) = ap (λ t. t ∷ []) (omega arith)
add_last-bump_last n (b ∷ c ∷ []) = ap (λ t. b ∷ t) (add_last-bump_last n (c ∷ []))
add_last-bump_last n (b ∷ c ∷ d ∷ bs) = ap (λ t. b ∷ t) (add_last-bump_last n (c ∷ d ∷ bs))

pub later-zero : (x : Share) → x.nonce < 2 ^ 32 → later 0 x ≡ x
unfolding later
later-zero x h =
    let same : (x.nonce + 0) % 2 ^ 32 ≡ x.nonce = omega (arith, h) in
    let none_more : (x.nonce + 0) / 2 ^ 32 ≡ 0 = omega (arith, h) in
    rw (same, none_more, add_last-zero x.extra_nonce_2) refl

later-next_nonce : (n : ℕ) (x : Share) → later n (next_nonce x) ≡ later (suc n) x
unfolding later next_nonce
later-next_nonce n x = let same : x.nonce + 1 + n ≡ x.nonce + suc n = omega arith in rw (same) refl

later-next_extra :
    (n : ℕ) (x : Share) → x.nonce + 1 ≡ 2 ^ 32 → later n (next_extra x) ≡ later (suc n) x
unfolding later next_extra
later-next_extra n x full =
    let word : (0 + n) % 2 ^ 32 ≡ (x.nonce + suc n) % 2 ^ 32 = omega (arith, full) in
    let carry : (x.nonce + suc n) / 2 ^ 32 ≡ suc ((0 + n) / 2 ^ 32) = omega (arith, full) in
    rw (word, carry, add_last-bump_last ((0 + n) / 2 ^ 32) x.extra_nonce_2) refl

-- A share that is followed by another is followed by one share more than that one.
unfoldable pub Follows : Share → Share → Type 0
Follows x y = IsShare y × ((room x ≡ suc (room y)) × ((n : ℕ) → later n y ≡ later (suc n) x))

pub bump-Follows : (x y : Share) → IsShare x → bump x ≡ some y → Follows x y
unfolding IsShare
bump-Follows x y (nonce, last) e = elim (bump-cases x y (nonce, last) e) [
  | inl (same, small) ↦
      subst (λ s. Follows x s) same
        (unfold Follows IsShare room next_nonce in
          ((small, last), (omega (arith, small), λ n. later-next_nonce n x)))
  | inr (full, (same, (b, (at, more)))) ↦
      let at' : last_byte (bump_last x.extra_nonce_2) ≡ some (suc b) =
        last_byte-bump_last x.extra_nonce_2 b at in
      let byte : b < 256 = subst (λ o. last_value o < 256) at last in
      let fewer : suc b < 256 = ground (arith, byte, more) in
      subst (λ s. Follows x s) same
        (unfold Follows IsShare room next_extra in
          (rw (at', at)
            ((omega arith, fewer), (omega (arith, fewer, full), λ n. later-next_extra n x full))))
]

pub last-room : (x : Share) → IsShare x → bump x ≡ none → room x ≡ 0
unfolding IsShare room bump
last-room x (nonce, last) e = ground (arith, e, nonce)
