-- ===== src/Script/Pattern/Endless.antt =====
-- Script/Pattern.antt: a loop without end.
use gigamonkey.Base.{ℕ, zero, suc, ◌+◌, ◌%◌, ◌^◌, ◌≡◌, refl, List, none, Bool}
use gigamonkey.Base.Int.{ℤ}
use gigamonkey.P2p.VarInt.{Read}
use gigamonkey.Script.Pattern.{
  Pattern, repeated, optional, Slots, fails, endless, or_more, least, most, reaches, round, repeat,
  or_else, scan,
}

module _ (past_end : Read ℕ) (is_value : ℤ → List ℕ → Bool) (fuel : ℕ) where
  repeat_optional :
      (n matches : ℕ) (q : Pattern) (first : ℕ) (p : List ℕ) (s : Slots)
      → ((s' : Slots) → scan past_end is_value fuel q p s' ≡ fails s')
      → repeat (scan past_end is_value fuel (optional q)) first none n matches p s ≡ endless
  unfolding repeat round scan or_else reaches
  repeat_optional zero matches q first p s absent = refl
  repeat_optional (suc n) matches q first p s absent =
      rw (repeat, absent s) (repeat_optional n ((matches + 1) % 2 ^ 32) q first p s absent)

  -- A pattern that is repeated without a bound, and that is optional, never ends where it is not there:
  -- however many rounds there are, there is another.
  pub scan_repeated_optional :
      (q : Pattern) (first : ℕ) (p : List ℕ) (s : Slots)
      → ((s' : Slots) → scan past_end is_value fuel q p s' ≡ fails s')
      → scan past_end is_value fuel (repeated (optional q) first none or_more) p s ≡ endless
  unfolding scan least most
  scan_repeated_optional q first p s absent = repeat_optional fuel 0 q first p s absent
