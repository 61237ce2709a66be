-- ===== src/Number.antt =====
-- Python's unbounded integers and finite `Decimal` values. A finite float is such a decimal too.
use funder_match.Base.{Bool, leb, nat_eq, not, string_eq, suc, ℕ, ◌*◌, ◌+◌, ◌^◌}

-- `negsuc n` is -(n + 1)
pub data ℤ : Type 0 where
  pos : ℕ → ℤ
  negsuc : ℕ → ℤ

abbrev pub pos_part : ℤ → ℕ
pos_part (pos n) = n
pos_part (negsuc _) = 0

abbrev pub neg_part : ℤ → ℕ
neg_part (pos _) = 0
neg_part (negsuc n) = suc n

-- The number `coefficient / 10 ^ places`.
pub record Decimal : Type 0 where
  pub coefficient : ℤ
  pub places : ℕ

abbrev pub whole : ℕ → Decimal
whole n = record { coefficient = pos n; places = 0 }

-- `a <= b`, with both sides brought to one scale
unfoldable pub at_most : Decimal → Decimal → Bool
at_most a b =
    leb (pos_part a.coefficient * 10 ^ b.places + neg_part b.coefficient * 10 ^ a.places)
      (pos_part b.coefficient * 10 ^ a.places + neg_part a.coefficient * 10 ^ b.places)

-- `a < b`
unfoldable pub below : Decimal → Decimal → Bool
unfolding at_most
below a b = not (at_most b a)
