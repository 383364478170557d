-- ===== src/Trading/PositionKeeper/Range.antt =====
-- The position that trading/strategy/PositionKeeper.h computes in 32 bits.
use low_latency.Prelude.{ℕ, ◌^◌, ◌<◌, ◌≡◌, ◌⊎◌, inl, inr, arith}
use low_latency.Prelude.Int.{ℤ, pos, negsuc, ◌+ℤ◌, ◌*ℤ◌}
use low_latency.Common.Types.{Side, side_to_value}
use low_latency.Trading.PositionKeeper.{next_position}

-- A number that an `int32_t` holds.
abbrev pub FitsInt32 : ℤ → Type 0
FitsInt32 (pos n) = n < 2 ^ 31
FitsInt32 (negsuc n) = n < 2 ^ 31

pub next_position-exact :
    (p : ℤ) (q : ℕ) (side : Side)
    → (side ≡ Side.buy) ⊎ (side ≡ Side.sell)
    → q < 2 ^ 32
    → FitsInt32 p
    → FitsInt32 (p +ℤ side_to_value side *ℤ pos q)
    → next_position p q side ≡ p +ℤ side_to_value side *ℤ pos q
unfolding next_position ◌+ℤ◌ ◌*ℤ◌
next_position-exact (pos a) q Side.buy s hq hp h = ground (arith, hq, hp, h)
next_position-exact (negsuc a) q Side.buy s hq hp h = ground (arith, hq, hp, h)
next_position-exact (pos a) q Side.sell s hq hp h = ground (arith, hq, hp, h)
next_position-exact (negsuc a) q Side.sell s hq hp h = ground (arith, hq, hp, h)
next_position-exact p q Side.invalid (inl e) hq hp h = cc
next_position-exact p q Side.invalid (inr e) hq hp h = cc
next_position-exact p q Side.max (inl e) hq hp h = cc
next_position-exact p q Side.max (inr e) hq hp h = cc
