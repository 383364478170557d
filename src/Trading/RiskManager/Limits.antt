-- ===== src/Trading/RiskManager/Limits.antt =====
-- When trading/strategy/RiskManager.h lets an order pass.
use low_latency.Prelude.{
  ◌⊎◌, inl, inr, ℕ, ◌^◌, ◌<◌, ◌≤◌, ◌≡◌, refl, ◌↔◌, Bool, true, false, ltb, arith, if◌then◌else◌,
}
use low_latency.Prelude.Int.{ℤ, pos, negsuc, ◌+ℤ◌, ◌*ℤ◌, abs, add32, mul32, abs32, signed32}
use low_latency.Common.Types.{Side, side_to_value}
use low_latency.Common.Double.{Double}
use low_latency.Trading.PositionKeeper.{PositionInfo}
use low_latency.Trading.PositionKeeper.History.{moved_by}
use low_latency.Trading.RiskManager.{RiskConfig, RiskCheckResult, exceeds, check_pre_trade_risk}

-- The size of the position that an order of a side leads to, in true numbers.
abbrev pub size_after : ℤ → Side → (qty : ℕ) → ℕ
size_after position side qty = abs (position +ℤ moved_by side qty)

-- In 32 bits it is the same while it fits.
abs32-size_after :
    (p : ℤ) (side : Side) (qty : ℕ)
    → (side ≡ Side.buy) ⊎ (side ≡ Side.sell)
    → qty < 2 ^ 31
    → size_after p side qty < 2 ^ 31
    → abs32 (add32 p (mul32 (side_to_value side) (signed32 qty))) ≡ pos (size_after p side qty)
unfolding abs32 add32 mul32 ◌+ℤ◌ ◌*ℤ◌
abs32-size_after (pos a) Side.buy qty b h k = ground (arith, h, k)
abs32-size_after (negsuc a) Side.buy qty b h k = ground (arith, h, k)
abs32-size_after (pos a) Side.sell qty b h k = ground (arith, h, k)
abs32-size_after (negsuc a) Side.sell qty b h k = ground (arith, h, k)
abs32-size_after p Side.invalid qty (inl e) h k = cc
abs32-size_after p Side.invalid qty (inr e) h k = cc
abs32-size_after p Side.max qty (inl e) h k = cc
abs32-size_after p Side.max qty (inr e) h k = cc

exceeds-limit :
    (x : ℤ) (n limit : ℕ)
    → x ≡ pos n
    → limit < 2 ^ 31
    → (exceeds x (signed32 limit) ≡ false) ↔ (n ≤ limit)
exceeds-limit (pos m) n limit e h = ground (arith, e, h)
exceeds-limit (negsuc m) n limit e h = cc

module _ {F : Type 0} (double : Double F) where
  open double use {lt}

  -- For a purchase or a sale, while the quantity, the limit of positions and the size of the position that the order would
  -- lead to are below 2 ^ 31, an order is allowed exactly where its quantity is within the limit of
  -- one order, the size of that position is within the limit of positions, and the profit is not
  -- below its limit.
  pub check_pre_trade_risk-allowed :
      (config : RiskConfig F) (info : PositionInfo F) (side : Side) (qty : ℕ)
      → (side ≡ Side.buy) ⊎ (side ≡ Side.sell)
      → qty < 2 ^ 31
      → config.max_positions < 2 ^ 31
      → size_after info.position side qty < 2 ^ 31
      → (check_pre_trade_risk double config info side qty ≡ RiskCheckResult.allowed) ↔ (
          (qty ≤ config.max_order_size)
          × (size_after info.position side qty ≤ config.max_positions)
          × (lt info.total_pnl config.max_loss ≡ false))
  unfolding check_pre_trade_risk
  check_pre_trade_risk-allowed config info side qty b hq hl hs =
      let x = abs32 (add32 info.position (mul32 (side_to_value side) (signed32 qty))) in
      go (ltb config.max_order_size qty) (exceeds x (signed32 config.max_positions))
        (lt info.total_pnl config.max_loss) (ground arith)
        (exceeds-limit x (size_after info.position side qty) config.max_positions
          (abs32-size_after info.position side qty b hq hs) hl)
    where
      go :
          (a b c : Bool) {P Q : Type 0}
          → ((a ≡ false) ↔ P)
          → ((b ≡ false) ↔ Q)
          → ((if a
                then RiskCheckResult.order_too_large
                else if b
                then RiskCheckResult.position_too_large
                else if c
                then RiskCheckResult.loss_too_large
                else RiskCheckResult.allowed)
              ≡ RiskCheckResult.allowed)
            ↔ (P × Q × (c ≡ false))
      go true b c p q = ((λ e. cc), λ (h, k, l). let e = p.1 h in cc)
      go false true c p q = ((λ e. cc), λ (h, k, l). let e = q.1 k in cc)
      go false false true p q = ((λ e. cc), λ (h, k, l). cc)
      go false false false p q = ((λ e. (p.0 refl, q.0 refl, refl)), λ h. refl)
