-- ===== src/Trading/RiskManager.antt =====
-- trading/strategy/RiskManager.h: the limits of each ticker, and the check before an order.
pub mod Limits
use Prim.Native.String.{String}
use low_latency.Prelude.{ℕ, Bool, true, false, not, ltb, if◌then◌else◌}
use low_latency.Prelude.Int.{ℤ, pos, negsuc, add32, mul32, abs32, signed32}
use low_latency.Common.Types.{Side, side_to_value}
use low_latency.Common.Double.{Double}
use low_latency.Trading.PositionKeeper.{PositionInfo}

pub record RiskConfig (F : Type 0) : Type 0 where
  pub max_order_size : ℕ
  pub max_positions : ℕ
  pub max_loss : F

pub record TradeEngineConfig (F : Type 0) : Type 0 where
  pub clip : ℕ
  pub threshold : F
  pub risk_config : RiskConfig F

pub data RiskCheckResult : Type 0 where
  invalid order_too_large position_too_large loss_too_large allowed : RiskCheckResult

unfoldable pub risk_check_result_to_string : RiskCheckResult → String
risk_check_result_to_string RiskCheckResult.invalid = "INVALID"
risk_check_result_to_string RiskCheckResult.order_too_large = "ORDER_TOO_LARGE"
risk_check_result_to_string RiskCheckResult.position_too_large = "POSITION_TOO_LARGE"
risk_check_result_to_string RiskCheckResult.loss_too_large = "LOSS_TOO_LARGE"
risk_check_result_to_string RiskCheckResult.allowed = "ALLOWED"

abbrev pub is_allowed : RiskCheckResult → Bool
is_allowed RiskCheckResult.allowed = true
is_allowed _ = false

-- `limit < n` of `int32_t`.
abbrev pub exceeds : (n limit : ℤ) → Bool
exceeds (pos n) (pos limit) = ltb limit n
exceeds (pos n) (negsuc limit) = true
exceeds (negsuc n) (pos limit) = false
exceeds (negsuc n) (negsuc limit) = ltb n limit

module _ {F : Type 0} (double : Double F) where
  open double use {lt}

  -- `RiskInfo::CheckPreTradeRisk`, in the arithmetic of `int32_t`.
  unfoldable pub check_pre_trade_risk :
      RiskConfig F → PositionInfo F → Side → (qty : ℕ) → RiskCheckResult
  unfolding add32 mul32 abs32
  check_pre_trade_risk config info side qty =
      if ltb config.max_order_size qty
      then RiskCheckResult.order_too_large
      else if exceeds (abs32 (add32 info.position (mul32 (side_to_value side) (signed32 qty))))
          (signed32 config.max_positions)
      then RiskCheckResult.position_too_large
      else if lt info.total_pnl config.max_loss
      then RiskCheckResult.loss_too_large
      else RiskCheckResult.allowed
