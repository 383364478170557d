-- ===== src/Trading/Strategies.antt =====
-- trading/strategy/MarketMaker.cpp and LiquidityTaker.cpp: what each algorithm does with the best
-- prices and the features. Both pass order updates on to the order manager.
use low_latency.Prelude.{ℕ, ◌+◌, ◌-◌, ◌^◌, not, ◌&&◌, if◌then◌else◌, Cmd, pure}
use low_latency.Common.Types.{Side, u64, is_buy, price_invalid}
use low_latency.Common.Double.{Double}
use low_latency.Common.Messages.{MeMarketUpdate}
use low_latency.Trading.MarketOrderBook.{BestBidOffer}
use low_latency.Trading.FeatureEngine.{FeatureEngine, both_valid}
use low_latency.Trading.RiskManager.{RiskCheckResult, TradeEngineConfig}
use low_latency.Trading.OrderManager.{OrderManager, move_orders}

module _ {F : Type 0} (double : Double F)
    (check : (ticker : ℕ) → Side → (qty : ℕ) → RiskCheckResult)
    (config : ℕ → TradeEngineConfig F) where
  open double use {of_nat, plus, minus, nan, lt, le, eq}

  -- The two prices of `MarketMaker::OnOrderBookUpdate`, `>=` being `le` the other way round.
  unfoldable pub maker_bid_price : (fair threshold : F) → BestBidOffer → ℕ
  maker_bid_price fair threshold b =
      if le threshold (minus fair (of_nat b.bid_price))
      then b.bid_price
      else u64 (b.bid_price + 2 ^ 64 - 1)

  unfoldable pub maker_ask_price : (fair threshold : F) → BestBidOffer → ℕ
  maker_ask_price fair threshold b =
      if le threshold (plus (of_nat b.ask_price) fair) then b.bid_price else u64 (b.bid_price + 1)

  -- `MarketMaker::OnOrderBookUpdate`
  unfoldable pub maker_on_order_book_update :
      (ticker : ℕ) → BestBidOffer → FeatureEngine F → Cmd OrderManager (Unit {0})
  unfolding move_orders maker_bid_price maker_ask_price
  maker_on_order_book_update ticker b e =
      let fair = e.market_price in
      let c = config ticker in
      if both_valid b && not (eq fair nan)
      then move_orders check ticker (maker_bid_price fair c.threshold b)
          (maker_ask_price fair c.threshold b) c.clip
      else pure tt

  -- `LiquidityTaker::OnTradeUpdate`
  unfoldable pub taker_on_trade_update :
      MeMarketUpdate → BestBidOffer → FeatureEngine F → Cmd OrderManager (Unit {0})
  unfolding move_orders
  taker_on_trade_update u b e =
      let ratio = e.aggressive_trade_quantity_ratio in
      let c = config u.ticker_id in
      if both_valid b && not (eq ratio nan) && lt c.threshold ratio
      then (if is_buy u.side
          then move_orders check u.ticker_id b.ask_price price_invalid c.clip
          else move_orders check u.ticker_id price_invalid b.bid_price c.clip)
      else pure tt
