-- ===== src/Trading/FeatureEngine.antt =====
-- trading/strategy/FeatureEngine.h: two numbers computed from the best prices.
use low_latency.Prelude.{◌+◌, ◌*◌, Bool, not, ◌==◌, ◌&&◌, if◌then◌else◌}
use low_latency.Common.Types.{u64, is_buy, price_invalid}
use low_latency.Common.Double.{Double}
use low_latency.Common.Messages.{MeMarketUpdate}
use low_latency.Trading.MarketOrderBook.{BestBidOffer}

pub record FeatureEngine (F : Type 0) : Type 0 where
  pub market_price : F
  pub aggressive_trade_quantity_ratio : F

-- `bbo.bidPrice != Price_INVALID && bbo.askPrice != Price_INVALID`
abbrev pub both_valid : BestBidOffer → Bool
both_valid b = not (b.bid_price == price_invalid) && not (b.ask_price == price_invalid)

module _ {F : Type 0} (double : Double F) where
  open double use {of_nat, plus, over, nan}

  unfoldable pub make_features : FeatureEngine F
  make_features = record { market_price = nan; aggressive_trade_quantity_ratio = nan }

  unfoldable pub features_on_order_book_update : BestBidOffer → FeatureEngine F → FeatureEngine F
  features_on_order_book_update b e =
      if both_valid b
      then record e {
        market_price =
            over
              (of_nat
                (u64 (u64 (b.bid_price * b.ask_quantity) + u64 (b.ask_price * b.bid_quantity))))
              (plus (of_nat b.bid_quantity) (of_nat b.ask_quantity));
      }
      else e

  unfoldable pub features_on_trade_update :
      MeMarketUpdate → BestBidOffer → FeatureEngine F → FeatureEngine F
  features_on_trade_update u b e =
      if both_valid b
      then record e {
        aggressive_trade_quantity_ratio =
            over (of_nat u.quantity)
              (of_nat (if is_buy u.side then b.bid_quantity else b.ask_quantity));
      }
      else e
