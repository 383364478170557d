-- ===== src/Tests/Trading.antt =====
-- The theorems on the trade engine and its parts, at small inputs.
use low_latency.Prelude.{ℕ, ◌+◌, ◌≤◌, ◌≡◌, ◌↔◌, refl, inl, inr, [], ◌∷◌, false, none, ltb, arith}
use low_latency.Prelude.Ensures.{Ensures, Returns}
use low_latency.Common.Types.{u32}
use low_latency.Trading.PositionKeeper.History.{net, traded, add_fills, add_fills-net}
use low_latency.Prelude.Int.{pos, ◌+ℤ◌}
use low_latency.Common.Types.{Side}
use low_latency.Common.Messages.{
  MarketUpdateType, no_market_update, ClientResponseType, MeClientResponse,
}
use low_latency.Common.SafeQueue.{make, get_next_read}
use low_latency.Trading.MarketOrderBook
use low_latency.Trading.RiskManager.{RiskCheckResult, check_pre_trade_risk}
use low_latency.Trading.RiskManager.Limits.{size_after, check_pre_trade_risk-allowed}
use low_latency.Trading.OrderManager.{OmOrderState, OrderManager, Place, move_order}
use low_latency.Trading.OrderManager.Moves.{Move, move_order-Move}
use low_latency.Trading.TradeEngine.{Algorithm, TradeEngine, process_responses}
use low_latency.Trading.TradeEngine.Responses.{process_responses-never}
use low_latency.Tests.Client.{exact, long_two, limits, request, answer}

check_pre_trade_risk-allowed_example :
    (check_pre_trade_risk exact limits long_two Side.buy 3 ≡ RiskCheckResult.allowed)
    ↔ ((3 ≤ 10) × (size_after (pos 2) Side.buy 3 ≤ 5) × (ltb 7 1 ≡ false))
unfolding ◌+ℤ◌
check_pre_trade_risk-allowed_example =
    check_pre_trade_risk-allowed exact limits long_two Side.buy 3 (inl refl) (omega arith)
      (omega arith) (omega arith)

abbrev waits_for_cancel : OrderManager
waits_for_cancel = record {
  ticker_side_order = λ _ _. record {
    ticker_id = 1;
    order_id = 6;
    side = Side.buy;
    price = 100;
    quantity = 3;
    state = OmOrderState.pending_cancel;
  };
  next_order_id = 7;
  requests = make 8 request;
}

abbrev no_order_yet : OrderManager
no_order_yet = record waits_for_cancel {
  ticker_side_order = λ _ _. record {
    ticker_id = 1;
    order_id = 0;
    side = Side.invalid;
    price = 0;
    quantity = 0;
    state = OmOrderState.invalid;
  };
}

abbrev place : Place
place = record { ticker = 1; index = 2 }

move_order-Move_example :
    Move
      (λ _. check_pre_trade_risk exact limits long_two)
      place
      1
      100
      Side.buy
      3
      no_order_yet
      (move_order
        (λ _. check_pre_trade_risk exact limits long_two)
        place
        1
        100
        Side.buy
        3
        no_order_yet)
move_order-Move_example =
    move_order-Move (λ _. check_pre_trade_risk exact limits long_two) place 1 100 Side.buy 3
      no_order_yet

abbrev engine : TradeEngine ℕ
engine = record {
  algorithm = Algorithm.maker;
  ticker_config = λ _. record { clip = 3; threshold = 1; risk_config = limits };
  ticker_order_book = λ t. MarketOrderBook.make t (λ _. none) (λ _. none);
  responses_queue = record {
    store = λ _. answer;
    size = 8;
    next_write_index = 1;
    next_read_index = 0;
    num_elements = 1;
  };
  market_updates = record {
    store = λ _. record no_market_update {
      type = MarketUpdateType.add;
      order_id = 3;
      ticker_id = 2;
      side = Side.buy;
      price = 100;
      quantity = 5;
    };
    size = 8;
    next_write_index = 1;
    next_read_index = 0;
    num_elements = 1;
  };
  feature_engine = record { market_price = 0; aggressive_trade_quantity_ratio = 0 };
  position_keeper = λ _. long_two;
  order_manager = no_order_yet;
  last_event_time = 0;
  clock = λ n. 1000 + n;
  readings = 0;
}

process_responses-never_example : Ensures (λ _ _. ⊥) (process_responses exact 12 engine)
unfolding get_next_read
process_responses-never_example = process_responses-never exact 12 engine answer refl

abbrev sale : MeClientResponse
sale = record answer { type = ClientResponseType.filled; side = Side.sell; executed_quantity = 2 }

add_fills-net_example :
    Returns
      (λ _ t.
        (t.position ≡ net (pos 2) (sale ∷ sale ∷ []))
        × (t.volume ≡ u32 (2 + traded (sale ∷ sale ∷ []))))
      (add_fills exact (sale ∷ sale ∷ []) long_two)
unfolding ◌+ℤ◌
add_fills-net_example =
    add_fills-net exact (sale ∷ sale ∷ []) long_two (omega arith) (omega arith)
      (inr refl, omega arith, omega arith, (inr refl, omega arith, omega arith, tt))
