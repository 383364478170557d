-- ===== src/Trading/TradeEngine.antt =====
-- trading/strategy/TradeEngine.h and TradeEngine.cpp: the engine of one client. Its books call it
-- back, and it hands each event to the positions, the features and the algorithm that was chosen.
pub mod Running
pub mod Reachable
pub mod NoOrders
pub mod Responses
use low_latency.Prelude.{
  ℕ, zero, suc, ◌+◌, Bool, true, false, none, some, ltb, if◌then◌else◌, update, fault, Cmd, ok,
  out_of_fuel, out_of_range, pure, get, modify, when, within, ◌>>=◌, ◌>>◌,
}
use low_latency.Common.Types.{Side}
use low_latency.Common.Limits.{me_max_tickers}
use low_latency.Common.Double.{Double}
use low_latency.Common.Messages.{MeMarketUpdate, MeClientResponse, is_filled}
use low_latency.Common.SafeQueue.{SafeQueue, get_next_read, update_read_index}
use low_latency.Trading.MarketOrderBook.{MarketOrderBook}
use low_latency.Trading.MarketOrderBook.Updates.{Engine, on_market_update}
use low_latency.Trading.FeatureEngine.{
  FeatureEngine, features_on_order_book_update, features_on_trade_update,
}
use low_latency.Trading.PositionKeeper.{PositionInfo, keeper_add_fill, keeper_update_best_bid_offer}
use low_latency.Trading.RiskManager.{RiskCheckResult, TradeEngineConfig, check_pre_trade_risk}
use low_latency.Trading.OrderManager.{OrderManager, on_order_update}
use low_latency.Trading.Strategies.{maker_on_order_book_update, taker_on_trade_update}

-- Which algorithm's handlers the constructor puts in place; with the others the handlers do nothing.
pub data Algorithm : Type 0 where
  maker taker other : Algorithm

pub record TradeEngine (F : Type 0) : Type 0 where
  pub algorithm : Algorithm
  pub ticker_config : ℕ → TradeEngineConfig F
  pub ticker_order_book : ℕ → MarketOrderBook
  pub responses_queue : SafeQueue MeClientResponse
  pub market_updates : SafeQueue MeMarketUpdate
  pub feature_engine : FeatureEngine F
  pub position_keeper : ℕ → PositionInfo F
  pub order_manager : OrderManager
  pub last_event_time : ℕ
  pub clock : ℕ → ℕ
  pub readings : ℕ

-- `mLastEventTime = GetCurrentNanos()`: `clock` gives what the readings of the clock return, and
-- `readings` counts those that were made.
abbrev pub touch : {F : Type 0} → TradeEngine F → TradeEngine F
touch e = record e { last_event_time = e.clock e.readings; readings = suc e.readings }

module _ {F : Type 0} (double : Double F) where
  -- The risk manager reads the positions through pointers, so it sees them as they are now.
  abbrev pub risk : TradeEngine F → (ticker : ℕ) → Side → (qty : ℕ) → RiskCheckResult
  risk e ticker side qty =
      check_pre_trade_risk double (e.ticker_config ticker).risk_config (e.position_keeper ticker)
        side qty

  abbrev pub on_manager : {A : Type 0} → Cmd OrderManager A → Cmd (TradeEngine F) A
  on_manager = within (λ e. e.order_manager) (λ m e. record e { order_manager = m })

  abbrev pub on_positions : {A : Type 0} → Cmd (ℕ → PositionInfo F) A → Cmd (TradeEngine F) A
  on_positions = within (λ e. e.position_keeper) (λ p e. record e { position_keeper = p })

  -- `mOnOrderBookUpdate` and `mOnTradeUpdate`, on the book of ticker `book`.
  unfoldable pub algorithm_on_order_book_update :
      Algorithm → (book ticker : ℕ) → Cmd (TradeEngine F) (Unit {0})
  unfolding maker_on_order_book_update
  algorithm_on_order_book_update Algorithm.maker book ticker e =
      on_manager
        (maker_on_order_book_update double (risk e) e.ticker_config ticker
          (e.ticker_order_book book).best_bid_offer e.feature_engine)
        e
  algorithm_on_order_book_update _ book ticker e = ok tt e

  unfoldable pub algorithm_on_trade_update :
      Algorithm → (book : ℕ) → MeMarketUpdate → Cmd (TradeEngine F) (Unit {0})
  unfolding taker_on_trade_update
  algorithm_on_trade_update Algorithm.taker book u e =
      on_manager
        (taker_on_trade_update double (risk e) e.ticker_config u
          (e.ticker_order_book book).best_bid_offer e.feature_engine)
        e
  algorithm_on_trade_update _ book u e = ok tt e

  -- `OnOrderBookUpdate`
  unfoldable pub on_order_book_update : (book ticker : ℕ) → Cmd (TradeEngine F) (Unit {0})
  unfolding keeper_update_best_bid_offer features_on_order_book_update
      algorithm_on_order_book_update
  on_order_book_update book ticker = do
    e ← get
    let b = (e.ticker_order_book book).best_bid_offer
    on_positions (keeper_update_best_bid_offer double ticker b)
    modify
        (λ x. record x { feature_engine = features_on_order_book_update double b x.feature_engine })
    algorithm_on_order_book_update e.algorithm book ticker

  -- `OnTradeUpdate`
  unfoldable pub on_trade_update : (book : ℕ) → MeMarketUpdate → Cmd (TradeEngine F) (Unit {0})
  unfolding features_on_trade_update algorithm_on_trade_update
  on_trade_update book u = do
    e ← get
    let b = (e.ticker_order_book book).best_bid_offer
    modify (λ x. record x { feature_engine = features_on_trade_update double u b x.feature_engine })
    algorithm_on_trade_update e.algorithm book u

  -- What the book of a ticker sees of its engine.
  abbrev pub engine_of : (book : ℕ) → Engine (TradeEngine F)
  engine_of book = record {
    book_of = λ e. e.ticker_order_book book;
    with_book = λ b e. record e { ticker_order_book = update e.ticker_order_book book b };
    on_trade_update = on_trade_update book;
    on_order_book_update = λ ticker price side. on_order_book_update book ticker;
  }

  abbrev pub has_algorithm : Algorithm → Bool
  has_algorithm Algorithm.other = false
  has_algorithm _ = true

  -- `OnOrderUpdate`: both algorithms pass it on to the order manager.
  unfoldable pub on_client_response : MeClientResponse → Cmd (TradeEngine F) (Unit {0})
  unfolding keeper_add_fill on_order_update
  on_client_response r = do
    e ← get
    when (is_filled r.type) (on_positions (keeper_add_fill double r))
    when (has_algorithm e.algorithm) (on_manager (on_order_update r))

  -- The first `for` of `Run`, on fuel: its third part reads the queue and keeps no result, so the
  -- pointer, and the slot that it points at, stay the same. `slot` is that index.
  unfoldable pub responses_loop : ℕ → (slot : ℕ) → Cmd (TradeEngine F) (Unit {0})
  unfolding on_client_response update_read_index
  responses_loop zero slot = λ _. out_of_fuel
  responses_loop (suc fuel) slot = do
    e ← get
    on_client_response (e.responses_queue.store slot)
    within (λ x. x.responses_queue) (λ q x. record x { responses_queue = q }) update_read_index
    modify touch
    responses_loop fuel slot

  unfoldable pub process_responses : (fuel : ℕ) → Cmd (TradeEngine F) (Unit {0})
  unfolding get_next_read responses_loop
  process_responses fuel = do
    e ← get
    elim (get_next_read e.responses_queue) [
      | none ↦ pure tt
      | some r ↦ responses_loop fuel e.responses_queue.next_read_index
    ]

  -- `mTickerOrderBook[tickerId]->OnMarketUpdate(marketUpdate)`
  unfoldable pub process_update : MeMarketUpdate → Cmd (TradeEngine F) (Unit {0})
  unfolding on_market_update on_trade_update on_order_book_update
  process_update u e =
      if ltb u.ticker_id me_max_tickers
      then on_market_update (engine_of u.ticker_id) u e
      else fault out_of_range

  -- The second `for` of `Run`, on fuel.
  unfoldable pub process_updates : ℕ → Cmd (TradeEngine F) (Unit {0})
  unfolding get_next_read process_update update_read_index
  process_updates zero = λ _. out_of_fuel
  process_updates (suc fuel) = do
    e ← get
    elim (get_next_read e.market_updates) [
      | none ↦ pure tt
      | some u ↦ do
        process_update u
        within (λ x. x.market_updates) (λ q x. record x { market_updates = q }) update_read_index
        modify touch
        process_updates fuel
    ]
