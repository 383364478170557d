-- ===== src/Trading/TradeEngine/Running.antt =====
-- The constructor of trading/strategy/TradeEngine.cpp, a round of `Run`, and the time since the last
-- event.
use low_latency.Prelude.{ℕ, ◌-◌, ◌/◌, ◌*◌, ◌==◌, Bool, not, ◌||◌, Ptr, Cmd, ◌>>◌}
use low_latency.Common.Double.{Double}
use low_latency.Common.Messages.{MeMarketUpdate, MeClientResponse}
use low_latency.Common.SafeQueue.{SafeQueue, get_size}
use low_latency.Trading.MarketOrderBook
use low_latency.Trading.FeatureEngine.{make_features}
use low_latency.Trading.PositionKeeper.{PositionInfo}
use low_latency.Trading.RiskManager.{TradeEngineConfig}
use low_latency.Trading.OrderManager.{OrderManager}
use low_latency.Trading.TradeEngine.{
  Algorithm, TradeEngine, touch, process_responses, process_updates,
}

abbrev pub nanos_to_secs : ℕ
nanos_to_secs = 1000 * 1000 * 1000

module _ {F : Type 0} (double : Double F) where
  -- The constructor. `orders` and `prices` are what the memory of the books' tables held; positions,
  -- orders and the queues start as given.
  unfoldable pub make_engine :
      Algorithm
      → (config : ℕ → TradeEngineConfig F) → (orders prices : ℕ → ℕ → Ptr)
      → (positions : ℕ → PositionInfo F) → OrderManager
      → SafeQueue MeClientResponse
      → SafeQueue MeMarketUpdate
      → (clock : ℕ → ℕ) → TradeEngine F
  unfolding MarketOrderBook.make make_features
  make_engine algorithm config orders prices positions manager responses updates clock = record {
    algorithm = algorithm;
    ticker_config = config;
    ticker_order_book = λ t. MarketOrderBook.make t (orders t) (prices t);
    responses_queue = responses;
    market_updates = updates;
    feature_engine = make_features double;
    position_keeper = positions;
    order_manager = manager;
    last_event_time = 0;
    clock = clock;
    readings = 0;
  }

  -- The body of the `while` of `Run`.
  unfoldable pub run_round : (fuel : ℕ) → Cmd (TradeEngine F) (Unit {0})
  unfolding process_responses process_updates
  run_round fuel = do process_responses double fuel; process_updates double fuel

-- `InitLastEventTime`
unfoldable pub init_last_event_time : {F : Type 0} → TradeEngine F → TradeEngine F
init_last_event_time e = touch e

-- `SilentSeconds`, at the time `now`.
unfoldable pub silent_seconds : {F : Type 0} → (now : ℕ) → TradeEngine F → ℕ
silent_seconds now e = (now - e.last_event_time) / nanos_to_secs

-- What `Stop` waits for before it ends the thread: the test of its loop is the negation.
unfoldable pub is_drained : {F : Type 0} → TradeEngine F → Bool
unfolding get_size
is_drained e = not (not (get_size e.responses_queue == 0) || not (get_size e.market_updates == 0))
