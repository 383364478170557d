-- ===== src/Tests/Rounds.antt =====
-- The theorems on whole rounds of the programs, at small inputs.
use low_latency.Prelude.{Run, ok, ◌≡◌, refl, ℕ, ◌+◌, none, [], ◌∷◌, arith}
use low_latency.Prelude.Ensures.{Ensures}
use low_latency.Common.MemoryPool.{update_next_free_index}
use low_latency.Common.Types.{Side}
use low_latency.Common.Messages.{no_market_update, MeMarketUpdate, MarketUpdateType}
use low_latency.Common.SafeQueue.{SafeQueue, make}
use low_latency.Exchange.MatchingEngine
use low_latency.Exchange.SnapshotSynthesizer.{make_synthesizer}
use low_latency.Exchange.SnapshotSynthesizer.Running.{RunningSynthesizer, run_round}
use low_latency.Exchange.SnapshotSynthesizer.Pacing.{IsQuiet, run_round-IsQuiet}
use low_latency.Trading.RiskManager.{TradeEngineConfig}
use low_latency.Trading.OrderManager.{OrderManager, OmOrderState}
use low_latency.Trading.TradeEngine.{Algorithm, TradeEngine}
use low_latency.Trading.TradeEngine
use low_latency.Trading.TradeEngine.Running.{make_engine}
use low_latency.Trading.TradeEngine.NoOrders.{Idle}
use low_latency.Trading.TradeEngine.Reachable.{round, updates_come, here, next, reachable-Idle}
use low_latency.Trading.RandomClient.{Draws, random_rounds}
use low_latency.Trading.RandomClient.Refused.{StopAll, random_rounds-StopAll}
use low_latency.Tests.Data.{bid, requests, responses, updates}
use low_latency.Tests.Client.{exact, limits, long_two, request, answer}

abbrev config : ℕ → TradeEngineConfig ℕ
config _ = record { clip = 3; threshold = 1; risk_config = limits }

abbrev manager : OrderManager
manager = record {
  ticker_side_order = λ _ _. record {
    ticker_id = 1;
    order_id = 0;
    side = request.side;
    price = 0;
    quantity = 0;
    state = OmOrderState.invalid;
  };
  next_order_id = 1;
  requests = make 8 request;
}

-- An engine, the same after an order has been added to the market, and after a round on it.
abbrev start : TradeEngine ℕ
start =
    make_engine exact Algorithm.maker config (λ _ _. none) (λ _ _. none) (λ _. long_two) manager
      (make 8 answer) (make 8 no_market_update) (λ n. 1000 + n)

abbrev one_bid_comes : SafeQueue MeMarketUpdate
one_bid_comes = record {
  store = λ _. record no_market_update {
    type = MarketUpdateType.add;
    order_id = 3;
    ticker_id = 2;
    side = Side.buy;
    price = 100;
    quantity = 5;
    priority = 1;
  };
  size = 8;
  next_write_index = 1;
  next_read_index = 0;
  num_elements = 1;
}

abbrev fed : TradeEngine ℕ
fed = record start { market_updates = one_bid_comes }

abbrev state_of : Run (TradeEngine ℕ) (Unit {0}) → TradeEngine ℕ
state_of (ok _ e) = e
state_of _ = start

abbrev after : TradeEngine ℕ
after = state_of (TradeEngine.Running.run_round exact 3 fed)

round_ends : TradeEngine.Running.run_round exact 3 fed ≡ ok tt after
unfolding TradeEngine.Running.run_round make_engine make update_next_free_index
round_ends = refl

reachable-Idle_example : Idle exact manager after
reachable-Idle_example =
    reachable-Idle exact Algorithm.maker config (λ _ _. none) (λ _ _. none) (λ _. long_two) manager
      (make 8 answer) (make 8 no_market_update) (λ n. 1000 + n) after
      (next (next here (updates_come one_bid_comes)) (round 3 round_ends))

abbrev draws : Draws
draws = record { ticker = 2; price = 7; quantity = 30; side = 1; cancelled = 0; silent_seconds = 2 }

abbrev exchange : MatchingEngine.MatchingEngine
exchange = MatchingEngine.make_engine (λ _ _ _. none) bid requests responses updates

random_rounds-StopAll_example :
    StopAll 10 exchange
      (random_rounds
        (λ _. 150)
        (draws ∷ draws ∷ [])
        (record { client_id = 3; next_order_id = 3000; random_requests = []; sent = [] })).sent
random_rounds-StopAll_example =
    random_rounds-StopAll (λ _. 150) (draws ∷ draws ∷ []) 3 3000 10 exchange

-- A synthesizer whose last snapshot was at 1000.
abbrev running : RunningSynthesizer
running = record {
  synthesizer = make_synthesizer;
  snapshot_queue = make 8 (record { sequence_number = 1; market_update = no_market_update });
  last_snapshot_time = 1000;
}

run_round-IsQuiet_example : Ensures (λ _ t. IsQuiet running t) (run_round 3 2000 2001 running)
run_round-IsQuiet_example = run_round-IsQuiet 3 2000 2001 running (omega arith)
