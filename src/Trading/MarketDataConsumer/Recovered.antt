-- ===== src/Trading/MarketDataConsumer/Recovered.antt =====
-- How a recovery of trading/market_data/MarketDataConsumer.cpp ends with a snapshot as the exchange
-- numbers it.
use low_latency.Prelude.{ℕ, ◌≡◌, false, List, [], ◌∷◌, ◌++◌, ◌||◌, if◌then◌else◌}
use low_latency.Common.Messages.{MeMarketUpdate, is_snapshot_start, is_snapshot_end}
use low_latency.Common.SafeQueue.{SafeQueue}
use low_latency.Common.SafeQueue.Fifo.{contents}
use low_latency.Trading.MarketDataConsumer.{MarketDataConsumer, push_all}

-- The updates that frame no snapshot.
abbrev pub unframed : List MeMarketUpdate → List MeMarketUpdate
unframed [] = []
unframed (u ∷ us) =
    if is_snapshot_start u.type || is_snapshot_end u.type then unframed us else u ∷ unframed us

-- The recovery is over: the trade engine gets `us`, nothing waits, and `n` is expected.
pub record Recovered (us : List MeMarketUpdate) (n : ℕ) (s t : MarketDataConsumer) : Type 0 where
  pub passed : contents t.market_updates ≡ contents s.market_updates ++ us
  pub is_over : t.in_recovery ≡ false
  pub no_snapshot : t.snapshot_queued_messages ≡ []
  pub no_incremental : t.incremental_queued_messages ≡ []
  pub expected : t.next_expected_sequence_number ≡ n

module _ (us : List MeMarketUpdate) (last : MeMarketUpdate) (s : MarketDataConsumer) where
  -- The consumer after a recovery without events of the snapshot.
  abbrev recovered : (more : List MeMarketUpdate) (next : ℕ) → MarketDataConsumer
  recovered more next = record s {
    market_updates = push_all more s.market_updates;
    in_recovery = false;
    snapshot_queued_messages = [];
    incremental_queued_messages = [];
    next_expected_sequence_number = next;
  }
