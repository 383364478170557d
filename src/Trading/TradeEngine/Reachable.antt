-- ===== src/Trading/TradeEngine/Reachable.antt =====
-- The whole life of an engine of trading/strategy/TradeEngine.cpp, from its construction on.
use low_latency.Prelude.{ℕ, ◌≡◌, refl, ok, Option-cases, inl, inr, Ptr}
use low_latency.Prelude.Ensures.{Ensures, done, ends}
use low_latency.Prelude.Ensures
use low_latency.Common.Double.{Double}
use low_latency.Common.Messages.{MeMarketUpdate, MeClientResponse}
use low_latency.Common.SafeQueue.{SafeQueue, get_next_read}
use low_latency.Trading.MarketOrderBook.NoPrice.{make-NoPrice}
use low_latency.Trading.PositionKeeper.{PositionInfo}
use low_latency.Trading.RiskManager.{TradeEngineConfig}
use low_latency.Trading.OrderManager.{OrderManager}
use low_latency.Trading.TradeEngine.{Algorithm, TradeEngine, process_responses}
use low_latency.Trading.TradeEngine.Running.{make_engine, run_round}
use low_latency.Trading.TradeEngine.Responses.{process_responses-never}
use low_latency.Trading.TradeEngine.NoOrders.{Idle, process_updates-Idle}

module _ {F : Type 0} (double : Double F) where
  -- What happens to an engine: the other threads change its two queues in any way, or a round of
  -- `Run` ends.
  pub data Step (e : TradeEngine F) : TradeEngine F → Type 0 where
    responses_come : (q : SafeQueue MeClientResponse) → Step e (record e { responses_queue = q })
    updates_come : (q : SafeQueue MeMarketUpdate) → Step e (record e { market_updates = q })
    round : {t : TradeEngine F} (fuel : ℕ) → run_round double fuel e ≡ ok tt t → Step e t

  pub data Reach (e : TradeEngine F) : TradeEngine F → Type 0 where
    here : Reach e e
    next : {t u : TradeEngine F} → Reach e t → Step t u → Reach e u

  module _ (m : OrderManager) where
    process_responses-Idle :
        (fuel : ℕ) (e : TradeEngine F)
        → Idle double m e
        → Ensures (λ _ t. Idle double m t) (process_responses double fuel e)
    unfolding process_responses
    process_responses-Idle fuel e h = elim (Option-cases (get_next_read e.responses_queue)) [
      | inl missing ↦ Ensures.choice-none _ _ missing (done h)
      | inr (r, waiting) ↦
          Ensures.mono (process_responses-never double fuel e r waiting) λ a t x. absurd x
    ]

    run_round-Idle :
        (fuel : ℕ) (e : TradeEngine F)
        → Idle double m e
        → Ensures (λ _ t. Idle double m t) (run_round double fuel e)
    unfolding run_round
    run_round-Idle fuel e h =
        Ensures.bind (process_responses-Idle fuel e h)
          λ _ t k. process_updates-Idle double m fuel t k

    Step-Idle : {e t : TradeEngine F} → Step e t → Idle double m e → Idle double m t
    Step-Idle (responses_come q) h = record { no_price = h.no_price; same_orders = h.same_orders }
    Step-Idle (updates_come q) h = record { no_price = h.no_price; same_orders = h.same_orders }
    Step-Idle {e} (round fuel runs) h = ends (run_round-Idle fuel e h) runs

    Reach-Idle : {e t : TradeEngine F} → Reach e t → Idle double m e → Idle double m t
    Reach-Idle here h = h
    Reach-Idle (next r st) h = Step-Idle st (Reach-Idle r h)

  -- Whatever the queues of a trade engine receive from its construction on, and however many
  -- rounds of `Run` end, no book of the engine ever has a best bid or a best ask price (though it
  -- may have orders), no order of a book has a neighbour, and the order manager is the one that
  -- the engine began with: its algorithm never sends a request.
  pub reachable-Idle :
      (algorithm : Algorithm) (config : ℕ → TradeEngineConfig F) (orders prices : ℕ → ℕ → Ptr)
      (positions : ℕ → PositionInfo F) (m : OrderManager) (responses : SafeQueue MeClientResponse)
      (updates : SafeQueue MeMarketUpdate) (clock : ℕ → ℕ) (t : TradeEngine F)
      → Reach
          (make_engine double algorithm config orders prices positions m responses updates clock)
          t
      → Idle double m t
  unfolding make_engine
  reachable-Idle algorithm config orders prices positions m responses updates clock t r =
      Reach-Idle m r
        (record { no_price = λ x. make-NoPrice x (orders x) (prices x); same_orders = refl })
