-- ===== src/Trading/TradeEngine/NoOrders.antt =====
-- What market updates make the engine of trading/strategy/TradeEngine.cpp do.
use low_latency.Prelude.{
  ℕ, zero, suc, ◌≡◌, refl, false, ◌==◌, ltb, Bool-cases, inl, inr, none, some, Option, update, Cmd,
  Run, ok, fault, out_of_fuel, put_back, pure, modify, within, ◌>>◌,
}
use low_latency.Prelude.Ensures.{Ensures, done, stopped, unfinished, Keeps}
use low_latency.Prelude.Ensures
use low_latency.Common.Types.{price_invalid}
use low_latency.Common.Double.{Double}
use low_latency.Common.Messages.{MeMarketUpdate}
use low_latency.Common.SafeQueue.{SafeQueue, get_next_read, update_read_index}
use low_latency.Trading.MarketOrderBook.{MarketOrderBook, BestBidOffer}
use low_latency.Trading.MarketOrderBook.Updates.{is_trade, on_market_update}
use low_latency.Trading.MarketOrderBook.NoPrice.{NoPrice, update_best_bid_offer-Keeps}
use low_latency.Trading.MarketOrderBook.Silent.{bid_updated-Keeps, ask_updated-Keeps, apply-Keeps}
use low_latency.Trading.FeatureEngine.{both_valid}
use low_latency.Trading.OrderManager.{OrderManager}
use low_latency.Trading.PositionKeeper.{PositionInfo, keeper_update_best_bid_offer}
use low_latency.Trading.Strategies.{maker_on_order_book_update, taker_on_trade_update}
use low_latency.Trading.TradeEngine.{
  Algorithm, TradeEngine, touch, algorithm_on_order_book_update, algorithm_on_trade_update,
  on_order_book_update, on_trade_update, process_update, process_updates,
}

not_valid : (b : BestBidOffer) → b.bid_price ≡ price_invalid → both_valid b ≡ false
not_valid b h = rw h refl

module _ {F : Type 0} (double : Double F) (m : OrderManager) where
  -- No book has a best bid or a best ask price, and the orders of the engine are those of `m`.
  pub record Idle (e : TradeEngine F) : Type 0 where
    pub no_price : (t : ℕ) → NoPrice (e.ticker_order_book t)
    pub same_orders : e.order_manager ≡ m

  algorithm_book-Keeps :
      (a : Algorithm) (book ticker : ℕ)
      → Keeps Idle (algorithm_on_order_book_update double a book ticker)
  unfolding algorithm_on_order_book_update maker_on_order_book_update
  algorithm_book-Keeps Algorithm.maker book ticker e h =
      rw (not_valid (e.ticker_order_book book).best_bid_offer (h.no_price book).no_bid) (done h)
  algorithm_book-Keeps Algorithm.taker book ticker e h = done h
  algorithm_book-Keeps Algorithm.other book ticker e h = done h

  algorithm_trade-Keeps :
      (a : Algorithm) (book : ℕ) (u : MeMarketUpdate)
      → Keeps Idle (algorithm_on_trade_update double a book u)
  unfolding algorithm_on_trade_update taker_on_trade_update
  algorithm_trade-Keeps Algorithm.taker book u e h =
      rw (not_valid (e.ticker_order_book book).best_bid_offer (h.no_price book).no_bid) (done h)
  algorithm_trade-Keeps Algorithm.maker book u e h = done h
  algorithm_trade-Keeps Algorithm.other book u e h = done h

  positions-Keeps :
      (e : TradeEngine F)
      → Idle e
      → (r : Run (ℕ → PositionInfo F) (Unit {0}))
      → Ensures (λ _ t. Idle t) (put_back (λ p. record e { position_keeper = p }) r)
  positions-Keeps e h (ok a p) =
      done (record { no_price = h.no_price; same_orders = h.same_orders })
  positions-Keeps e h (fault f) = stopped
  positions-Keeps e h out_of_fuel = unfinished

  on_order_book_update-Keeps :
      (book ticker : ℕ) → Keeps Idle (on_order_book_update double book ticker)
  unfolding on_order_book_update
  on_order_book_update-Keeps book ticker e h =
      Ensures.bind
        (positions-Keeps e h (
          keeper_update_best_bid_offer double ticker (e.ticker_order_book book).best_bid_offer
            e.position_keeper))
        λ _ e₁ h₁.
          algorithm_book-Keeps e.algorithm book ticker _
            (record { no_price = h₁.no_price; same_orders = h₁.same_orders })

  on_trade_update-Keeps :
      (book : ℕ) (u : MeMarketUpdate) → Keeps Idle (on_trade_update double book u)
  unfolding on_trade_update
  on_trade_update-Keeps book u e h =
      algorithm_trade-Keeps e.algorithm book u _
        (record { no_price = h.no_price; same_orders = h.same_orders })

  book-Keeps :
      {A : Type 0} (book : ℕ) (c : Cmd MarketOrderBook A)
      → Keeps NoPrice c
      → Keeps Idle (
          within
            (λ e. e.ticker_order_book book)
            (λ b e. record e { ticker_order_book = update e.ticker_order_book book b })
            c)
  book-Keeps book c =
      Ensures.within-Keeps (λ e. e.ticker_order_book book)
        (λ b e. record e { ticker_order_book = update e.ticker_order_book book b }) c
        (λ e h. h.no_price book)
        (λ e b h k. record { no_price = λ t. put e b h k t; same_orders = h.same_orders })
    where
      put :
          (e : TradeEngine F) (b : MarketOrderBook)
          → Idle e
          → NoPrice b
          → (t : ℕ) → NoPrice (update e.ticker_order_book book b t)
      put e b h k t = elim (Bool-cases (t == book)) [
        | inl same ↦ rw same k
        | inr other ↦ rw other (h.no_price t)
      ]

  process_update-Keeps : (u : MeMarketUpdate) → Keeps Idle (process_update double u)
  unfolding process_update on_market_update
  process_update-Keeps u e h = elim (Bool-cases (ltb u.ticker_id 8)) [
    | inr f ↦ rw f stopped
    | inl f ↦ rw f (
        Ensures.bind (book-Keeps u.ticker_id _ (bid_updated-Keeps u) e h) λ bid e₁ h₁.
          Ensures.bind (book-Keeps u.ticker_id _ (ask_updated-Keeps u) e₁ h₁) λ ask e₂ h₂.
            Ensures.bind (book-Keeps u.ticker_id _ (apply-Keeps u.type u) e₂ h₂) λ _ e₃ h₃.
              Ensures.bind
                (Ensures.branch_when (is_trade u.type) _ e₃ h₃
                  (on_trade_update-Keeps u.ticker_id u e₃ h₃))
                λ _ e₄ h₄.
                  Ensures.bind
                    (book-Keeps u.ticker_id _ (update_best_bid_offer-Keeps bid ask) e₄ h₄)
                    λ _ e₅ h₅. on_order_book_update-Keeps u.ticker_id u.ticker_id e₅ h₅)
  ]

  queue-Keeps :
      (e : TradeEngine F)
      → Idle e
      → (r : Run (SafeQueue MeMarketUpdate) (Unit {0}))
      → Ensures (λ _ t. Idle t) (put_back (λ q. record e { market_updates = q }) r)
  queue-Keeps e h (ok a q) = done (record { no_price = h.no_price; same_orders = h.same_orders })
  queue-Keeps e h (fault f) = stopped
  queue-Keeps e h out_of_fuel = unfinished

  -- From a state in which no order of a book has a neighbour and no book has a best price, it stays
  -- so through all market updates that the engine gets through, whatever they are, and neither
  -- algorithm sends a request or moves an order.
  pub process_updates-Idle :
      (fuel : ℕ) (e : TradeEngine F)
      → Idle e
      → Ensures (λ _ t. Idle t) (process_updates double fuel e)
  unfolding process_updates
  process_updates-Idle zero e h = unfinished
  process_updates-Idle (suc fuel) e h =
      next (get_next_read e.market_updates) (process_updates-Idle fuel)
    where
      next :
          (o : Option MeMarketUpdate)
          → Keeps Idle (process_updates double fuel)
          → Ensures
              (λ _ t. Idle t)
              ((elim o as (λ _. Cmd (TradeEngine F) (Unit {0})) [
                | none ↦ pure tt
                | some u ↦
                    process_update double u
                    >> (within
                          (λ x. x.market_updates)
                          (λ q x. record x { market_updates = q })
                          update_read_index
                        >> (modify touch >> process_updates double fuel))
              ])
                e)
      next none again = done h
      next (some u) again = Ensures.bind (process_update-Keeps u e h) λ _ e₁ h₁.
          Ensures.bind (queue-Keeps e₁ h₁ (update_read_index e₁.market_updates)) λ _ e₂ h₂.
            again (touch e₂) (record { no_price = h₂.no_price; same_orders = h₂.same_orders })
