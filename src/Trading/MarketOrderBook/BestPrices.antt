-- ===== src/Trading/MarketOrderBook/BestPrices.antt =====
-- `UpdateBestBidOffer` of trading/strategy/MarketOrderBook.cpp.
use low_latency.Prelude.{
  ℕ, zero, suc, ◌+◌, Bool, true, false, Ptr, Cmd, out_of_fuel, pure, get, modify, when, ◌>>=◌, ◌>>◌,
}
use low_latency.Common.Types.{u32, price_invalid, quantity_invalid}
use low_latency.Ladder.{same_ptr, is_null, read_level, read_order}
use low_latency.Trading.MarketOrderBook.{MarketOrderBook, on_ladder}

-- The `for` over the orders of the first level, on fuel: from `at` back to `first`.
unfoldable pub sum_quantities : ℕ → (first at : Ptr) → (sum : ℕ) → Cmd MarketOrderBook ℕ
unfolding read_order
sum_quantities zero first at sum = λ _. out_of_fuel
sum_quantities (suc fuel) first at sum = elim (same_ptr at first) [
  | true ↦ pure sum
  | false ↦ do
    o ← on_ladder (read_order at)
    sum_quantities fuel first o.next_order (u32 (sum + o.order.quantity))
]

-- The price of the level at the head, and the sum of its quantities.
unfoldable pub price_and_quantity : (head : Ptr) → Cmd MarketOrderBook (ℕ × ℕ)
unfolding read_level read_order sum_quantities
price_and_quantity head = do
  l ← on_ladder (read_level head)
  first ← on_ladder (read_order l.first_order)
  b ← get
  sum ←
      sum_quantities (suc b.ladder.orders_pool.size) l.first_order first.next_order
        first.order.quantity
  pure (l.price, sum)

unfoldable pub update_bid : Cmd MarketOrderBook (Unit {0})
unfolding price_and_quantity
update_bid = do
  b ← get
  elim (is_null b.ladder.bids_by_price) [
    | true ↦ set_bid price_invalid quantity_invalid
    | false ↦ do
      (price, quantity) ← price_and_quantity b.ladder.bids_by_price
      set_bid price quantity
  ]
  where
    set_bid : (price quantity : ℕ) → Cmd MarketOrderBook (Unit {0})
    set_bid price quantity = modify λ b. record b {
      best_bid_offer = record (b.best_bid_offer) { bid_price = price; bid_quantity = quantity };
    }

unfoldable pub update_ask : Cmd MarketOrderBook (Unit {0})
unfolding price_and_quantity
update_ask = do
  b ← get
  elim (is_null b.ladder.asks_by_price) [
    | true ↦ set_ask price_invalid quantity_invalid
    | false ↦ do
      (price, quantity) ← price_and_quantity b.ladder.asks_by_price
      set_ask price quantity
  ]
  where
    set_ask : (price quantity : ℕ) → Cmd MarketOrderBook (Unit {0})
    set_ask price quantity = modify λ b. record b {
      best_bid_offer = record (b.best_bid_offer) { ask_price = price; ask_quantity = quantity };
    }

-- `UpdateBestBidOffer`
unfoldable pub update_best_bid_offer :
    (bid_updated ask_updated : Bool) → Cmd MarketOrderBook (Unit {0})
unfolding update_bid update_ask
update_best_bid_offer bid_updated ask_updated = do
  when bid_updated update_bid
  when ask_updated update_ask
