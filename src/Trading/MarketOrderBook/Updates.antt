-- ===== src/Trading/MarketOrderBook/Updates.antt =====
-- `OnMarketUpdate` of trading/strategy/MarketOrderBook.cpp.
use low_latency.Prelude.{
  ℕ, zero, suc, ◌+◌, Bool, true, false, none, some, ◌&&◌, leb, Ptr, Cmd, out_of_fuel, pure, get,
  modify, when, within, ◌>>=◌, ◌>>◌,
}
use low_latency.Common.Types.{Side, is_buy, is_sell}
use low_latency.Common.Limits.{me_max_order_ids}
use low_latency.Common.Messages.{MarketUpdateType, MeMarketUpdate}
use low_latency.Common.MemoryPool.{allocate, deallocate}
use low_latency.Ladder.{Ladder, same_ptr, read_level, set_order, on_levels, on_orders}
use low_latency.Trading.MarketOrderBook.{
  MarketOrder, MarketOrderBook, on_ladder, find_order, add_order, remove_order,
}
use low_latency.Trading.MarketOrderBook.BestPrices.{update_best_bid_offer}

-- `bidUpdated` and `askUpdated`, from the book before the update.
unfoldable pub bid_updated : MeMarketUpdate → Cmd MarketOrderBook Bool
unfolding read_level
bid_updated u = do
  b ← get
  elim b.ladder.bids_by_price [
    | none ↦ pure false
    | some i ↦ do l ← on_ladder (read_level (some i)); pure (is_buy u.side && leb l.price u.price)
  ]

unfoldable pub ask_updated : MeMarketUpdate → Cmd MarketOrderBook Bool
unfolding read_level
ask_updated u = do
  b ← get
  elim b.ladder.asks_by_price [
    | none ↦ pure false
    | some i ↦ do l ← on_ladder (read_level (some i)); pure (is_sell u.side && leb u.price l.price)
  ]

-- The first loop of the case CLEAR: order ids from `i` on, `n` of them.
unfoldable pub free_orders : (n i : ℕ) → Cmd MarketOrderBook (Unit {0})
unfolding deallocate
free_orders zero i = pure tt
free_orders (suc n) i = do
  b ← get
  elim (b.order_id_to_order i) [
    | none ↦ pure tt
    | some p ↦ on_ladder (on_orders (deallocate (some p)))
  ]
  free_orders n (i + 1)

-- `for (auto bid = mBidsByPrice->nextEntry; bid != mBidsByPrice; bid = bid->nextEntry)`, on fuel.
unfoldable pub free_levels : ℕ → (head at : Ptr) → Cmd (Ladder MarketOrder) (Unit {0})
unfolding deallocate read_level
free_levels zero head at = λ _. out_of_fuel
free_levels (suc fuel) head at = elim (same_ptr at head) [
  | true ↦ pure tt
  | false ↦ do on_levels (deallocate at); l ← read_level at; free_levels fuel head l.next_entry
]

-- The levels of one side, the head last.
unfoldable pub free_side : (head : Ptr) → Cmd (Ladder MarketOrder) (Unit {0})
unfolding read_level free_levels deallocate
free_side none = pure tt
free_side (some i) = do
  s ← get
  l ← read_level (some i)
  free_levels (suc s.orders_at_price_pool.size) (some i) l.next_entry
  on_levels (deallocate (some i))

-- The case CLEAR. It does not clear `mPriceOrdersAtPrice`.
unfoldable pub clear : Cmd MarketOrderBook (Unit {0})
unfolding free_orders free_side
clear = do
  free_orders me_max_order_ids 0
  modify (λ b. record b { order_id_to_order = λ _. none })
  b ← get
  on_ladder (free_side b.ladder.bids_by_price)
  modify (λ b. record b { ladder = record (b.ladder) { bids_by_price = none } })
  c ← get
  on_ladder (free_side c.ladder.asks_by_price)
  modify (λ b. record b { ladder = record (b.ladder) { asks_by_price = none } })

-- The cases of the `switch` that change the book alone.
unfoldable pub apply : MarketUpdateType → MeMarketUpdate → Cmd MarketOrderBook (Unit {0})
unfolding find_order add_order remove_order set_order allocate clear
apply MarketUpdateType.add u = do
  order ← on_ladder (
      on_orders (
        allocate (record {
          order = record {
            order_id = u.order_id;
            side = u.side;
            price = u.price;
            quantity = u.quantity;
            priority = u.priority;
          };
          next_order = none;
          prev_order = none;
        })))
  add_order order
apply MarketUpdateType.modify u = do
  order ← find_order u.order_id
  on_ladder (set_order order (λ x. record x { order = record (x.order) { quantity = u.quantity } }))
apply MarketUpdateType.cancel u = do order ← find_order u.order_id; remove_order order
apply MarketUpdateType.clear u = clear
apply _ u = pure tt

abbrev pub is_trade : MarketUpdateType → Bool
is_trade MarketUpdateType.trade = true
is_trade _ = false

-- What a book needs of its trade engine, `mTradeEngine`: where in the engine's state the book is,
-- and the two handlers.
pub record Engine (S : Type 0) : Type 0 where
  pub book_of : S → MarketOrderBook
  pub with_book : MarketOrderBook → S → S
  pub on_trade_update : MeMarketUpdate → Cmd S (Unit {0})
  pub on_order_book_update : (ticker price : ℕ) → Side → Cmd S (Unit {0})

module _ {S : Type 0} (engine : Engine S) where
  open engine use {book_of, with_book, on_trade_update, on_order_book_update}

  -- `OnMarketUpdate`
  unfoldable pub on_market_update : MeMarketUpdate → Cmd S (Unit {0})
  unfolding bid_updated ask_updated apply update_best_bid_offer
  on_market_update u = do
    bid ← within book_of with_book (bid_updated u)
    ask ← within book_of with_book (ask_updated u)
    within book_of with_book (apply u.type u)
    when (is_trade u.type) (on_trade_update u)
    within book_of with_book (update_best_bid_offer bid ask)
    on_order_book_update u.ticker_id u.price u.side
