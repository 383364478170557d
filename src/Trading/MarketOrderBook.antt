-- ===== src/Trading/MarketOrderBook.antt =====
-- trading/strategy/MarketOrder.h, MarketOrderBook.h and MarketOrderBook.cpp: the client's copy of
-- the book of one ticker, built from market updates. The trade engine that the book calls back is a
-- parameter: the state that holds the book, and what the engine does in its two handlers.
pub mod Silent
pub mod NoPrice
pub mod BestPrices
pub mod Updates
use low_latency.Prelude.{
  ℕ, zero, suc, ◌+◌, Bool, true, false, not, none, some, ◌&&◌, ltb, leb, if◌then◌else◌, update, Ptr,
  fault, Cmd, ok, out_of_fuel, out_of_range, pure, get, modify, when, within, deref, ◌>>=◌, ◌>>◌,
}
use low_latency.Common.Types.{
  Side, u32, price_invalid, quantity_invalid, priority_invalid, order_id_invalid, is_buy, is_sell,
}
use low_latency.Common.Limits.{me_max_order_ids, me_max_price_levels}
use low_latency.Common.Messages.{MarketUpdateType, MeMarketUpdate}
use low_latency.Common.MemoryPool
use low_latency.Common.MemoryPool.{allocate, deallocate}
use low_latency.Ladder.{
  Priced, Linked, OrdersAtPrice, Ladder, same_ptr, is_null, read_level, read_order, set_order,
  on_levels, on_orders, link_order, unlink_order,
}

-- `MarketOrder`, less its links.
pub record MarketOrder : Type 0 where
  pub order_id : ℕ
  pub side : Side
  pub price : ℕ
  pub quantity : ℕ
  pub priority : ℕ

instance abbrev pub MarketOrder-Priced : Priced MarketOrder
MarketOrder-Priced = record { side_of = λ o. o.side; price_of = λ o. o.price }

pub record BestBidOffer : Type 0 where
  pub bid_price : ℕ
  pub ask_price : ℕ
  pub bid_quantity : ℕ
  pub ask_quantity : ℕ

pub record MarketOrderBook : Type 0 where
  pub ticker_id : ℕ
  pub order_id_to_order : ℕ → Ptr
  pub ladder : Ladder MarketOrder
  pub best_bid_offer : BestBidOffer

abbrev pub no_level : OrdersAtPrice
no_level = record {
  side = Side.invalid;
  price = price_invalid;
  first_order = none;
  next_entry = none;
  prev_entry = none;
}

abbrev pub no_order : Linked MarketOrder
no_order = record {
  order = record {
    order_id = order_id_invalid;
    side = Side.invalid;
    price = price_invalid;
    quantity = quantity_invalid;
    priority = priority_invalid;
  };
  next_order = none;
  prev_order = none;
}

-- `MarketOrderBook(tickerId, …)` sets neither of its two tables: they hold what the memory held.
unfoldable pub make : (ticker : ℕ) (orders prices : ℕ → Ptr) → MarketOrderBook
unfolding MemoryPool.make
make ticker orders prices = record {
  ticker_id = ticker;
  order_id_to_order = orders;
  ladder = record {
    orders_at_price_pool = MemoryPool.make me_max_price_levels no_level;
    bids_by_price = none;
    asks_by_price = none;
    orders_at_price = prices;
    orders_pool = MemoryPool.make me_max_order_ids no_order;
  };
  best_bid_offer = record {
    bid_price = price_invalid;
    ask_price = price_invalid;
    bid_quantity = quantity_invalid;
    ask_quantity = quantity_invalid;
  };
}

abbrev pub on_ladder : {A : Type 0} → Cmd (Ladder MarketOrder) A → Cmd MarketOrderBook A
on_ladder = within (λ b. b.ladder) (λ l b. record b { ladder = l })

-- `mOrderIdToOrder[id]`, read and written.
unfoldable pub find_order : (id : ℕ) → Cmd MarketOrderBook Ptr
find_order id b =
    if ltb id me_max_order_ids then ok (b.order_id_to_order id) b else fault out_of_range

unfoldable pub enter_order : (id : ℕ) → Ptr → Cmd MarketOrderBook (Unit {0})
enter_order id p b =
    if ltb id me_max_order_ids
    then ok tt (record b { order_id_to_order = update b.order_id_to_order id p })
    else fault out_of_range

-- `AddOrder`
unfoldable pub add_order : (order : Ptr) → Cmd MarketOrderBook (Unit {0})
unfolding read_order link_order enter_order
add_order order = do
  on_ladder (link_order order)
  o ← on_ladder (read_order order)
  enter_order o.order.order_id order

-- `RemoveOrder`
unfoldable pub remove_order : (order : Ptr) → Cmd MarketOrderBook (Unit {0})
unfolding read_order unlink_order enter_order deallocate
remove_order order = do
  on_ladder (unlink_order order)
  o ← on_ladder (read_order order)
  enter_order o.order.order_id none
  on_ladder (on_orders (deallocate order))
