-- ===== src/Exchange/MeOrderBook.antt =====
-- exchange/matcher/MEOrder.h, MEOrderBook.h and MEOrderBook.cpp: the book of one ticker. The two
-- queues of the matching engine stand beside the book, since every operation reports to them.
pub mod Roundtrip
pub mod TwoPrices
pub mod Canceled
pub mod Accepted
pub mod Adding
pub mod Resting
pub mod Cancelling
pub mod Match
pub mod NoQueue
pub mod Operations
pub mod Matching
pub mod Add
pub mod Cancel
use low_latency.Prelude.{
  ℕ, ◌+◌, none, ltb, ◌&&◌, if◌then◌else◌, update, Ptr, fault, Cmd, ok, out_of_range, modify, within,
  ◌>>=◌, ◌>>◌,
}
use low_latency.Common.Types.{Side, u64, price_invalid}
use low_latency.Common.Limits.{me_max_num_clients, me_max_order_ids, me_max_price_levels}
use low_latency.Common.Messages.{MeMarketUpdate, MeClientResponse}
use low_latency.Common.SafeQueue.{SafeQueue, push}
use low_latency.Common.MemoryPool
use low_latency.Ladder.{Priced, Ladder, read_order, on_orders, link_order, unlink_order}

-- `MEOrder`, less its links.
pub record MeOrder : Type 0 where
  pub ticker_id : ℕ
  pub client_id : ℕ
  pub client_order_id : ℕ
  pub market_order_id : ℕ
  pub side : Side
  pub price : ℕ
  pub quantity : ℕ
  pub priority : ℕ

instance abbrev pub MeOrder-Priced : Priced MeOrder
MeOrder-Priced = record { side_of = λ o. o.side; price_of = λ o. o.price }

-- `mClientResponse` and `mMarketUpdate` are left out: each use writes every field first.
pub record MeOrderBook : Type 0 where
  pub ticker_id : ℕ
  pub client_id_to_order_id : ℕ → ℕ → Ptr
  pub ladder : Ladder MeOrder
  pub next_order_id : ℕ

-- A book, and the queues that `SendClientResponse` and `SendMarketUpdate` write to.
pub record Desk : Type 0 where
  pub book : MeOrderBook
  pub client_responses : SafeQueue MeClientResponse
  pub market_updates : SafeQueue MeMarketUpdate

unfoldable pub send_client_response : MeClientResponse → Cmd Desk (Unit {0})
send_client_response r = modify λ d. record d { client_responses = push r d.client_responses }

unfoldable pub send_market_update : MeMarketUpdate → Cmd Desk (Unit {0})
send_market_update u = modify λ d. record d { market_updates = push u d.market_updates }

abbrev pub with_ladder : Ladder MeOrder → Desk → Desk
with_ladder l d = record d { book = record (d.book) { ladder = l } }

abbrev pub on_ladder : {A : Type 0} → Cmd (Ladder MeOrder) A → Cmd Desk A
on_ladder = within (λ d. d.book.ladder) with_ladder

abbrev pub with_client_order : (client order : ℕ) → Ptr → Desk → Desk
with_client_order client order p d = record d {
  book = record (d.book) {
    client_id_to_order_id =
        update d.book.client_id_to_order_id client
          (update (d.book.client_id_to_order_id client) order p);
  };
}

-- `mClientIdToOrderId[client][order] = p`, an array of 256 arrays of 1024 pointers.
unfoldable pub set_client_order : (client order : ℕ) → Ptr → Cmd Desk (Unit {0})
set_client_order client order p d =
    if ltb client me_max_num_clients && ltb order me_max_order_ids
    then ok tt (with_client_order client order p d)
    else fault out_of_range

-- `MEOrderBook(tickerId, …)`: the constructor clears the table of prices and not the one of client
-- orders, which keeps what the memory held: `garbage`.
unfoldable pub make : (ticker : ℕ) (garbage : ℕ → ℕ → Ptr) (blank : MeOrder) → MeOrderBook
unfolding MemoryPool.make
make ticker garbage blank = record {
  ticker_id = ticker;
  client_id_to_order_id = garbage;
  ladder = record {
    orders_at_price_pool = MemoryPool.make me_max_price_levels (record {
      side = Side.invalid;
      price = price_invalid;
      first_order = none;
      next_entry = none;
      prev_entry = none;
    });
    bids_by_price = none;
    asks_by_price = none;
    orders_at_price = λ _. none;
    orders_pool =
        MemoryPool.make me_max_order_ids
          (record { order = blank; next_order = none; prev_order = none });
  };
  next_order_id = 0;
}

unfoldable pub generate_new_market_order_id : Cmd Desk ℕ
generate_new_market_order_id d =
    ok d.book.next_order_id
      (record d { book = record (d.book) { next_order_id = u64 (d.book.next_order_id + 1) } })

-- `AddOrder`
unfoldable pub add_order : (order : Ptr) → Cmd Desk (Unit {0})
unfolding read_order link_order set_client_order
add_order order = do
  on_ladder (link_order order)
  o ← on_ladder (read_order order)
  set_client_order o.order.client_id o.order.client_order_id order

-- `RemoveOrder`
unfoldable pub remove_order : (order : Ptr) → Cmd Desk (Unit {0})
unfolding read_order unlink_order set_client_order MemoryPool.deallocate
remove_order order = do
  on_ladder (unlink_order order)
  o ← on_ladder (read_order order)
  set_client_order o.order.client_id o.order.client_order_id none
  on_ladder (on_orders (MemoryPool.deallocate order))
