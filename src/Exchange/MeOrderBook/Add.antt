-- ===== src/Exchange/MeOrderBook/Add.antt =====
-- `Add` of exchange/matcher/MEOrderBook.cpp, with `GetNextPriority` and the text of a level that
-- `Add` computes for its log line.
use low_latency.Prelude.{
  ℕ, zero, suc, ◌+◌, true, false, not, none, some, ◌==◌, Ptr, Cmd, out_of_fuel, pure, get, when,
  ◌>>=◌, ◌>>◌,
}
use low_latency.Common.Types.{Side, u64}
use low_latency.Common.Messages.{MarketUpdateType, ClientResponseType}
use low_latency.Common.MemoryPool
use low_latency.Ladder.{Ladder, read_level, read_order, on_orders, get_orders_at_price, is_null}
use low_latency.Exchange.MeOrderBook.{
  MeOrder, Desk, on_ladder, send_client_response, send_market_update, generate_new_market_order_id,
  add_order,
}
use low_latency.Exchange.MeOrderBook.Match.{check_for_match}

-- `GetNextPriority`
unfoldable pub get_next_priority : (price : ℕ) → Cmd Desk ℕ
unfolding read_level read_order
get_next_priority price = do
  d ← get
  let level = get_orders_at_price price d.book.ladder
  elim (is_null level) [
    | true ↦ pure 1
    | false ↦ do
      l ← on_ladder (read_level level)
      first ← on_ladder (read_order l.first_order)
      last ← on_ladder (read_order first.prev_order)
      pure (u64 (last.order.priority + 1))
  ]

-- `MEOrder::ToString`, less the text: it calls itself through both links of the order.
unfoldable pub order_to_string : ℕ → Ptr → Cmd (Ladder MeOrder) (Unit {0})
unfolding read_order
order_to_string zero p = λ _. out_of_fuel
order_to_string (suc fuel) none = pure tt
order_to_string (suc fuel) (some i) = do
  o ← read_order (some i)
  order_to_string fuel o.prev_order
  order_to_string fuel o.next_order

-- `MEOrdersAtPrice::ToString`, less the text.
unfoldable pub level_to_string : ℕ → Ptr → Cmd (Ladder MeOrder) (Unit {0})
unfolding read_level order_to_string
level_to_string fuel p = do l ← read_level p; order_to_string fuel l.first_order

-- `Add`; its last step but one is the `SHOWINFO` line, whose arguments are always computed.
unfoldable pub add :
    (fuel client client_order ticker : ℕ) → Side → (price qty : ℕ) → Cmd Desk (Unit {0})
unfolding generate_new_market_order_id send_client_response send_market_update check_for_match
    get_next_priority add_order level_to_string MemoryPool.allocate
add fuel client client_order ticker side price qty = do
  id ← generate_new_market_order_id
  send_client_response (record {
    type = ClientResponseType.accepted;
    client_id = client;
    client_order_id = client_order;
    market_order_id = id;
    price = price;
    side = side;
    ticker_id = ticker;
    leaves_quantity = qty;
    executed_quantity = 0;
  })
  left ← check_for_match fuel side price qty
  when (not (left == 0)) (do
    priority ← get_next_priority price
    order ← on_ladder (
        on_orders (
          MemoryPool.allocate (record {
            order = record {
              ticker_id = ticker;
              client_id = client;
              client_order_id = client_order;
              market_order_id = id;
              side = side;
              price = price;
              quantity = left;
              priority = priority;
            };
            next_order = none;
            prev_order = none;
          })))
    add_order order
    d ← get
    on_ladder (level_to_string fuel d.book.ladder.bids_by_price)
    send_market_update (record {
      type = MarketUpdateType.add;
      order_id = id;
      price = price;
      priority = priority;
      side = side;
      ticker_id = ticker;
      quantity = left;
    }))
