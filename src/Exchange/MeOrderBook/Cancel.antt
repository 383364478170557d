-- ===== src/Exchange/MeOrderBook/Cancel.antt =====
-- `Cancel` of exchange/matcher/MEOrderBook.cpp.
use low_latency.Prelude.{
  ℕ, true, false, none, ltb, if◌then◌else◌, Ptr, fault, Cmd, ok, uncaught, ◌>>=◌, ◌>>◌,
}
use low_latency.Common.Types.{Side, order_id_invalid, price_invalid, quantity_invalid}
use low_latency.Common.Limits.{me_max_num_clients, me_max_order_ids}
use low_latency.Common.Messages.{MarketUpdateType, ClientResponseType}
use low_latency.Ladder.{read_order, is_null}
use low_latency.Exchange.MeOrderBook.{
  Desk, on_ladder, send_client_response, send_market_update, remove_order,
}

-- The lookup of `Cancel`: `operator[]` on the clients, after the test, and `at` on the orders.
unfoldable pub find_client_order : (client order : ℕ) → Cmd Desk Ptr
find_client_order client order d =
    if ltb client me_max_num_clients
    then (if ltb order me_max_order_ids
        then ok (d.book.client_id_to_order_id client order) d
        else fault uncaught)
    else ok none d

-- `Cancel`. A removed order is read after it went back to the pool, where it keeps its value.
unfoldable pub cancel : (client client_order ticker : ℕ) → Cmd Desk (Unit {0})
unfolding find_client_order remove_order read_order send_client_response send_market_update
cancel client client_order ticker = do
  found ← find_client_order client client_order
  elim (is_null found) [
    | true ↦ send_client_response (record {
      type = ClientResponseType.cancel_rejected;
      client_id = client;
      client_order_id = client_order;
      ticker_id = ticker;
      market_order_id = order_id_invalid;
      executed_quantity = quantity_invalid;
      leaves_quantity = quantity_invalid;
      price = price_invalid;
      side = Side.invalid;
    })
    | false ↦ do
      remove_order found
      o ← on_ladder (read_order found)
      send_market_update (record {
        type = MarketUpdateType.cancel;
        order_id = o.order.market_order_id;
        price = o.order.price;
        priority = o.order.priority;
        side = o.order.side;
        quantity = o.order.quantity;
        ticker_id = ticker;
      })
      send_client_response (record {
        type = ClientResponseType.canceled;
        client_id = client;
        client_order_id = client_order;
        ticker_id = ticker;
        market_order_id = o.order.market_order_id;
        executed_quantity = quantity_invalid;
        leaves_quantity = quantity_invalid;
        price = o.order.price;
        side = o.order.side;
      })
  ]
