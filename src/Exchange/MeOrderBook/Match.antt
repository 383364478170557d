-- ===== src/Exchange/MeOrderBook/Match.antt =====
-- `Match` and `CheckForMatch` of exchange/matcher/MEOrderBook.cpp.
use Prim.Native.Nat.{min}
use low_latency.Prelude.{
  ℕ, zero, suc, ◌-◌, Bool, true, false, not, ◌&&◌, ◌==◌, leb, if◌then◌else◌, Ptr, Cmd, out_of_fuel,
  pure, get, ◌>>=◌, ◌>>◌,
}
use low_latency.Common.Types.{Side, priority_invalid}
use low_latency.Common.Messages.{MarketUpdateType, MeMarketUpdate, ClientResponseType}
use low_latency.Ladder.{read_level, read_order, set_order, is_null}
use low_latency.Exchange.MeOrderBook.{
  MeOrder, Desk, on_ladder, send_client_response, send_market_update, remove_order,
}

-- `Match`: fills `order` of the book against the incoming one; the result is `leavesQuantity`.
unfoldable pub match_order :
    (client ticker : ℕ)
    → Side
    → (client_order market_order : ℕ) → (order : Ptr) → (leaves : ℕ) → Cmd Desk ℕ
unfolding read_order set_order send_client_response send_market_update remove_order
match_order client ticker side client_order market_order order leaves = do
  o ← on_ladder (read_order order)
  let fill = min leaves o.order.quantity
  let left = leaves - fill
  let rest = o.order.quantity - fill
  on_ladder (set_order order (λ x. record x { order = record (x.order) { quantity = rest } }))
  send_client_response (record {
    type = ClientResponseType.filled;
    client_id = client;
    client_order_id = client_order;
    market_order_id = market_order;
    executed_quantity = fill;
    leaves_quantity = left;
    price = o.order.price;
    side = side;
    ticker_id = ticker;
  })
  send_client_response (record {
    type = ClientResponseType.filled;
    client_id = o.order.client_id;
    client_order_id = o.order.client_order_id;
    market_order_id = o.order.market_order_id;
    executed_quantity = fill;
    leaves_quantity = left;
    price = o.order.price;
    side = side;
    ticker_id = ticker;
  })
  send_market_update (update_of MarketUpdateType.trade o.order fill)
  if rest == 0
      then (remove_order order
          >> send_market_update (update_of MarketUpdateType.cancel o.order fill))
      else send_market_update (update_of MarketUpdateType.modify o.order rest)
  pure left
  where
    update_of : MarketUpdateType → MeOrder → ℕ → MeMarketUpdate
    update_of type o quantity = record {
      type = type;
      order_id = o.market_order_id;
      price = o.price;
      priority = priority_invalid;
      side = side;
      ticker_id = ticker;
      quantity = quantity;
    }

-- The `while` of `CheckForMatch` on fuel: `crosses` is the negation of the test before `break`.
unfoldable pub match_loop :
    ℕ → (head : Desk → Ptr) → (crosses : ℕ → Bool) → (leaves : ℕ) → Cmd Desk ℕ
unfolding read_level read_order
match_loop zero head crosses leaves = λ _. out_of_fuel
match_loop (suc fuel) head crosses leaves = do
  d ← get
  elim (not (leaves == 0) && not (is_null (head d))) [
    | false ↦ pure leaves
    | true ↦ do
      level ← on_ladder (read_level (head d))
      first ← on_ladder (read_order level.first_order)
      elim (crosses first.order.price) [
        | false ↦ pure leaves
        | true ↦ match_loop fuel head crosses leaves
      ]
  ]

-- `CheckForMatch`
unfoldable pub check_for_match : (fuel : ℕ) → Side → (price qty : ℕ) → Cmd Desk ℕ
unfolding match_loop
check_for_match fuel Side.buy price qty =
    match_loop fuel (λ d. d.book.ladder.asks_by_price) (λ first. leb first price) qty
check_for_match fuel Side.sell price qty =
    match_loop fuel (λ d. d.book.ladder.bids_by_price) (λ first. leb price first) qty
check_for_match fuel _ price qty = pure qty
