-- ===== src/Trading/OrderManager.antt =====
-- trading/strategy/OMOrder.h, OrderManager.h and OrderManager.cpp: one order for each ticker and
-- side, and the requests that move it. The queue that `SendClientRequest` writes to is a field; the
-- risk manager is the parameter `check`.
pub mod Moves
use Prim.Native.String.{String}
use low_latency.Prelude.{
  ℕ, ◌+◌, Bool, true, false, not, ◌==◌, ◌&&◌, ◌||◌, ltb, if◌then◌else◌, update, Cmd, ok, fault,
  out_of_range, pure, get, modify, when, ◌>>=◌, ◌>>◌,
}
use low_latency.Common.Types.{Side, u64, side_to_index, price_invalid}
use low_latency.Common.Limits.{me_max_tickers}
use low_latency.Common.Messages.{
  ClientRequestType, MeClientRequest, ClientResponseType, MeClientResponse,
}
use low_latency.Common.SafeQueue.{SafeQueue, push}
use low_latency.Trading.RiskManager.{RiskCheckResult, is_allowed}

pub data OmOrderState : Type 0 where
  invalid pending_new live pending_cancel dead : OmOrderState

unfoldable pub om_order_state_to_string : OmOrderState → String
om_order_state_to_string OmOrderState.invalid = "INVALID"
om_order_state_to_string OmOrderState.pending_new = "PENDING_NEW"
om_order_state_to_string OmOrderState.live = "LIVE"
om_order_state_to_string OmOrderState.pending_cancel = "PENDING_CANCEL"
om_order_state_to_string OmOrderState.dead = "DEAD"

pub record OmOrder : Type 0 where
  pub ticker_id : ℕ
  pub order_id : ℕ
  pub side : Side
  pub price : ℕ
  pub quantity : ℕ
  pub state : OmOrderState

pub record OrderManager : Type 0 where
  pub ticker_side_order : ℕ → ℕ → OmOrder
  pub next_order_id : ℕ
  pub requests : SafeQueue MeClientRequest

-- An `OMOrder *` is a place in `mTickerSideOrder`.
pub record Place : Type 0 where
  pub ticker : ℕ
  pub index : ℕ

abbrev pub order_at : Place → OrderManager → OmOrder
order_at place m = m.ticker_side_order place.ticker place.index

abbrev pub with_order : Place → OmOrder → OrderManager → OrderManager
with_order place o m = record m {
  ticker_side_order =
      update m.ticker_side_order place.ticker
        (update (m.ticker_side_order place.ticker) place.index o);
}

-- `TradeEngine::SendClientRequest`
unfoldable pub send_client_request : MeClientRequest → OrderManager → OrderManager
send_client_request r m = record m { requests = push r m.requests }

unfoldable pub new_order :
    Place → (ticker price : ℕ) → Side → (quantity : ℕ) → OrderManager → OrderManager
unfolding send_client_request
new_order place ticker price side quantity m =
    let sent =
      send_client_request
        (record {
          client_id = 0;
          order_id = m.next_order_id;
          type = ClientRequestType.new;
          ticker_id = ticker;
          price = price;
          side = side;
          quantity = quantity;
        })
        m in
    record (with_order place
      (record {
        ticker_id = ticker;
        order_id = m.next_order_id;
        side = side;
        price = price;
        quantity = quantity;
        state = OmOrderState.pending_new;
      })
      sent) { next_order_id = u64 (m.next_order_id + 1) }

unfoldable pub cancel_order : Place → OrderManager → OrderManager
unfolding send_client_request
cancel_order place m =
    let o = order_at place m in
    with_order place (record o { state = OmOrderState.pending_cancel })
      (send_client_request
        (record {
          client_id = 0;
          order_id = o.order_id;
          type = ClientRequestType.cancel;
          ticker_id = o.ticker_id;
          price = o.price;
          side = o.side;
          quantity = o.quantity;
        })
        m)

-- The case FILLED, which the case CANCELED falls through to.
abbrev pub on_fill : (leaves : ℕ) → OmOrder → OmOrder
on_fill leaves o =
    if leaves == 0
    then record o { quantity = leaves; state = OmOrderState.dead }
    else record o { quantity = leaves }

-- The `switch` of `OnOrderUpdate`.
unfoldable pub update_order : ClientResponseType → (leaves : ℕ) → OmOrder → OmOrder
update_order ClientResponseType.accepted leaves o = record o { state = OmOrderState.live }
update_order ClientResponseType.canceled leaves o =
    on_fill leaves (record o { state = OmOrderState.dead })
update_order ClientResponseType.filled leaves o = on_fill leaves o
update_order ClientResponseType.cancel_rejected leaves o = o
update_order ClientResponseType.invalid leaves o = o

-- `OnOrderUpdate`: the response's ticker is an index; every side's index is in range.
unfoldable pub on_order_update : MeClientResponse → Cmd OrderManager (Unit {0})
unfolding update_order
on_order_update r m =
    let place : Place = record { ticker = r.ticker_id; index = side_to_index r.side } in
    if ltb r.ticker_id me_max_tickers
    then ok tt (with_order place (update_order r.type r.leaves_quantity (order_at place m)) m)
    else fault out_of_range

module _ (check : (ticker : ℕ) → Side → (qty : ℕ) → RiskCheckResult) where
  -- The `switch` of `MoveOrder` on the order's state.
  unfoldable pub move_order_in :
      OmOrderState → Place → (ticker price : ℕ) → Side → (qty : ℕ) → OrderManager → OrderManager
  unfolding new_order cancel_order
  move_order_in OmOrderState.live place ticker price side qty m =
      let o = order_at place m in
      if not (o.price == price) || not (o.quantity == qty) then cancel_order place m else m
  move_order_in OmOrderState.invalid place ticker price side qty m =
      if not (price == price_invalid) && is_allowed (check ticker side qty)
      then new_order place ticker price side qty m
      else m
  move_order_in OmOrderState.dead place ticker price side qty m =
      if not (price == price_invalid) && is_allowed (check ticker side qty)
      then new_order place ticker price side qty m
      else m
  move_order_in OmOrderState.pending_new place ticker price side qty m = m
  move_order_in OmOrderState.pending_cancel place ticker price side qty m = m

  unfoldable pub move_order :
      Place → (ticker price : ℕ) → Side → (qty : ℕ) → OrderManager → OrderManager
  unfolding move_order_in
  move_order place ticker price side qty m =
      move_order_in (order_at place m).state place ticker price side qty m

  -- `MoveOrders`: the bid, then the ask.
  unfoldable pub move_orders :
      (ticker bid_price ask_price trade_size : ℕ) → Cmd OrderManager (Unit {0})
  unfolding move_order
  move_orders ticker bid_price ask_price trade_size m =
      let bid : Place = record { ticker = ticker; index = side_to_index Side.buy } in
      let ask : Place = record { ticker = ticker; index = side_to_index Side.sell } in
      if ltb ticker me_max_tickers
      then ok tt (
          move_order ask ticker ask_price Side.sell trade_size
            (move_order bid ticker bid_price Side.buy trade_size m))
      else fault out_of_range
