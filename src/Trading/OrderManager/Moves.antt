-- ===== src/Trading/OrderManager/Moves.antt =====
-- What one move of trading/strategy/OrderManager.cpp may do, and how the states of an order follow
-- each other.
use low_latency.Prelude.{
  ℕ, ◌+◌, ◌≡◌, refl, ◌≢◌, ◌⊎◌, inl, inr, true, not, ◌&&◌, ◌||◌, ◌==◌, Bool-cases, arith, sym,
  if◌then◌else◌,
}
use mathlib.Core.Path.{subst}
use low_latency.Common.Types.{Side, price_invalid, u64}
use low_latency.Common.Messages.{ClientRequestType, MeClientRequest, ClientResponseType}
use low_latency.Common.SafeQueue.{push}
use low_latency.Trading.RiskManager.{RiskCheckResult, is_allowed}
use low_latency.Trading.OrderManager.{
  OmOrderState, OrderManager, Place, order_at, send_client_request, new_order, cancel_order,
  update_order, move_order_in, move_order,
}

-- An order waits for an answer of the exchange.
pub data Pending : OmOrderState → Type 0 where
  new : Pending OmOrderState.pending_new
  cancel : Pending OmOrderState.pending_cancel

-- There is no order at the exchange.
pub data Absent : OmOrderState → Type 0 where
  never : Absent OmOrderState.invalid
  gone : Absent OmOrderState.dead

-- What a move with a price and a quantity may do to an order and to the queue of requests.
pub data Move (check : (ticker : ℕ) → Side → (qty : ℕ) → RiskCheckResult) (place : Place)
    (ticker price : ℕ) (side : Side) (qty : ℕ) (m : OrderManager) : OrderManager → Type 0 where
  nothing : Move check place ticker price side qty m m
  enters :
      {t : OrderManager} (r : MeClientRequest)
      → Absent (order_at place m).state
      → price ≢ price_invalid
      → check ticker side qty ≡ RiskCheckResult.allowed
      → r.type ≡ ClientRequestType.new
      → r.order_id ≡ m.next_order_id
      → t.requests ≡ push r m.requests
      → (order_at place t).state ≡ OmOrderState.pending_new
      → (order_at place t).order_id ≡ m.next_order_id
      → t.next_order_id ≡ u64 (m.next_order_id + 1)
      → Move check place ticker price side qty m t
  leaves :
      {t : OrderManager} (r : MeClientRequest)
      → (order_at place m).state ≡ OmOrderState.live
      → ((order_at place m).price ≢ price) ⊎ ((order_at place m).quantity ≢ qty)
      → r.type ≡ ClientRequestType.cancel
      → r.order_id ≡ (order_at place m).order_id
      → t.requests ≡ push r m.requests
      → (order_at place t).state ≡ OmOrderState.pending_cancel
      → t.next_order_id ≡ m.next_order_id
      → Move check place ticker price side qty m t

self : (n : ℕ) → (n == n) ≡ true
self n = ground arith

module _ (check : (ticker : ℕ) → Side → (qty : ℕ) → RiskCheckResult) (place : Place)
    (ticker price : ℕ) (side : Side) (qty : ℕ) (m : OrderManager) where
  allowed_lem : (r : RiskCheckResult) → is_allowed r ≡ true → r ≡ RiskCheckResult.allowed
  allowed_lem RiskCheckResult.allowed e = refl
  allowed_lem RiskCheckResult.invalid e = cc
  allowed_lem RiskCheckResult.order_too_large e = cc
  allowed_lem RiskCheckResult.position_too_large e = cc
  allowed_lem RiskCheckResult.loss_too_large e = cc

  new_order-Move :
      Absent (order_at place m).state
      → price ≢ price_invalid
      → is_allowed (check ticker side qty) ≡ true
      → Move check place ticker price side qty m (new_order place ticker price side qty m)
  unfolding new_order send_client_request
  new_order-Move a v ok =
      enters
        (record {
          client_id = 0;
          order_id = m.next_order_id;
          type = ClientRequestType.new;
          ticker_id = ticker;
          price = price;
          side = side;
          quantity = qty;
        })
        a v (allowed_lem (check ticker side qty) ok) refl refl refl
        (rw (self place.ticker, self place.index) refl)
        (rw (self place.ticker, self place.index) refl) refl

  cancel_order-Move :
      (order_at place m).state ≡ OmOrderState.live
      → ((order_at place m).price ≢ price) ⊎ ((order_at place m).quantity ≢ qty)
      → Move check place ticker price side qty m (cancel_order place m)
  unfolding cancel_order send_client_request
  cancel_order-Move l different =
      let o = order_at place m in
      leaves
        (record {
          client_id = 0;
          order_id = o.order_id;
          type = ClientRequestType.cancel;
          ticker_id = o.ticker_id;
          price = o.price;
          side = o.side;
          quantity = o.quantity;
        })
        l different refl refl refl (rw (self place.ticker, self place.index) refl) refl

  Absent-Move :
      Absent (order_at place m).state
      → Move check place ticker price side qty m (
          if not (price == price_invalid) && is_allowed (check ticker side qty)
          then new_order place ticker price side qty m
          else m)
  Absent-Move a = elim (Bool-cases (not (price == price_invalid))) [
    | inr e ↦ rw e nothing
    | inl e ↦ elim (Bool-cases (is_allowed (check ticker side qty))) [
      | inr f ↦ rw (e, f) nothing
      | inl f ↦ rw (e, f) (new_order-Move a (ground arith) f)
    ]
  ]

  live-Move :
      (order_at place m).state ≡ OmOrderState.live
      → Move check place ticker price side qty m (
          if not ((order_at place m).price == price) || not ((order_at place m).quantity == qty)
          then cancel_order place m
          else m)
  live-Move l = elim (Bool-cases ((order_at place m).price == price)) [
    | inr e ↦ rw e (cancel_order-Move l (inl (ground arith)))
    | inl e ↦ elim (Bool-cases ((order_at place m).quantity == qty)) [
      | inr f ↦ rw (e, f) (cancel_order-Move l (inr (ground arith)))
      | inl f ↦ rw (e, f) nothing
    ]
  ]

  -- A move sends at most one request. It is a new order only where there is none, the price is
  -- valid and the risk manager allows it, or the cancel of a live order that differs in price or
  -- quantity; in all other cases nothing changes. The order is then pending.
  pub move_order-Move :
      Move check place ticker price side qty m (move_order check place ticker price side qty m)
  unfolding move_order move_order_in
  move_order-Move = go (order_at place m).state refl
    where
      go :
          (s : OmOrderState)
          → (order_at place m).state ≡ s
          → Move check place ticker price side qty m
              (move_order_in check s place ticker price side qty m)
      go OmOrderState.live e = live-Move e
      go OmOrderState.invalid e = Absent-Move (subst Absent (sym e) never)
      go OmOrderState.dead e = Absent-Move (subst Absent (sym e) gone)
      go OmOrderState.pending_new e = nothing
      go OmOrderState.pending_cancel e = nothing

-- A cancel that the exchange rejects leaves the order as it is, and a move of an order whose
-- cancel is pending does nothing, whatever the price and the quantity.
pub move_order-rejected :
    (check : (ticker : ℕ) → Side → (qty : ℕ) → RiskCheckResult) (place : Place)
    (ticker price left : ℕ) (side : Side) (qty : ℕ) (m : OrderManager)
    → (order_at place m).state ≡ OmOrderState.pending_cancel
    → (update_order ClientResponseType.cancel_rejected left (order_at place m) ≡ order_at place m)
      × (move_order check place ticker price side qty m ≡ m)
unfolding move_order move_order_in update_order
move_order-rejected check place ticker price left side qty m e = (refl, rw e refl)
