-- ===== src/Exchange/MeOrderBook/Matching.antt =====
-- What `CheckForMatch` of exchange/matcher/MEOrderBook.cpp does, and what that means for `Add`.
use low_latency.Prelude.{
  ℕ, zero, suc, ◌+◌, ◌<◌, ◌≤◌, ◌≡◌, refl, ◌≢◌, ◌⊎◌, inl, inr, Bool, true, false, not, ◌&&◌, none,
  some, ◌==◌, leb, Bool-cases, arith, Ptr, and_then-ok, and_then-fault, and_then-out_of_fuel, ok,
  fault, test-true, test-false, ◌∙◌, ap, null_pointer, out_of_fuel,
}
use low_latency.Common.Types.{Side, u64}
use low_latency.Common.Messages.{ClientResponseType}
use low_latency.Common.SafeQueue.{push}
use low_latency.Ladder.{
  OrdersAtPrice, Linked, Ladder, read_level, read_order, is_null, get_orders_at_price,
}
use low_latency.Exchange.MeOrderBook.{
  MeOrder, Desk, on_ladder, generate_new_market_order_id, send_client_response,
}
use low_latency.Exchange.MeOrderBook.Match.{match_loop, check_for_match}
use low_latency.Exchange.MeOrderBook.Add.{add}
use low_latency.Exchange.MeOrderBook.NoQueue.{DeskUnlinked, get_next_priority-used}

-- The first order of the level at `head` has the price `at`.
pub record Best (l : Ladder MeOrder) (head : Ptr) (at : ℕ) : Type 0 where
  pub level : ℕ
  pub order : ℕ
  pub is_head : head ≡ some level
  pub is_first : (l.orders_at_price_pool.store level).object.first_order ≡ some order
  pub is_price : (l.orders_pool.store order).object.order.price ≡ at

-- An order on `side` at `price` would trade with the first order of the other side, at `at`.
abbrev pub Crosses : Side → (price at : ℕ) → Ladder MeOrder → Type 0
Crosses Side.buy price at l = Best l l.asks_by_price at × (at ≤ price)
Crosses Side.sell price at l = Best l l.bids_by_price at × (price ≤ at)
Crosses _ price at l = ⊥

-- The other side is empty, or its first order has a price that does not trade.
abbrev pub Rests : Side → (price at : ℕ) → Ladder MeOrder → Type 0
Rests Side.buy price at l = (l.asks_by_price ≡ none) ⊎ (Best l l.asks_by_price at × (price < at))
Rests Side.sell price at l = (l.bids_by_price ≡ none) ⊎ (Best l l.bids_by_price at × (at < price))
Rests _ price at l = Unit

module _ {at : ℕ} {p : Ptr} (d : Desk) (b : Best d.book.ladder p at) where
  best_level : OrdersAtPrice
  best_level = (d.book.ladder.orders_at_price_pool.store b.level).object

  best_order : Linked MeOrder
  best_order = (d.book.ladder.orders_pool.store b.order).object

  level_read : on_ladder (read_level p) d ≡ ok best_level d
  unfolding read_level best_level
  level_read = rw b.is_head refl

  order_read : on_ladder (read_order best_level.first_order) d ≡ ok best_order d
  unfolding read_order best_level best_order
  order_read = rw b.is_first refl

  crosses_at : (crosses : ℕ → Bool) → crosses best_order.order.price ≡ crosses at
  unfolding best_order
  crosses_at crosses = ap crosses b.is_price

  enters : {leaves : ℕ} → leaves ≢ 0 → (not (leaves == 0) && not (is_null p)) ≡ true
  enters {leaves} ne = rw (b.is_head, nonzero) refl
    where
      nonzero : (leaves == 0) ≡ false
      nonzero = ground arith

match_loop-crossing :
    (fuel : ℕ) (head : Desk → Ptr) (crosses : ℕ → Bool) (leaves at : ℕ) (d : Desk)
    → leaves ≢ 0
    → Best d.book.ladder (head d) at
    → crosses at ≡ true
    → match_loop fuel head crosses leaves d ≡ out_of_fuel
unfolding match_loop
match_loop-crossing zero head crosses leaves at d ne b c = refl
match_loop-crossing (suc fuel) head crosses leaves at d ne b c = test-true _ _ (enters d b ne) (
    and_then-ok _ (level_read d b) (
      and_then-ok _ (order_read d b) (
        test-true _ _ (crosses_at d b crosses ∙ c)
          (match_loop-crossing fuel head crosses leaves at d ne b c))))

match_loop-resting :
    (fuel : ℕ) (head : Desk → Ptr) (crosses : ℕ → Bool) (leaves at : ℕ) (d : Desk)
    → (head d ≡ none) ⊎ (Best d.book.ladder (head d) at × (crosses at ≡ false))
    → match_loop (suc fuel) head crosses leaves d ≡ ok leaves d
unfolding match_loop
match_loop-resting fuel head crosses leaves at d (inl e) = test-false _ _ (empty e) refl
  where
    empty : head d ≡ none → (not (leaves == 0) && not (is_null (head d))) ≡ false
    empty e = elim (Bool-cases (leaves == 0)) [ inl z ↦ rw z refl | inr z ↦ rw (z, e) refl ]
match_loop-resting fuel head crosses leaves at d (inr (b, c)) = elim (Bool-cases (leaves == 0)) [
  | inl z ↦ test-false _ _ (nothing_left z) refl
  | inr z ↦ test-true _ _ (enters d b {leaves = leaves} (ground arith)) (
      and_then-ok _ (level_read d b)
        (and_then-ok _ (order_read d b) (test-false _ _ (crosses_at d b crosses ∙ c) refl)))
]
  where
    nothing_left : (leaves == 0) ≡ true → (not (leaves == 0) && not (is_null (head d))) ≡ false
    nothing_left z = rw z refl

-- Where the new order would trade, the loop of `CheckForMatch` never ends: it neither calls
-- `Match` nor changes what it tests.
check_for_match-crossing :
    (fuel : ℕ) (side : Side) (price qty at : ℕ) (d : Desk)
    → qty ≢ 0
    → Crosses side price at d.book.ladder
    → check_for_match fuel side price qty d ≡ out_of_fuel
unfolding check_for_match
check_for_match-crossing fuel Side.buy price qty at d ne (b, h) =
    match_loop-crossing fuel (λ d. d.book.ladder.asks_by_price) (λ first. leb first price) qty at d
      ne b (ground arith)
check_for_match-crossing fuel Side.sell price qty at d ne (b, h) =
    match_loop-crossing fuel (λ d. d.book.ladder.bids_by_price) (λ first. leb price first) qty at d
      ne b (ground arith)
check_for_match-crossing fuel Side.invalid price qty at d ne h = absurd h
check_for_match-crossing fuel Side.max price qty at d ne h = absurd h

-- Where a new order would not trade, one round of `CheckForMatch` is enough: the whole quantity
-- is left and the book is as it was.
pub check_for_match-resting :
    (fuel : ℕ) (side : Side) (price qty at : ℕ) (d : Desk)
    → Rests side price at d.book.ladder
    → check_for_match (suc fuel) side price qty d ≡ ok qty d
unfolding check_for_match
check_for_match-resting fuel Side.buy price qty at d (inl e) =
    match_loop-resting fuel (λ d. d.book.ladder.asks_by_price) (λ first. leb first price) qty at d
      (inl e)
check_for_match-resting fuel Side.buy price qty at d (inr (b, h)) =
    match_loop-resting fuel (λ d. d.book.ladder.asks_by_price) (λ first. leb first price) qty at d
      (inr (b, ground arith))
check_for_match-resting fuel Side.sell price qty at d (inl e) =
    match_loop-resting fuel (λ d. d.book.ladder.bids_by_price) (λ first. leb price first) qty at d
      (inl e)
check_for_match-resting fuel Side.sell price qty at d (inr (b, h)) =
    match_loop-resting fuel (λ d. d.book.ladder.bids_by_price) (λ first. leb price first) qty at d
      (inr (b, ground arith))
check_for_match-resting fuel Side.invalid price qty at d h = refl
check_for_match-resting fuel Side.max price qty at d h = refl

-- `Add` of an order of some quantity that would trade with the first order of the other side does
-- not end, whatever fuel it is given.
pub add-crossing :
    (fuel client client_order ticker : ℕ) (side : Side) (price qty at : ℕ) (d : Desk)
    → qty ≢ 0
    → Crosses side price at d.book.ladder
    → add fuel client client_order ticker side price qty d ≡ out_of_fuel
unfolding add generate_new_market_order_id send_client_response
add-crossing fuel client client_order ticker side price qty at d ne h =
    and_then-out_of_fuel _ (check_for_match-crossing fuel side price qty at _ ne h)

-- Where no order of the book has a neighbour, a new order of some quantity would not trade, and
-- the book has an order at its price (or at another price of the same index), `Add` with at least
-- one round of fuel reads through a null pointer: the program stops.
pub add-used :
    (fuel client client_order ticker : ℕ) (side : Side) (price qty at level : ℕ) (d : Desk)
    → qty ≢ 0
    → DeskUnlinked d
    → Rests side price at d.book.ladder
    → get_orders_at_price price d.book.ladder ≡ some level
    → add (suc fuel) client client_order ticker side price qty d ≡ fault null_pointer
unfolding add generate_new_market_order_id send_client_response
add-used fuel client client_order ticker side price qty at level d ne u h e =
    and_then-ok _ (check_for_match-resting fuel side price qty at announced h)
      (rw nonzero (and_then-fault _ (get_next_priority-used price level announced u e)))
  where
    nonzero : (qty == 0) ≡ false
    nonzero = ground arith

    announced : Desk
    announced = record d {
      book = record (d.book) { next_order_id = u64 (d.book.next_order_id + 1) };
      client_responses =
          push
            (record {
              type = ClientResponseType.accepted;
              client_id = client;
              client_order_id = client_order;
              market_order_id = d.book.next_order_id;
              price = price;
              side = side;
              ticker_id = ticker;
              leaves_quantity = qty;
              executed_quantity = 0;
            })
            d.client_responses;
    }
