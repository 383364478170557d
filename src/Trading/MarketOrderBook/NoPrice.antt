-- ===== src/Trading/MarketOrderBook/NoPrice.antt =====
-- The best prices of trading/strategy/MarketOrderBook.cpp: since no order of the book has a
-- neighbour, `UpdateBestBidOffer` reads through a null pointer as soon as there is a level.
use low_latency.Prelude.{
  ℕ, suc, ◌≡◌, refl, ◌≢◌, Bool, true, false, none, some, Bool-cases, inl, inr, ltb, Ptr, Cmd, Run,
  fault, null_pointer, when, and_then-fault,
}
use low_latency.Prelude.Ensures.{Ensures, done, stopped, unfinished, Keeps}
use low_latency.Prelude.Ensures
use low_latency.Common.Types.{price_invalid}
use low_latency.Common.MemoryPool.{MemoryPool}
use low_latency.Ladder.{Ladder, Linked, read_level, read_order, is_null, on_orders}
use low_latency.Ladder.Unlinked.{
  AllUnlinked, Unlinked, read_order-Unlinked, deallocate-AllUnlinked, link_order-Unlinked,
  unlink_order-Unlinked,
}
use low_latency.Trading.MarketOrderBook.{
  MarketOrder, MarketOrder-Priced, MarketOrderBook, make, on_ladder, find_order, enter_order,
  add_order, remove_order,
}
use low_latency.Trading.MarketOrderBook.BestPrices.{
  sum_quantities, price_and_quantity, update_bid, update_ask, update_best_bid_offer,
}

-- No order of the book has a neighbour, and neither side has a best price.
pub record NoPrice (b : MarketOrderBook) : Type 0 where
  pub unlinked : Unlinked b.ladder
  pub no_bid : b.best_bid_offer.bid_price ≡ price_invalid
  pub no_ask : b.best_bid_offer.ask_price ≡ price_invalid

-- A new book is such a book, whatever its two tables hold.
pub make-NoPrice : (ticker : ℕ) (orders prices : ℕ → Ptr) → NoPrice (make ticker orders prices)
unfolding make
make-NoPrice ticker orders prices = record {
  unlinked = λ i. (refl, refl);
  no_bid = refl;
  no_ask = refl;
}

pub ladder-Keeps :
    {A : Type 0} (m : Cmd (Ladder MarketOrder) A) → Keeps Unlinked m → Keeps NoPrice (on_ladder m)
ladder-Keeps m =
    Ensures.within-Keeps (λ b. b.ladder) (λ l b. record b { ladder = l }) m (λ b h. h.unlinked)
      (λ b l h k. record { unlinked = k; no_bid = h.no_bid; no_ask = h.no_ask })

nowhere :
    (first : Ptr) (sum : ℕ) (fuel : ℕ) (b : MarketOrderBook)
    → first ≢ none
    → sum_quantities (suc fuel) first none sum b ≡ fault null_pointer
unfolding sum_quantities read_order
nowhere none sum fuel b ne = absurd (ne refl)
nowhere (some i) sum fuel b ne = refl

-- The loop over the orders of a level starts at the null link of the first.
price_and_quantity-stops :
    (head : Ptr) (b : MarketOrderBook) → NoPrice b → price_and_quantity head b ≡ fault null_pointer
unfolding price_and_quantity read_level read_order
price_and_quantity-stops none b h = refl
price_and_quantity-stops (some i) b h =
    from_first (b.ladder.orders_at_price_pool.store i).object.first_order refl
  where
    sum_from : (j : ℕ) → Ptr → Run MarketOrderBook ℕ
    sum_from j next =
        sum_quantities (suc b.ladder.orders_pool.size) (some j) next
          (b.ladder.orders_pool.store j).object.order.quantity b

    starts :
        (j : ℕ)
        → (b.ladder.orders_pool.store j).object.next_order ≡ none
        → sum_from j (b.ladder.orders_pool.store j).object.next_order ≡ fault null_pointer
    starts j null = rw null (
        nowhere (some j) (b.ladder.orders_pool.store j).object.order.quantity
          b.ladder.orders_pool.size b (λ f. cc))

    from_first :
        (p : Ptr)
        → (b.ladder.orders_at_price_pool.store i).object.first_order ≡ p
        → price_and_quantity (some i) b ≡ fault null_pointer
    from_first none e = rw (e, price_and_quantity) refl
    from_first (some j) e =
        let null = (h.unlinked j).0 in rw (e, price_and_quantity) (and_then-fault _ (starts j null))

when-NoPrice :
    (u : Bool) (m : Cmd MarketOrderBook (Unit {0})) → Keeps NoPrice m → Keeps NoPrice (when u m)
when-NoPrice true m keep b h = keep b h
when-NoPrice false m keep b h = done h

update_bid-Keeps : Keeps NoPrice update_bid
unfolding update_bid
update_bid-Keeps b h =
    Ensures.branch (is_null b.ladder.bids_by_price) _ _ b
      (done (record { unlinked = h.unlinked; no_bid = refl; no_ask = h.no_ask }))
      (rw (price_and_quantity-stops b.ladder.bids_by_price b h) stopped)

update_ask-Keeps : Keeps NoPrice update_ask
unfolding update_ask
update_ask-Keeps b h =
    Ensures.branch (is_null b.ladder.asks_by_price) _ _ b
      (done (record { unlinked = h.unlinked; no_bid = h.no_bid; no_ask = refl }))
      (rw (price_and_quantity-stops b.ladder.asks_by_price b h) stopped)

pub update_best_bid_offer-Keeps : (bid ask : Bool) → Keeps NoPrice (update_best_bid_offer bid ask)
unfolding update_best_bid_offer
update_best_bid_offer-Keeps bid ask b h =
    Ensures.bind (when-NoPrice bid update_bid update_bid-Keeps b h)
      λ _ b₁ h₁. when-NoPrice ask update_ask update_ask-Keeps b₁ h₁

pub find_order-Keeps : (id : ℕ) → Keeps NoPrice (find_order id)
unfolding find_order
find_order-Keeps id b h = elim (Bool-cases (ltb id 1024)) [
  | inl e ↦ rw e (done h)
  | inr e ↦ rw e stopped
]

enter_order-Keeps : (id : ℕ) (p : Ptr) → Keeps NoPrice (enter_order id p)
unfolding enter_order
enter_order-Keeps id p b h = elim (Bool-cases (ltb id 1024)) [
  | inl e ↦ rw e (done (record { unlinked = h.unlinked; no_bid = h.no_bid; no_ask = h.no_ask }))
  | inr e ↦ rw e stopped
]

pub orders-Keeps :
    {A : Type 0} (m : Cmd (MemoryPool (Linked MarketOrder)) A)
    → Keeps AllUnlinked m
    → Keeps Unlinked (on_orders m)
orders-Keeps m =
    Ensures.within-Keeps (λ s. s.orders_pool) (λ p s. record s { orders_pool = p }) m (λ s h. h)
      (λ s t h k. k)

read_order-Keeps : (p : Ptr) → Keeps Unlinked (read_order {O = MarketOrder} p)
read_order-Keeps p s h = Ensures.mono (read_order-Unlinked p s h) λ x t k. k.1

pub add_order-Keeps : (p : Ptr) → Keeps NoPrice (add_order p)
unfolding add_order
add_order-Keeps p b h = Ensures.bind (ladder-Keeps _ (link_order-Unlinked p) b h) λ _ b₁ h₁.
    Ensures.bind (ladder-Keeps _ (read_order-Keeps p) b₁ h₁)
      λ o b₂ h₂. enter_order-Keeps o.order.order_id p b₂ h₂

pub remove_order-Keeps : (p : Ptr) → Keeps NoPrice (remove_order p)
unfolding remove_order
remove_order-Keeps p b h = Ensures.bind (ladder-Keeps _ (unlink_order-Unlinked p) b h) λ _ b₁ h₁.
    Ensures.bind (ladder-Keeps _ (read_order-Keeps p) b₁ h₁) λ o b₂ h₂.
      Ensures.bind (enter_order-Keeps o.order.order_id none b₂ h₂)
        λ _ b₃ h₃. ladder-Keeps _ (orders-Keeps _ (deallocate-AllUnlinked p)) b₃ h₃
