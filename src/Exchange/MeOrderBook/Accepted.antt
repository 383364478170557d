-- ===== src/Exchange/MeOrderBook/Accepted.antt =====
-- `Add` of exchange/matcher/MEOrderBook.cpp from its call to its end, for an order that does not trade
-- and has a price of its own.
use mathlib.Core.Path.{subst}
use low_latency.Prelude.{
  ℕ, suc, ◌≡◌, ◌≢◌, refl, sym, ap, ◌∙◌, none, List, inl, eq-true, arith, ok, fault, null_pointer,
  put_back, and_then-ok, and_then-fault,
}
use low_latency.Prelude.Ensures.{Returns, returns, total_bind, total_after, total_run}
use low_latency.Common.MemoryPool.Allocation.{HasSpare}
use low_latency.Common.SafeQueue.{push}
use low_latency.Common.Types.{Side}
use low_latency.Ladder.{set_object, price_to_index, read_level}
use low_latency.Ladder.Unlinked.{IsUnlinked}
use low_latency.Exchange.MeOrderBook.{
  MeOrder-Priced, Desk, on_ladder, with_ladder, send_market_update,
}
use low_latency.Exchange.MeOrderBook.Add.{add, level_to_string}
use low_latency.Exchange.MeOrderBook.Matching.{Rests}
use low_latency.Exchange.MeOrderBook.NoQueue.{DeskUnlinked}
use low_latency.Exchange.MeOrderBook.Resting.{
  HasAdded, HasPlace, level_to_string-alone, resting, added,
}
use low_latency.Exchange.MeOrderBook.Adding.{
  report, CanPrint, entered-FirstBid, placed, add-enter, placed-HasAdded, HasRested,
}

module _ (client client_order ticker : ℕ) (side : Side) (price qty : ℕ) where
  -- No order has a neighbour after the new one has come in.
  added-Unlinked :
      (ns : List ℕ) (d t : Desk) (k : ℕ)
      → DeskUnlinked d
      → HasAdded d.book.ladder.orders_pool.next_free_index ns
          (resting client client_order ticker side price qty d.book.next_order_id)
          (placed client client_order ticker side price qty d k)
          t
      → DeskUnlinked t
  added-Unlinked ns d t k u h j =
      subst (λ p. IsUnlinked (p.store j).object) (sym h.entered.orders) (ground (arith, u j))

  finish :
      (fuel : ℕ) (ns : List ℕ) (d t : Desk) (k : ℕ)
      → HasPlace
          (resting client client_order ticker side price qty d.book.next_order_id)
          ns
          d.book.ladder
      → DeskUnlinked d
      → CanPrint side ns d.book.ladder
      → HasAdded d.book.ladder.orders_pool.next_free_index ns
          (resting client client_order ticker side price qty d.book.next_order_id)
          (placed client client_order ticker side price qty d k)
          t
      → Returns
          (λ _. HasRested client client_order ticker side price qty ns d)
          (report client client_order ticker side price qty (suc (suc fuel)) d.book.next_order_id t)
  unfolding send_market_update
  finish fuel ns d t k p u prints h =
      let (m, e, j, first) =
        entered-FirstBid side d.book.ladder.orders_pool.next_free_index ns
          (resting client client_order ticker side price qty d.book.next_order_id)
          (placed client client_order ticker side price qty d k).book.ladder t.book.ladder refl
          p.fresh (kept side prints) h.entered in
      let printed : level_to_string (suc (suc fuel)) t.book.ladder.bids_by_price t.book.ladder
          ≡ ok tt t.book.ladder =
        subst (λ q. level_to_string (suc (suc fuel)) q t.book.ladder ≡ ok tt t.book.ladder) (sym e)
          (level_to_string-alone fuel m j t.book.ladder first (added-Unlinked ns d t k u h j)) in
      total_after _ (ap (put_back (λ l. with_ladder l t)) printed) (
        returns (record {
          responses = h.same_responses;
          updates =
              ap (push (added client client_order ticker side price qty d.book.next_order_id))
                h.same_updates;
          found = h.found;
          order =
              ap (λ q. (q.store d.book.ladder.orders_pool.next_free_index).object.order)
                h.entered.orders
              ∙ same_order;
          at_price =
              ap (λ f. f (price_to_index price)) h.entered.table
              ∙ rw (eq-true {a = price_to_index price} refl) refl;
          same_sizes = (ap (λ q. q.size) h.entered.orders, h.entered.same_size);
          first = h.entered.first;
          levels = h.entered.levels;
        }))
    where
      same_order :
          ((set_object
              (λ x. record x { next_order = none; prev_order = none })
              d.book.ladder.orders_pool.next_free_index
              (placed client client_order ticker side price qty d k).book.ladder.orders_pool).store
            d.book.ladder.orders_pool.next_free_index).object.order
          ≡ resting client client_order ticker side price qty d.book.next_order_id
      same_order = ground arith

      kept :
          (side : Side)
          → CanPrint side ns d.book.ladder
          → CanPrint side ns (placed client client_order ticker side price qty d k).book.ladder
      kept Side.buy h = h
      kept Side.sell h = h
      kept Side.invalid h = h
      kept Side.max h = h

  -- Let no order of the book have a neighbour, and let a new order have a quantity, not cross the
  -- other side, have a price that is not in the table and ids in range; let the next block of both
  -- pools be free and another one too, that for the level be none of the levels `ns` of the side,
  -- and these no more than the pool has blocks; and let the bid to log have a first order: for a
  -- buy every level of `ns`, else the first bid, which is there and not in the next block. Then
  -- `Add` returns: it sends one response, the order accepted, and one update, the order added with
  -- the next market order id and priority 1, and the order rests in the next block, known to its
  -- client, first at its price, with the level of the price among those of its side where
  -- `shouldInsert` puts it.
  pub add-accepted :
      (fuel at : ℕ) (ns : List ℕ) (d : Desk)
      → qty ≢ 0
      → DeskUnlinked d
      → Rests side price at d.book.ladder
      → HasSpare d.book.ladder.orders_pool
      → HasPlace
          (resting client client_order ticker side price qty d.book.next_order_id)
          ns
          d.book.ladder
      → CanPrint side ns d.book.ladder
      → Returns
          (λ _. HasRested client client_order ticker side price qty ns d)
          (add (suc (suc fuel)) client client_order ticker side price qty d)
  add-accepted fuel at ns d ne u rests spare p prints =
      let (k, e) =
        add-enter client client_order ticker side price qty (suc fuel) at d ne rests spare
          p.unused in
      subst (Returns (λ _. HasRested client client_order ticker side price qty ns d)) (sym e) (
        total_bind _ (placed-HasAdded client client_order ticker side price qty ns d k p)
          λ _ t h. finish fuel ns d t k p u prints h)

-- A sell that has a quantity, a price that is not in the table and ids in range, and comes to a
-- book with no bids, makes `Add` read through a null pointer, since the log line asks the first
-- bid price for its text: where the next block of both pools is free and another one too, and that
-- for the level is none of the levels `ns` of the asks, which are no more than the pool has
-- blocks.
pub add-no_bids :
    (fuel client client_order ticker price qty at : ℕ) (ns : List ℕ) (d : Desk)
    → qty ≢ 0
    → d.book.ladder.bids_by_price ≡ none
    → HasSpare d.book.ladder.orders_pool
    → HasPlace
        (resting client client_order ticker Side.sell price qty d.book.next_order_id)
        ns
        d.book.ladder
    → add (suc fuel) client client_order ticker Side.sell price qty d ≡ fault null_pointer
unfolding level_to_string read_level
add-no_bids fuel client client_order ticker price qty at ns d ne empty spare p =
    let (k, e) =
      add-enter client client_order ticker Side.sell price qty fuel at d ne (inl empty) spare
        p.unused in
    let (_, t, runs, h) =
      total_run (placed-HasAdded client client_order ticker Side.sell price qty ns d k p) in
    let none_yet : t.book.ladder.bids_by_price ≡ none =
      h.entered.other_head Side.buy (λ i. cc) ∙ empty in
    e ∙ and_then-ok _ runs (and_then-fault _ (prints_null (suc fuel) t none_yet))
  where
    prints_null :
        (fuel : ℕ) (t : Desk)
        → t.book.ladder.bids_by_price ≡ none
        → on_ladder (level_to_string fuel t.book.ladder.bids_by_price) t ≡ fault null_pointer
    prints_null fuel t none_yet = rw none_yet refl
