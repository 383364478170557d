-- ===== src/Exchange/MeOrderBook/Canceled.antt =====
-- `Cancel` of exchange/matcher/MEOrderBook.cpp for the only order of a side.
use mathlib.Core.Path.{subst}
use low_latency.Prelude.{
  ℕ, ◌≡◌, ◌<◌, refl, sym, ap, ◌∙◌, none, some, ltb-true, eq-true, ok, put_back, ◌>>◌,
}
use low_latency.Prelude.Ensures.{Returns, returns, total_bind, total_after, total_lift}
use low_latency.Common.Limits.{me_max_num_clients, me_max_order_ids}
use low_latency.Common.MemoryPool.{deallocate}
use low_latency.Common.MemoryPool.Allocation.{IsFree, deallocate_lem}
use low_latency.Common.Types.{quantity_invalid}
use low_latency.Common.Messages.{
  ClientResponseType, MeClientResponse, MarketUpdateType, MeMarketUpdate,
}
use low_latency.Common.SafeQueue.{push}
use low_latency.Ladder.{
  Ladder, price_to_index, unlink_order, read_order, on_orders, head_of, get_orders_at_price,
}
use low_latency.Ladder.Levels.{next_of}
use low_latency.Ladder.Emptying.{IsEmptied, unlink_order-only}
use low_latency.Exchange.MeOrderBook.{
  MeOrder, MeOrder-Priced, MeOrderBook, Desk, on_ladder, with_ladder, with_client_order,
  set_client_order, send_client_response, send_market_update, remove_order,
}
use low_latency.Exchange.MeOrderBook.Cancel.{find_client_order, cancel}

-- The order `o` in the block `i` has the only price of its side, in the level `n`, and is known to
-- its client.
pub record IsAlone (i n : ℕ) (o : MeOrder) (d : Desk) : Type 0 where
  pub stored : (d.book.ladder.orders_pool.store i).object.order ≡ o
  pub at_price : get_orders_at_price o.price d.book.ladder ≡ some n
  pub only : next_of d.book.ladder n ≡ some n
  pub level_in_range : n < d.book.ladder.orders_at_price_pool.size
  pub order_in_range : i < d.book.ladder.orders_pool.size
  pub known_client : o.client_id < me_max_num_clients
  pub known_order : o.client_order_id < me_max_order_ids

-- The order `o` is out of the book: its side is empty, its block and its level are free.
pub record IsGone (i n : ℕ) (o : MeOrder) (b : MeOrderBook) : Type 0 where
  pub no_price : head_of o.side b.ladder ≡ none
  pub not_found : get_orders_at_price o.price b.ladder ≡ none
  pub level_free : IsFree b.ladder.orders_at_price_pool n
  pub order_free : IsFree b.ladder.orders_pool i
  pub unknown : b.client_id_to_order_id o.client_id o.client_order_id ≡ none

-- `RemoveOrder`: the order is gone, its block keeps its value, and nothing is sent.
record IsRemoved (i n : ℕ) (o : MeOrder) (d t : Desk) : Type 0 where
  is_gone : IsGone i n o t.book
  keeps_value : (t.book.ladder.orders_pool.store i).object.order ≡ o
  same_responses : t.client_responses ≡ d.client_responses
  same_updates : t.market_updates ≡ d.market_updates

enter_none :
    (o : MeOrder) (t : Desk)
    → o.client_id < me_max_num_clients
    → o.client_order_id < me_max_order_ids
    → set_client_order o.client_id o.client_order_id none t
      ≡ ok tt (with_client_order o.client_id o.client_order_id none t)
unfolding set_client_order
enter_none o t h k = rw (ltb-true h, ltb-true k) refl

pub found_client_order :
    (o : MeOrder) (d : Desk)
    → o.client_id < me_max_num_clients
    → o.client_order_id < me_max_order_ids
    → find_client_order o.client_id o.client_order_id d
      ≡ ok (d.book.client_id_to_order_id o.client_id o.client_order_id) d
unfolding find_client_order
found_client_order o d h k = rw (ltb-true h, ltb-true k) refl

module _ (i n : ℕ) where
  -- The last three lines of `RemoveOrder`.
  forget :
      (o : MeOrder) (d : Desk) (l : Ladder MeOrder)
      → IsAlone i n o d
      → IsEmptied o.side o.price n d.book.ladder l
      → Returns
          (λ _. IsRemoved i n o d)
          ((set_client_order o.client_id o.client_order_id none
              >> on_ladder (on_orders (deallocate (some i))))
            (with_ladder l d))
  forget o d l a e = total_after _ (enter_none o (with_ladder l d) a.known_client a.known_order) (
      subst (Returns (λ _. IsRemoved i n o d))
        (sym (
          ap
            (put_back (λ x.
              with_ladder x
                (with_client_order o.client_id o.client_order_id none (with_ladder l d))))
            (ap (put_back (λ p. record l { orders_pool = p }))
              (deallocate_lem i l.orders_pool in_range))))
        (returns (record {
          is_gone = record {
            no_price = e.head;
            not_found = ap (λ f. f idx) e.table ∙ rw (eq-true {a = idx} refl) refl;
            level_free = e.freed;
            order_free = rw (eq-true {a = i} refl) refl;
            unknown =
                rw (eq-true {a = o.client_id} refl, eq-true {a = o.client_order_id} refl) refl;
          };
          keeps_value = rw (eq-true {a = i} refl) same_value;
          same_responses = refl;
          same_updates = refl;
        })))
    where
      in_range : i < l.orders_pool.size
      in_range = subst (λ p. i < p.size) (sym e.orders) a.order_in_range

      same_value : (l.orders_pool.store i).object.order ≡ o
      same_value = ap (λ p. (p.store i).object.order) e.orders ∙ a.stored

      idx : ℕ
      idx = price_to_index o.price

  remove_order-IsRemoved :
      (o : MeOrder) (d : Desk)
      → IsAlone i n o d
      → Returns (λ _. IsRemoved i n o d) (remove_order (some i) d)
  unfolding remove_order read_order
  remove_order-IsRemoved o d a =
      total_bind
        {P = λ _ t.
          IsEmptied o.side o.price n d.book.ladder t.book.ladder
          × (t ≡ with_ladder t.book.ladder d)}
        _ (total_lift (λ l. with_ladder l d) emptied (λ _ l e. (e, refl)))
        λ _ t (e, same).
          let stored : (t.book.ladder.orders_pool.store i).object.order ≡ o =
            ap (λ p. (p.store i).object.order) e.orders ∙ a.stored in
          subst
            (λ x.
              Returns (λ _. IsRemoved i n o d)
                ((set_client_order x.client_id x.client_order_id none
                    >> on_ladder (on_orders (deallocate (some i))))
                  t))
            (sym stored)
            (subst
              (λ u.
                Returns (λ _. IsRemoved i n o d)
                  ((set_client_order o.client_id o.client_order_id none
                      >> on_ladder (on_orders (deallocate (some i))))
                    u))
              (sym same) (forget o d t.book.ladder a e))
    where
      emptied :
          Returns
            (λ _. IsEmptied o.side o.price n d.book.ladder)
            (unlink_order (some i) d.book.ladder)
      emptied =
          subst
            (λ x.
              get_orders_at_price x.price d.book.ladder ≡ some n
              → Returns (λ _. IsEmptied x.side x.price n d.book.ladder)
                  (unlink_order (some i) d.book.ladder))
            a.stored (λ found. unlink_order-only i n d.book.ladder found a.only a.level_in_range)
            a.at_price

-- What `Cancel` sends for an order `o` of the book.
abbrev pub canceled : (ticker : ℕ) → MeOrder → MeClientResponse
canceled ticker o = record {
  type = ClientResponseType.canceled;
  client_id = o.client_id;
  client_order_id = o.client_order_id;
  ticker_id = ticker;
  market_order_id = o.market_order_id;
  executed_quantity = quantity_invalid;
  leaves_quantity = quantity_invalid;
  price = o.price;
  side = o.side;
}

abbrev pub withdrawn : (ticker : ℕ) → MeOrder → MeMarketUpdate
withdrawn ticker o = record {
  type = MarketUpdateType.cancel;
  order_id = o.market_order_id;
  price = o.price;
  priority = o.priority;
  side = o.side;
  quantity = o.quantity;
  ticker_id = ticker;
}

-- Cancelling an order that its client knows in the block `i`, whose price is in the table with the
-- level `n`, the only one of its ring, and whose ids and blocks are in range, returns: the side of
-- the order has no price, the price is not in the table, the level and the block are free, the id
-- is unknown, and one response and one update have been sent, with the ids, the price and the side
-- of the order.
pub cancel-IsGone :
    (i n ticker : ℕ) (o : MeOrder) (d : Desk)
    → IsAlone i n o d
    → d.book.client_id_to_order_id o.client_id o.client_order_id ≡ some i
    → Returns
        (λ _ t.
          IsGone i n o t.book
          × (t.client_responses ≡ push (canceled ticker o) d.client_responses)
          × (t.market_updates ≡ push (withdrawn ticker o) d.market_updates))
        (cancel o.client_id o.client_order_id ticker d)
unfolding cancel read_order send_client_response send_market_update
cancel-IsGone i n ticker o d a known = total_after _ finds (
    total_bind _ (remove_order-IsRemoved i n o d a) λ _ t r.
      subst
        (λ x.
          Returns
            (λ _ u.
              IsGone i n o u.book
              × (u.client_responses ≡ push (canceled ticker o) d.client_responses)
              × (u.market_updates ≡ push (withdrawn ticker o) d.market_updates))
            ((send_market_update (withdrawn ticker x)
                >> send_client_response (record (canceled ticker x) {
                  client_id = o.client_id;
                  client_order_id = o.client_order_id;
                }))
              t))
        (sym r.keeps_value)
        (returns (
          r.is_gone,
          ap (push (canceled ticker o)) r.same_responses,
          ap (push (withdrawn ticker o)) r.same_updates,
        )))
  where
    finds : find_client_order o.client_id o.client_order_id d ≡ ok (some i) d
    finds = found_client_order o d a.known_client a.known_order ∙ ap (λ p. ok p d) known
