-- ===== src/Exchange/MeOrderBook/Resting.antt =====
-- `Add` of exchange/matcher/MEOrderBook.cpp for an order that does not trade and has a price of its
-- own: what the engine sends, and where the order rests.
use low_latency.Prelude.{
  ◌∉◌, ℕ, ◌+◌, suc, ◌≡◌, ◌<◌, ◌≤◌, refl, sym, ap, ◌∙◌, none, some, List, ltb-true, eq-true, arith,
  length, ok,
}
use mathlib.Core.Path.{subst}
use low_latency.Prelude.Ensures.{Returns, returns, total_bind, total_lift}
use low_latency.Common.Limits.{me_max_num_clients, me_max_order_ids}
use low_latency.Common.MemoryPool.Allocation.{HasSpare}
use low_latency.Common.Types.{Side, u64}
use low_latency.Common.Messages.{
  ClientResponseType, MeClientResponse, MarketUpdateType, MeMarketUpdate,
}
use low_latency.Common.SafeQueue.{push}
use low_latency.Ladder.{Ladder, read_level, read_order, get_orders_at_price}
use low_latency.Ladder.Levels.{level_at, HasLevels}
use low_latency.Ladder.Entering.{HasEntered, link_order-levels}
use low_latency.Ladder.Unlinked.{IsUnlinked}
use low_latency.Exchange.MeOrderBook.{
  MeOrder, MeOrder-Priced, Desk, with_ladder, with_client_order, set_client_order, add_order,
}
use low_latency.Exchange.MeOrderBook.Add.{order_to_string, level_to_string}

-- `MEOrdersAtPrice::ToString` of a level whose first order has no neighbour.
pub level_to_string-alone :
    (fuel m k : ℕ) (s : Ladder MeOrder)
    → (level_at s m).first_order ≡ some k
    → IsUnlinked (s.orders_pool.store k).object
    → level_to_string (suc (suc fuel)) (some m) s ≡ ok tt s
unfolding level_to_string order_to_string read_level read_order
level_to_string-alone fuel m k s e (n, p) = ground (arith, e, n, p)

-- `AddOrder` of the first order at a price: it is in the ladder and in the table of its client, and
-- the queues are as they were.
pub record HasAdded (i : ℕ) (ns : List ℕ) (o : MeOrder) (d t : Desk) : Type 0 where
  pub entered :
      HasEntered i ns d.book.ladder t.book.ladder d.book.ladder.orders_at_price_pool.next_free_index
        o
  pub found : t.book.client_id_to_order_id o.client_id o.client_order_id ≡ some i
  pub same_responses : t.client_responses ≡ d.client_responses
  pub same_updates : t.market_updates ≡ d.market_updates

-- The order `i` can be the first of a new level behind the levels `ns` of its side.
pub record HasPlace (o : MeOrder) (ns : List ℕ) (l : Ladder MeOrder) : Type 0 where
  pub spare : HasSpare l.orders_at_price_pool
  pub unused : get_orders_at_price o.price l ≡ none
  pub levels : HasLevels o.side ns l
  pub fresh : l.orders_at_price_pool.next_free_index ∉ ns
  pub room : length ns ≤ l.orders_at_price_pool.size
  pub known_client : o.client_id < me_max_num_clients
  pub known_order : o.client_order_id < me_max_order_ids

-- The desk `d` with the ladder that `link_order` leaves.
abbrev IsLinked : ℕ → List ℕ → MeOrder → (d t : Desk) → Type 0
IsLinked i ns o d t =
    HasEntered i ns d.book.ladder t.book.ladder d.book.ladder.orders_at_price_pool.next_free_index o
    × (t ≡ with_ladder t.book.ladder d)

enter_order :
    (i : ℕ) (ns : List ℕ) (o : MeOrder) (d t : Desk)
    → HasPlace o ns d.book.ladder
    → IsLinked i ns o d t
    → set_client_order o.client_id o.client_order_id (some i) t
      ≡ ok tt (with_client_order o.client_id o.client_order_id (some i) t)
unfolding set_client_order
enter_order i ns o d t p h = rw (ltb-true p.known_client, ltb-true p.known_order) refl

found_order :
    (client order i : ℕ) (t : Desk)
    → (with_client_order client order (some i) t).book.client_id_to_order_id client order ≡ some i
found_order client order i t = rw (eq-true {a = client} refl, eq-true {a = order} refl) refl

pub add_order-HasAdded :
    (i : ℕ) (ns : List ℕ) (o : MeOrder) (d : Desk)
    → (d.book.ladder.orders_pool.store i).object.order ≡ o
    → HasPlace o ns d.book.ladder
    → Returns (λ _. HasAdded i ns o d) (add_order (some i) d)
unfolding add_order read_order
add_order-HasAdded i ns o d e place =
    subst
      (λ x. HasPlace x ns d.book.ladder → Returns (λ _. HasAdded i ns x d) (add_order (some i) d)) e
      go place
  where
    it : MeOrder
    it = (d.book.ladder.orders_pool.store i).object.order

    stored :
        (t : Desk) → IsLinked i ns it d t → (t.book.ladder.orders_pool.store i).object.order ≡ it
    stored t (h, _) = ap (λ p. (p.store i).object.order) h.orders ∙ rw (eq-true {a = i} refl) refl

    finish :
        HasPlace it ns d.book.ladder
        → (t : Desk) → IsLinked i ns it d t
        → Returns
            (λ _. HasAdded i ns it d)
            (let x = (t.book.ladder.orders_pool.store i).object.order in
              set_client_order x.client_id x.client_order_id (some i) t)
    finish p t (h, same) =
        subst
          (λ x.
            Returns (λ _. HasAdded i ns it d)
              (set_client_order x.client_id x.client_order_id (some i) t))
          (sym (stored t (h, same)))
          (subst (Returns (λ _. HasAdded i ns it d)) (sym (enter_order i ns it d t p (h, same))) (
            returns (record {
              entered = h;
              found = found_order it.client_id it.client_order_id i t;
              same_responses = ap (λ x. x.client_responses) same;
              same_updates = ap (λ x. x.market_updates) same;
            })))

    go : HasPlace it ns d.book.ladder → Returns (λ _. HasAdded i ns it d) (add_order (some i) d)
    go p =
        total_bind {P = λ _. IsLinked i ns it d} _
          (total_lift (λ l. with_ladder l d)
            (link_order-levels i ns d.book.ladder p.spare p.unused p.levels p.fresh p.room)
            (λ _ t h. (h, refl)))
          λ _ t h. finish p t h

module _ (client client_order ticker : ℕ) (side : Side) (price qty : ℕ) where
  -- The response that `Add` sends first.
  abbrev pub accepted : (id : ℕ) → MeClientResponse
  accepted id = record {
    type = ClientResponseType.accepted;
    client_id = client;
    client_order_id = client_order;
    market_order_id = id;
    price = price;
    side = side;
    ticker_id = ticker;
    leaves_quantity = qty;
    executed_quantity = 0;
  }

  -- The order that rests, the only one at its price.
  abbrev pub resting : (id : ℕ) → MeOrder
  resting id = record {
    ticker_id = ticker;
    client_id = client;
    client_order_id = client_order;
    market_order_id = id;
    side = side;
    price = price;
    quantity = qty;
    priority = 1;
  }

  -- The update that `Add` sends last.
  abbrev pub added : (id : ℕ) → MeMarketUpdate
  added id = record {
    type = MarketUpdateType.add;
    order_id = id;
    price = price;
    priority = 1;
    side = side;
    ticker_id = ticker;
    quantity = qty;
  }

  abbrev announced : Desk → Desk
  announced d = record d {
    book = record (d.book) { next_order_id = u64 (d.book.next_order_id + 1) };
    client_responses = push (accepted d.book.next_order_id) d.client_responses;
  }
