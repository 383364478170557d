-- ===== src/Tests/Books.antt =====
-- The theorems on orders that come into a book and go out of it, at small books.
use low_latency.Prelude.{
  ◌≡◌, refl, inl, none, some, true, false, [], ◌∷◌, ◌==◌, if◌then◌else◌, map, arith, fault,
  null_pointer, ◌>>◌,
}
use low_latency.Prelude.Ensures.{Returns}
use low_latency.Common.Types.{Side}
use low_latency.Common.MemoryPool.Allocation.{HasSpare}
use low_latency.Common.SafeQueue.{push}
use low_latency.Ladder.{Ladder, link_order}
use low_latency.Ladder.Distinct.{insert_level}
use low_latency.Ladder.Insertion.{goes_before}
use low_latency.Ladder.Levels.{HasLevels}
use low_latency.Ladder.Entering.{HasEntered, link_order-levels}
use low_latency.Ladder.Ordered.{AreOrdered, price_at, link_order-AreOrdered}
use low_latency.Exchange.MeOrderBook.{MeOrder, MeOrder-Priced, Desk}
use low_latency.Exchange.MeOrderBook.Add.{add}
use low_latency.Exchange.MeOrderBook.Cancel.{cancel}
use low_latency.Exchange.MeOrderBook.Resting.{accepted, resting, added}
use low_latency.Exchange.MeOrderBook.Adding.{HasRested}
use low_latency.Exchange.MeOrderBook.Accepted.{add-accepted, add-no_bids}
use low_latency.Exchange.MeOrderBook.Canceled.{IsGone, canceled, withdrawn, cancel-IsGone}
use low_latency.Exchange.MeOrderBook.Roundtrip.{add-cancel}
use low_latency.Exchange.MeOrderBook.TwoPrices.{add-cancel-two_prices}
use low_latency.Tests.Data.{bid, one_bid}

-- A second bid, with a better price, and the book of `one_bid` with it in the block 1.
abbrev better : MeOrder
better = record bid { client_order_id = 5; market_order_id = 1; price = 105 }

abbrev waiting : Ladder MeOrder
waiting = record (one_bid.book.ladder) {
  orders_pool = record {
    store = λ i. record {
      object = record {
        order = if i == 1 then better else bid;
        next_order = none;
        prev_order = none;
      };
      is_free = if i == 0 then false else if i == 1 then false else true;
    };
    size = 1024;
    next_free_index = 2;
  };
}

levels-HasSpare : HasSpare (one_bid.book.ladder.orders_at_price_pool)
levels-HasSpare = record {
  is_ready = record { in_range = omega arith; free = refl };
  spare = 2;
  in_range = omega arith;
  is_other = omega arith;
  is_free = refl;
}

orders-HasSpare : HasSpare (one_bid.book.ladder.orders_pool)
orders-HasSpare = record {
  is_ready = record { in_range = omega arith; free = refl };
  spare = 2;
  in_range = omega arith;
  is_other = omega arith;
  is_free = refl;
}

link_order-levels_example :
    Returns (λ _ t. HasEntered 1 (0 ∷ []) waiting t 1 better) (link_order (some 1) waiting)
link_order-levels_example =
    link_order-levels 1 (0 ∷ []) waiting levels-HasSpare refl (refl, (refl, tt), (refl, refl)) refl
      (omega arith)

link_order-AreOrdered_example :
    Returns
      (λ _ t.
        HasLevels Side.buy (insert_level (goes_before Side.buy 105 waiting) 1 (0 ∷ [])) t
        × AreOrdered Side.buy
            (map (price_at t) (insert_level (goes_before Side.buy 105 waiting) 1 (0 ∷ []))))
      (link_order (some 1) waiting)
link_order-AreOrdered_example =
    link_order-AreOrdered 1 (0 ∷ []) waiting levels-HasSpare refl (refl, (refl, tt), (refl, refl))
      refl (omega arith) tt

-- The pools of `one_bid`, with both sides empty.
abbrev no_orders : Desk
no_orders = record one_bid {
  book = record (one_bid.book) {
    client_id_to_order_id = λ _ _. none;
    ladder = record (one_bid.book.ladder) { bids_by_price = none; orders_at_price = λ _. none };
  };
}

add-accepted_example :
    Returns
      (λ _. HasRested 2 6 0 Side.buy 105 5 (0 ∷ []) one_bid)
      (add 12 2 6 0 Side.buy 105 5 one_bid)
add-accepted_example =
    add-accepted 2 6 0 Side.buy 105 5 10 0 (0 ∷ []) one_bid (omega arith) (λ i. (refl, refl))
      (inl refl) orders-HasSpare
      (record {
        spare = levels-HasSpare;
        unused = refl;
        levels = (refl, (refl, tt), (refl, refl));
        fresh = refl;
        room = omega arith;
        known_client = omega arith;
        known_order = omega arith;
      })
      λ m h. (0, refl)

add-no_bids_example : add 12 2 6 0 Side.sell 105 5 no_orders ≡ fault null_pointer
add-no_bids_example =
    add-no_bids 11 2 6 0 105 5 0 [] no_orders (omega arith) refl orders-HasSpare (record {
      spare = levels-HasSpare;
      unused = refl;
      levels = refl;
      fresh = refl;
      room = omega arith;
      known_client = omega arith;
      known_order = omega arith;
    })

cancel-IsGone_example :
    Returns
      (λ _ t.
        IsGone 0 0 bid t.book
        × (t.client_responses ≡ push (canceled 0 bid) one_bid.client_responses)
        × (t.market_updates ≡ push (withdrawn 0 bid) one_bid.market_updates))
      (cancel 1 4 0 one_bid)
cancel-IsGone_example =
    cancel-IsGone 0 0 0 bid one_bid
      (record {
        stored = refl;
        at_price = refl;
        only = refl;
        level_in_range = omega arith;
        order_in_range = omega arith;
        known_client = omega arith;
        known_order = omega arith;
      })
      refl

abbrev fifth : MeOrder
fifth = resting 2 6 0 Side.buy 105 5 1

add-cancel_example :
    Returns
      (λ _ t.
        IsGone 1 1 fifth t.book
        × (t.client_responses
            ≡ push
                (canceled 0 fifth)
                (push (accepted 2 6 0 Side.buy 105 5 1) no_orders.client_responses))
        × (t.market_updates
            ≡ push
                (withdrawn 0 fifth)
                (push (added 2 6 0 Side.buy 105 5 1) no_orders.market_updates)))
      ((add 12 2 6 0 Side.buy 105 5 >> cancel 2 6 0) no_orders)
add-cancel_example =
    add-cancel 2 6 0 Side.buy 105 5 10 0 no_orders (omega arith) (λ i. (refl, refl)) (inl refl)
      orders-HasSpare
      (record {
        spare = levels-HasSpare;
        unused = refl;
        levels = refl;
        fresh = refl;
        room = omega arith;
        known_client = omega arith;
        known_order = omega arith;
      })
      λ m h. absurd (ground (arith, h))

add-cancel-two_prices_example :
    (add 12 2 6 0 Side.buy 105 5 >> cancel 2 6 0) one_bid ≡ fault null_pointer
add-cancel-two_prices_example =
    add-cancel-two_prices 2 6 0 Side.buy 105 5 10 0 0 [] one_bid (omega arith) (λ i. (refl, refl))
      (inl refl) orders-HasSpare
      (record {
        spare = levels-HasSpare;
        unused = refl;
        levels = (refl, (refl, tt), (refl, refl));
        fresh = refl;
        room = omega arith;
        known_client = omega arith;
        known_order = omega arith;
      })
      λ m h. (0, refl)
