-- ===== src/Exchange/MeOrderBook/Roundtrip.antt =====
-- `Add` and then `Cancel` of exchange/matcher/MEOrderBook.cpp: the order comes into the book and goes
-- out of it.
use low_latency.Prelude.{ℕ, suc, ◌≡◌, ◌≢◌, [], ◌∷◌, ◌>>◌, ◌∙◌, ap, sym, ◌<◌}
use mathlib.Core.Path.{subst}
use low_latency.Prelude.Ensures.{Returns, total_bind, total_mono}
use low_latency.Common.MemoryPool.Allocation.{HasSpare}
use low_latency.Common.Types.{Side}
use low_latency.Common.SafeQueue.{push}
use low_latency.Ladder.Distinct.{insert_level-nil}
use low_latency.Ladder.Insertion.{goes_before}
use low_latency.Ladder.Levels.{HasLevels}
use low_latency.Exchange.MeOrderBook.{MeOrder-Priced, Desk}
use low_latency.Exchange.MeOrderBook.Add.{add}
use low_latency.Exchange.MeOrderBook.Cancel.{cancel}
use low_latency.Exchange.MeOrderBook.Matching.{Rests}
use low_latency.Exchange.MeOrderBook.NoQueue.{DeskUnlinked}
use low_latency.Exchange.MeOrderBook.Resting.{HasPlace, accepted, resting, added}
use low_latency.Exchange.MeOrderBook.Adding.{CanPrint, HasRested}
use low_latency.Exchange.MeOrderBook.Accepted.{add-accepted}
use low_latency.Exchange.MeOrderBook.Canceled.{IsAlone, IsGone, canceled, withdrawn, cancel-IsGone}

module _ (client client_order ticker : ℕ) (side : Side) (price qty : ℕ) where
  rested-IsAlone :
      (d t : Desk)
      → HasSpare d.book.ladder.orders_pool
      → HasPlace
          (resting client client_order ticker side price qty d.book.next_order_id)
          []
          d.book.ladder
      → HasRested client client_order ticker side price qty [] d t
      → IsAlone d.book.ladder.orders_pool.next_free_index
          d.book.ladder.orders_at_price_pool.next_free_index
          (resting client client_order ticker side price qty d.book.next_order_id)
          t
  rested-IsAlone d t spare p h =
      let n = d.book.ladder.orders_at_price_pool.next_free_index in
      let alone : HasLevels side (n ∷ []) t.book.ladder =
        subst (λ l. HasLevels side l t.book.ladder)
          (insert_level-nil (goes_before side price d.book.ladder) n) h.levels in
      record {
        stored = h.order;
        at_price = h.at_price;
        only = alone.2.0;
        level_in_range = subst (λ k. n < k) (sym h.same_sizes.1) p.spare.is_ready.in_range;
        order_in_range =
            subst (λ k. d.book.ladder.orders_pool.next_free_index < k) (sym h.same_sizes.0)
              spare.is_ready.in_range;
        known_client = p.known_client;
        known_order = p.known_order;
      }

  -- An order that comes and is cancelled at once goes out again. Let no order of the book have a
  -- neighbour, and let the new order have a quantity, not cross the other side, have a price that
  -- is not in the table on a side with no prices, and have ids in range; let the next block of
  -- both pools be free and another one too; and, if it is no buy, let there be a first bid, not in
  -- the next block, with a first order to log. Then `Add` followed by `Cancel` returns: the side
  -- has no price, the price is not in the table, its level and its block are free, its id is
  -- unknown, and exactly four messages have been sent: accepted and canceled to the client, added
  -- and cancelled to the market.
  pub add-cancel :
      (fuel at : ℕ) (d : Desk)
      → qty ≢ 0
      → DeskUnlinked d
      → Rests side price at d.book.ladder
      → HasSpare d.book.ladder.orders_pool
      → HasPlace
          (resting client client_order ticker side price qty d.book.next_order_id)
          []
          d.book.ladder
      → CanPrint side [] d.book.ladder
      → Returns
          (λ _ t.
            let o = resting client client_order ticker side price qty d.book.next_order_id in
            IsGone d.book.ladder.orders_pool.next_free_index
              d.book.ladder.orders_at_price_pool.next_free_index o t.book
            × (t.client_responses
                ≡ push (canceled ticker o) (
                    push
                      (accepted client client_order ticker side price qty d.book.next_order_id)
                      d.client_responses))
            × (t.market_updates
                ≡ push (withdrawn ticker o) (
                    push
                      (added client client_order ticker side price qty d.book.next_order_id)
                      d.market_updates)))
          ((add (suc (suc fuel)) client client_order ticker side price qty
              >> cancel client client_order ticker)
            d)
  add-cancel fuel at d ne u rests spare p prints =
      let o = resting client client_order ticker side price qty d.book.next_order_id in
      total_bind _
        (add-accepted client client_order ticker side price qty fuel at [] d ne u rests spare p
          prints)
        λ _ t h.
          total_mono
            (cancel-IsGone d.book.ladder.orders_pool.next_free_index
              d.book.ladder.orders_at_price_pool.next_free_index ticker o t
              (rested-IsAlone d t spare p h) h.found)
            λ _ v (gone, responses, updates). (
              gone,
              responses ∙ ap (push (canceled ticker o)) h.responses,
              updates ∙ ap (push (withdrawn ticker o)) h.updates,
            )
