-- ===== src/Exchange/MeOrderBook/TwoPrices.antt =====
-- `Cancel` of exchange/matcher/MEOrderBook.cpp where a side has more than one price: `RemoveOrder`
-- takes the branch for more than one order at a price.
use mathlib.Core.Path.{subst}
use low_latency.Prelude.{
  suc, List, ◌∷◌, ◌>>◌, Cmd, ℕ, ◌≡◌, ◌≢◌, ◌<◌, sym, ap, ◌∙◌, some, true, false, arith, ok, fault,
  null_pointer, put_back, and_then-ok, and_then-fault, ◌>>=◌,
}
use low_latency.Common.Limits.{me_max_num_clients, me_max_order_ids}
use low_latency.Ladder.{
  Ladder, Linked, unlink_order, unlink_neighbours, remove_orders_at_price, read_order, read_level,
  same_ptr, get_orders_at_price,
}
use low_latency.Prelude.Ensures.{total_run, ends}
use low_latency.Common.Types.{Side}
use low_latency.Common.MemoryPool.Allocation.{HasSpare}
use low_latency.Ladder.Insertion.{goes_before}
use low_latency.Ladder.Neighbours.{insert_level-LeadsOn}
use low_latency.Exchange.MeOrderBook.Add.{add}
use low_latency.Exchange.MeOrderBook.Matching.{Rests}
use low_latency.Exchange.MeOrderBook.NoQueue.{DeskUnlinked}
use low_latency.Exchange.MeOrderBook.Operations.{add-DeskUnlinked}
use low_latency.Exchange.MeOrderBook.Resting.{HasPlace, resting}
use low_latency.Exchange.MeOrderBook.Adding.{CanPrint}
use low_latency.Exchange.MeOrderBook.Accepted.{add-accepted}
use low_latency.Ladder.Levels.{next_of}
use low_latency.Ladder.Unlinked.{IsUnlinked, unlink_neighbours_faults}
use low_latency.Exchange.MeOrderBook.{MeOrder, MeOrder-Priced, Desk, with_ladder, remove_order}
use low_latency.Exchange.MeOrderBook.Cancel.{cancel}
use low_latency.Exchange.MeOrderBook.Canceled.{found_client_order}

-- The order `o` in the block `i` has no neighbour at its price, whose level `n` is followed by
-- another one, `m`.
pub record IsAmong (i n m : ℕ) (o : MeOrder) (d : Desk) : Type 0 where
  pub stored : (d.book.ladder.orders_pool.store i).object.order ≡ o
  pub no_neighbour : IsUnlinked (d.book.ladder.orders_pool.store i).object
  pub at_price : get_orders_at_price o.price d.book.ladder ≡ some n
  pub follows : next_of d.book.ladder n ≡ some m
  pub is_other : m ≢ n
  pub known_client : o.client_id < me_max_num_clients
  pub known_order : o.client_order_id < me_max_order_ids

unlink_order-among :
    (i n m : ℕ) (o : MeOrder) (d : Desk)
    → IsAmong i n m o d
    → unlink_order (some i) d.book.ladder ≡ fault null_pointer
unfolding unlink_order read_order read_level
unlink_order-among i n m o d h =
    subst
      (λ p.
        (read_level p >>= λ l. elim (same_ptr l.next_entry p) [
          | true ↦ remove_orders_at_price x.order.side x.order.price
          | false ↦ unlink_neighbours (some i) p x l
        ])
          s
        ≡ fault null_pointer)
      (sym (ap (λ y. get_orders_at_price y.price s) h.stored ∙ h.at_price))
      (ap
          (λ b.
            (elim b as (λ _. Cmd (Ladder MeOrder) (Unit {0})) [
              | true ↦ remove_orders_at_price x.order.side x.order.price
              | false ↦
                  unlink_neighbours (some i) (some n) x (s.orders_at_price_pool.store n).object
            ])
              s)
          differs
        ∙ unlink_neighbours_faults (some i) (some n) x (s.orders_at_price_pool.store n).object s
            h.no_neighbour)
  where
    s : Ladder MeOrder
    s = d.book.ladder

    x : Linked MeOrder
    x = (s.orders_pool.store i).object

    differs : same_ptr (next_of s n) (some n) ≡ false
    differs = rw h.follows (ground (arith, h.is_other))

-- Cancelling an order that its client knows, with ids in range and no neighbour at its price,
-- stops the program on a null pointer if the level of its price is followed by another one.
cancel-two_prices :
    (i n m ticker : ℕ) (o : MeOrder) (d : Desk)
    → IsAmong i n m o d
    → d.book.client_id_to_order_id o.client_id o.client_order_id ≡ some i
    → cancel o.client_id o.client_order_id ticker d ≡ fault null_pointer
unfolding cancel remove_order
cancel-two_prices i n m ticker o d h known =
    and_then-ok _ (found_client_order o d h.known_client h.known_order ∙ ap (λ p. ok p d) known) (
      and_then-fault _
        (and_then-fault _ (ap (put_back (λ l. with_ladder l d)) (unlink_order-among i n m o d h))))

-- Let no order of the book have a neighbour, and let a new order have a quantity, not cross the
-- other side, have a price that is not in the table and ids in range, on a side that has the levels
-- `m` and `ms`; let the next block of both pools be free and another one too, that for the level be
-- none of these levels, and these no more than the pool has blocks; and let the bid to log have a
-- first order: for a buy every level of the side, else the first bid, which is there and not in the
-- next block. Then `Add` followed by `Cancel` of the order stops the program on a null pointer: the
-- order cannot be cancelled.
pub add-cancel-two_prices :
    (client client_order ticker : ℕ) (side : Side) (price qty fuel at m : ℕ) (ms : List ℕ)
    (d : Desk)
    → qty ≢ 0
    → DeskUnlinked d
    → Rests side price at d.book.ladder
    → HasSpare d.book.ladder.orders_pool
    → HasPlace
        (resting client client_order ticker side price qty d.book.next_order_id)
        (m ∷ ms)
        d.book.ladder
    → CanPrint side (m ∷ ms) d.book.ladder
    → (add (suc (suc fuel)) client client_order ticker side price qty
          >> cancel client client_order ticker)
        d
      ≡ fault null_pointer
add-cancel-two_prices client client_order ticker side price qty fuel at m ms d ne u rests spare p
      prints =
    let i = d.book.ladder.orders_pool.next_free_index in
    let n = d.book.ladder.orders_at_price_pool.next_free_index in
    let (_, t, runs, h) = total_run (
      add-accepted client client_order ticker side price qty fuel at (m ∷ ms) d ne u rests spare p
        prints) in
    let unlinked : DeskUnlinked t =
      ends (add-DeskUnlinked (suc (suc fuel)) client client_order ticker side price qty d u) runs in
    let (z, follows, other) =
      insert_level-LeadsOn side (goes_before side price d.book.ladder) n m ms t.book.ladder
        h.levels in
    and_then-ok _ runs (
      cancel-two_prices i n z ticker
        (resting client client_order ticker side price qty d.book.next_order_id) t
        (record {
          stored = h.order;
          no_neighbour = unlinked i;
          at_price = h.at_price;
          follows = follows;
          is_other = other;
          known_client = p.known_client;
          known_order = p.known_order;
        })
        h.found)
