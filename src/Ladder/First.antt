-- ===== src/Ladder/First.antt =====
-- The first price of a side: what `AddOrdersAtPrice` does on an empty one.
use low_latency.Prelude.{ℕ, ◌≡◌, refl, sym, ap, ◌<◌, ◌≢◌, true, none, some, ◌==◌, eq-true, put_back}
use mathlib.Core.Path.{subst}
use low_latency.Prelude.Ensures.{Returns, returns, total_after, total_mono, total_true}
use low_latency.Common.MemoryPool.Allocation.{IsReady, IsFree, allocate_lem, filled, with_next}
use low_latency.Common.Types.{Side}
use low_latency.Ladder.{
  OrdersAtPrice, Priced, Ladder, set_object, is_null, read_order, set_order, link_order, read_level,
  set_level, add_orders_at_price, get_orders_at_price, head_of, price_to_index,
}

module _ {O : Type 0} where
  abbrev level_at : ℕ → Ladder O → OrdersAtPrice
  level_at n s = (s.orders_at_price_pool.store n).object

  -- The level `n` is the only one of a side: the head points to it, it is linked to itself, and the
  -- table finds it under its price.
  pub record Only (side : Side) (n : ℕ) (t : Ladder O) : Type 0 where
    pub is_head : head_of side t ≡ some n
    pub is_next : (t.orders_at_price_pool.store n).object.next_entry ≡ some n
    pub is_prev : (t.orders_at_price_pool.store n).object.prev_entry ≡ some n
    pub is_found : get_orders_at_price (t.orders_at_price_pool.store n).object.price t ≡ some n

  -- Adding a price to an empty side, where no price with its index is in the table, makes it the
  -- only one of its side and leaves its price, its first order and all orders as they were.
  add_orders_at_price-Only :
      (n : ℕ) (s : Ladder O)
      → get_orders_at_price (s.orders_at_price_pool.store n).object.price s ≡ none
      → head_of (s.orders_at_price_pool.store n).object.side s ≡ none
      → Returns
          (λ _ t.
            Only (s.orders_at_price_pool.store n).object.side n t
            × ((t.orders_at_price_pool.store n).object.first_order
                ≡ (s.orders_at_price_pool.store n).object.first_order)
            × ((t.orders_at_price_pool.store n).object.price
                ≡ (s.orders_at_price_pool.store n).object.price)
            × (t.orders_pool ≡ s.orders_pool))
          (add_orders_at_price (some n) s)
  unfolding add_orders_at_price read_level set_level
  add_orders_at_price-Only n s free empty = go (level_at n s).side refl
    where
      self : (n == n) ≡ true
      self = eq-true {a = n} refl

      idx : ℕ
      idx = price_to_index (level_at n s).price

      same : (idx == idx) ≡ true
      same = eq-true {a = idx} refl

      go :
          (side : Side)
          → (level_at n s).side ≡ side
          → Returns
              (λ _ t.
                Only (level_at n s).side n t
                × ((level_at n t).first_order ≡ (level_at n s).first_order)
                × ((level_at n t).price ≡ (level_at n s).price)
                × (t.orders_pool ≡ s.orders_pool))
              (add_orders_at_price (some n) s)
      go Side.buy e =
          let none_yet : s.bids_by_price ≡ none = subst (λ x. head_of x s ≡ none) e empty in
          rw (e, free, none_yet, e)
            (returns (
              record {
                is_head = refl;
                is_next = rw self refl;
                is_prev = rw self refl;
                is_found = rw (self, same) refl;
              },
              rw (self, level_at) refl,
              rw (self, level_at) refl,
              refl,
            ))
      go Side.sell e =
          let none_yet : s.asks_by_price ≡ none = subst (λ x. head_of x s ≡ none) e empty in
          rw (e, free, none_yet, e)
            (returns (
              record {
                is_head = refl;
                is_next = rw self refl;
                is_prev = rw self refl;
                is_found = rw (self, same) refl;
              },
              rw (self, level_at) refl,
              rw (self, level_at) refl,
              refl,
            ))
      go Side.invalid e =
          let none_yet : s.asks_by_price ≡ none = subst (λ x. head_of x s ≡ none) e empty in
          rw (e, free, none_yet, e)
            (returns (
              record {
                is_head = refl;
                is_next = rw self refl;
                is_prev = rw self refl;
                is_found = rw (self, same) refl;
              },
              rw (self, level_at) refl,
              rw (self, level_at) refl,
              refl,
            ))
      go Side.max e =
          let none_yet : s.asks_by_price ≡ none = subst (λ x. head_of x s ≡ none) e empty in
          rw (e, free, none_yet, e)
            (returns (
              record {
                is_head = refl;
                is_next = rw self refl;
                is_prev = rw self refl;
                is_found = rw (self, same) refl;
              },
              rw (self, level_at) refl,
              rw (self, level_at) refl,
              refl,
            ))

module _ {O : Type 0} ⦃priced : Priced O⦄ where
  open priced use {side_of, price_of}

  -- The first order of a side: if its pool of prices is ready and has a second free block `j`, the
  -- side is empty and no price with the index of its price is in the table, `AddOrder` makes a new
  -- price for it, the only one of its side, with this order as its first.
  pub link_order-Only :
      (i j : ℕ) (s : Ladder O)
      → IsReady s.orders_at_price_pool
      → j < s.orders_at_price_pool.size
      → j ≢ s.orders_at_price_pool.next_free_index
      → IsFree s.orders_at_price_pool j
      → get_orders_at_price (price_of (s.orders_pool.store i).object.order) s ≡ none
      → head_of (side_of (s.orders_pool.store i).object.order) s ≡ none
      → Returns
          (λ _ t.
            let n = s.orders_at_price_pool.next_free_index in
            Only (side_of (s.orders_pool.store i).object.order) n t
            × ((t.orders_at_price_pool.store n).object.first_order ≡ some i)
            × ((t.orders_at_price_pool.store n).object.price
                ≡ price_of (s.orders_pool.store i).object.order))
          (link_order (some i) s)
  unfolding link_order read_order set_order
  link_order-Only i j s ready hj ne free unused empty =
      let (k, allocates, _, _) = allocate_lem new s.orders_at_price_pool j ready hj ne free in
      total_true _ _ (ap is_null unused) (
        total_after _ (ap (put_back (λ p. record linked { orders_at_price_pool = p })) allocates) (
          total_mono
            (add_orders_at_price-Only n (entered k)
              (subst (λ l. get_orders_at_price l.price (entered k) ≡ none) (sym (built k)) unused)
              (subst (λ l. head_of l.side (entered k) ≡ none) (sym (built k)) empty))
            λ _ t (only, first, price, orders).
              subst
                (λ l.
                  Only l.side n t
                  × ((t.orders_at_price_pool.store n).object.first_order ≡ l.first_order)
                  × ((t.orders_at_price_pool.store n).object.price ≡ l.price))
                (built k) (only, first, price)))
    where
      o : O
      o = (s.orders_pool.store i).object.order

      n : ℕ
      n = s.orders_at_price_pool.next_free_index

      new : OrdersAtPrice
      new = record {
        side = side_of o;
        price = price_of o;
        first_order = some i;
        next_entry = none;
        prev_entry = none;
      }

      linked : Ladder O
      linked = record s {
        orders_pool =
            set_object (λ x. record x { next_order = none; prev_order = none }) i s.orders_pool;
      }

      entered : ℕ → Ladder O
      entered k = record linked {
        orders_at_price_pool = with_next k (filled new s.orders_at_price_pool);
      }

      built : (k : ℕ) → ((entered k).orders_at_price_pool.store n).object ≡ new
      built k = rw (eq-true {a = n} refl) refl
