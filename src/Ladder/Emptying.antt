-- ===== src/Ladder/Emptying.antt =====
-- `RemoveOrder` (exchange/matcher/MEOrderBook.cpp and trading/strategy/MarketOrderBook.cpp) for an
-- order of the only price of its side.
use low_latency.Prelude.{
  ℕ, ◌≡◌, ◌≢◌, ◌<◌, refl, sym, ap, none, some, true, ltb-true, eq-true, arith, update, modify, ltb,
  test-true, false, ◌>>=◌, ◌>>◌,
}
use mathlib.Core.Path.{subst}
use low_latency.Prelude.Ensures.{Returns, returns, total_after, total_true}
use low_latency.Common.MemoryPool.{deallocate}
use low_latency.Common.MemoryPool.Allocation.{IsFree}
use low_latency.Common.Types.{Side, is_buy}
use low_latency.Ladder.{
  Priced, Ladder, head_of, with_head, with_orders_at_price, get_orders_at_price, price_to_index,
  read_level, read_order, same_ptr, on_levels, unlink_level, unlink_neighbours,
  remove_orders_at_price, unlink_order,
}
use low_latency.Ladder.Levels.{next_of}

module _ {O : Type 0} where
  -- The side has no price any more and the level `n` of `price` is free; the orders are as they were.
  pub record IsEmptied (side : Side) (price n : ℕ) (s t : Ladder O) : Type 0 where
    pub head : head_of side t ≡ none
    pub other_head : (other : Side) → is_buy other ≢ is_buy side → head_of other t ≡ head_of other s
    pub table : t.orders_at_price ≡ update s.orders_at_price (price_to_index price) none
    pub freed : IsFree t.orders_at_price_pool n
    pub orders : t.orders_pool ≡ s.orders_pool

  -- The last two lines of `RemoveOrdersAtPrice`, after a change `u` of the head alone.
  free_level :
      (side : Side) (price n : ℕ) (s u : Ladder O)
      → n < s.orders_at_price_pool.size
      → u.orders_at_price_pool ≡ s.orders_at_price_pool
      → u.orders_at_price ≡ s.orders_at_price
      → u.orders_pool ≡ s.orders_pool
      → head_of side u ≡ none
      → ((other : Side) → is_buy other ≢ is_buy side → head_of other u ≡ head_of other s)
      → Returns
          (λ _. IsEmptied side price n s)
          ((modify (with_orders_at_price price none) >> on_levels (deallocate (some n))) u)
  unfolding deallocate
  free_level side price n s u h pool table orders head other =
      let in_range : ltb n u.orders_at_price_pool.size ≡ true =
        ltb-true (subst (λ p. n < p.size) (sym pool) h) in
      rw in_range (
        returns (record {
          head = head;
          other_head = other;
          table = ap (λ f. update f (price_to_index price) none) table;
          freed = rw (eq-true {a = n} refl) refl;
          orders = orders;
        }))

  -- `RemoveOrdersAtPrice` for the only price of a side.
  remove_orders_at_price-only :
      (side : Side) (price n : ℕ) (s : Ladder O)
      → get_orders_at_price price s ≡ some n
      → next_of s n ≡ some n
      → n < s.orders_at_price_pool.size
      → Returns (λ _. IsEmptied side price n s) (remove_orders_at_price side price s)
  unfolding remove_orders_at_price read_level
  remove_orders_at_price-only side price n s found alone h =
      subst
        (λ p.
          Returns (λ _. IsEmptied side price n s)
            ((read_level p >>= λ l.
                (elim (same_ptr l.next_entry p) [
                  | true ↦ modify (with_head side none)
                  | false ↦ unlink_level side p (head_of side s) l
                ])
                >> (modify (with_orders_at_price price none) >> on_levels (deallocate p)))
              s))
        (sym found)
        (total_after _ (test-true _ _ only refl) (
          free_level side price n s (with_head side none s) h (ground arith) (ground arith)
            (ground arith) (ground arith) λ other ne. ground arith))
    where
      only : same_ptr (next_of s n) (some n) ≡ true
      only = rw alone (ground arith)

module _ {O : Type 0} ⦃priced : Priced O⦄ where
  open priced use {side_of, price_of}

  -- `RemoveOrder`, up to its last two lines, for an order `i` of the only price of its side.
  pub unlink_order-only :
      (i n : ℕ) (s : Ladder O)
      → get_orders_at_price (price_of (s.orders_pool.store i).object.order) s ≡ some n
      → next_of s n ≡ some n
      → n < s.orders_at_price_pool.size
      → Returns
          (λ _.
            IsEmptied
              (side_of (s.orders_pool.store i).object.order)
              (price_of (s.orders_pool.store i).object.order)
              n
              s)
          (unlink_order (some i) s)
  unfolding unlink_order read_order read_level
  unlink_order-only i n s found alone h =
      let o = (s.orders_pool.store i).object in
      subst
        (λ p.
          Returns (λ _. IsEmptied (side_of o.order) (price_of o.order) n s)
            ((read_level p >>= λ l. elim (same_ptr l.next_entry p) [
              | true ↦ remove_orders_at_price (side_of o.order) (price_of o.order)
              | false ↦ unlink_neighbours (some i) p o l
            ])
              s))
        (sym found)
        (total_true _ _ only
          (remove_orders_at_price-only (side_of o.order) (price_of o.order) n s found alone h))
    where
      only : same_ptr (next_of s n) (some n) ≡ true
      only = rw alone (ground arith)
