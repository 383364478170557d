-- ===== src/Ladder/Entering.antt =====
-- `AddOrder` (exchange/matcher/MEOrderBook.cpp and trading/strategy/MarketOrderBook.cpp) for the
-- first order at a price: the levels of its side, with the new one among them.
use mathlib.Core.Path.{subst}
use low_latency.Prelude.{
  ◌∉◌, ne_of_mem, ℕ, ◌≡◌, ◌≢◌, ◌≤◌, refl, ap, some, none, List, arith, length, put_back, eq-true,
  eq-false, update, sym, ◌∙◌,
}
use low_latency.Prelude.Ensures.{Returns, total_after, total_mono, total_true}
use low_latency.Common.Types.{Side, is_buy}
use low_latency.Common.MemoryPool.Allocation.{HasSpare, allocate_lem, filled, with_next}
use low_latency.Ladder.{
  OrdersAtPrice, Priced, Ladder, set_object, is_null, read_order, set_order, link_order,
  get_orders_at_price, price_to_index, head_of, add_orders_at_price, with_orders_at_price,
  should_insert,
}
use low_latency.Ladder.Distinct.{insert_level, insert_level-same}
use low_latency.Ladder.Levels.{level_at, HasLevels, HasLevels-same, SameLevels}
use low_latency.Ladder.Insertion.{goes_before}
use low_latency.Ladder.Prices.{add_orders_at_price-levels}

module _ {O : Type 0} where
  -- A block of the pool has become the level `new`; nothing else of the levels has changed.
  record IsBuilt (n : ℕ) (new : OrdersAtPrice) (s e : Ladder O) : Type 0 where
    built : level_at e n ≡ new
    others : (m : ℕ) → m ≢ n → level_at e m ≡ level_at s m
    bids : e.bids_by_price ≡ s.bids_by_price
    asks : e.asks_by_price ≡ s.asks_by_price
    table : e.orders_at_price ≡ s.orders_at_price
    size : e.orders_at_price_pool.size ≡ s.orders_at_price_pool.size

  built-HasLevels :
      (n : ℕ) (new : OrdersAtPrice) (s e : Ladder O) (side : Side) (ns : List ℕ)
      → IsBuilt n new s e
      → n ∉ ns
      → HasLevels side ns s
      → HasLevels side ns e
  built-HasLevels n new s e side ns b fresh =
      HasLevels-same side ns s e (ground (arith, b.bids, b.asks))
        (λ i h. ap (λ l. l.next_entry) (b.others i (ne_of_mem ns h fresh)))
        λ i h. ap (λ l. l.prev_entry) (b.others i (ne_of_mem ns h fresh))

  add_orders_at_price-built :
      (n : ℕ) (new : OrdersAtPrice) (ns : List ℕ) (s e : Ladder O)
      → IsBuilt n new s e
      → get_orders_at_price new.price s ≡ none
      → HasLevels new.side ns s
      → n ∉ ns
      → length ns ≤ s.orders_at_price_pool.size
      → Returns
          (λ _ t.
            HasLevels new.side (insert_level (goes_before new.side new.price s) n ns) t
            × SameLevels (with_orders_at_price new.price (some n) e) t
            × ((other : Side) → is_buy other ≢ is_buy new.side → head_of other t ≡ head_of other s))
          (add_orders_at_price (some n) e)
  add_orders_at_price-built n new ns s e b unused levels fresh room =
      total_mono
        (add_orders_at_price-levels ns n e
          (subst (λ l. get_orders_at_price l.price e ≡ none) (sym b.built)
            (ap (λ f. f (price_to_index new.price)) b.table ∙ unused))
          (subst (λ l. HasLevels l.side ns e) (sym b.built)
            (built-HasLevels n new s e new.side ns b fresh levels))
          fresh (subst (λ k. length ns ≤ k) (sym b.size) room))
        λ _ t (has, same, outside). (
          subst (λ l. HasLevels new.side l t)
              (insert_level-same (goes_before new.side new.price e)
                (goes_before new.side new.price s) n ns
                (λ i h.
                  ap (λ l. should_insert new.side new.price l.price)
                    (b.others i (ne_of_mem ns h fresh))))
              (subst (λ l. HasLevels l.side (insert_level (goes_before l.side l.price e) n ns) t)
                b.built has),
          subst (λ l. SameLevels (with_orders_at_price l.price (some n) e) t) b.built same,
          λ other ne.
              outside.same_head other (subst (λ l. is_buy other ≢ is_buy l.side) (sym b.built) ne)
              ∙ ground (arith, b.bids, b.asks),
        )

module _ {O : Type 0} ⦃priced : Priced O⦄ where
  open priced use {side_of, price_of}

  -- The order `i` is the first of a new level `n`, which has joined the levels `ns` of its side.
  pub record HasEntered (i : ℕ) (ns : List ℕ) (s t : Ladder O) (n : ℕ) (o : O) : Type 0 where
    pub levels :
        HasLevels (side_of o) (insert_level (goes_before (side_of o) (price_of o) s) n ns) t
    pub first : (level_at t n).first_order ≡ some i
    pub price : (level_at t n).price ≡ price_of o
    pub others :
        (m : ℕ)
        → m ≢ n
        → ((level_at t m).price ≡ (level_at s m).price)
          × ((level_at t m).first_order ≡ (level_at s m).first_order)
    pub table : t.orders_at_price ≡ update s.orders_at_price (price_to_index (price_of o)) (some n)
    pub same_size : t.orders_at_price_pool.size ≡ s.orders_at_price_pool.size
    pub other_head :
        (other : Side) → is_buy other ≢ is_buy (side_of o) → head_of other t ≡ head_of other s
    pub orders :
        t.orders_pool
        ≡ set_object (λ x. record x { next_order = none; prev_order = none }) i s.orders_pool

  -- The first order at a price: if the next block of the pool of prices is free and another one
  -- too, the price is not in the table, the side of the order has the levels `ns`, at most as many
  -- as the pool has blocks, and the next block is none of them, then `AddOrder` returns, and the
  -- levels of the side are `ns` with the new one before the first that `shouldInsert` wants behind
  -- it. The new level has the price and the order; the others keep their prices and first orders,
  -- the other side its head, the table has one entry more, and of the orders only the links of
  -- this one change.
  pub link_order-levels :
      (i : ℕ) (ns : List ℕ) (s : Ladder O)
      → HasSpare s.orders_at_price_pool
      → get_orders_at_price (price_of (s.orders_pool.store i).object.order) s ≡ none
      → HasLevels (side_of (s.orders_pool.store i).object.order) ns s
      → s.orders_at_price_pool.next_free_index ∉ ns
      → length ns ≤ s.orders_at_price_pool.size
      → Returns
          (λ _ t.
            HasEntered i ns s t s.orders_at_price_pool.next_free_index
              (s.orders_pool.store i).object.order)
          (link_order (some i) s)
  unfolding link_order read_order set_order
  link_order-levels i ns s spare unused levels fresh room =
      let (k, allocates, _, _) =
        allocate_lem new s.orders_at_price_pool spare.spare spare.is_ready spare.in_range
          spare.is_other spare.is_free in
      total_true _ _ (ap is_null unused) (
        total_after _ (ap (put_back (λ p. record linked { orders_at_price_pool = p })) allocates) (
          total_mono
            (add_orders_at_price-built n new ns s (entered k) (is_built k) unused levels fresh room)
            λ _ t (has, same, heads). record {
              levels = has;
              first = same.same_first n ∙ ap (λ l. l.first_order) (built k);
              price = same.same_price n ∙ ap (λ l. l.price) (built k);
              others = λ m h. (
                same.same_price m ∙ ap (λ l. l.price) ((is_built k).others m h),
                same.same_first m ∙ ap (λ l. l.first_order) ((is_built k).others m h),
              );
              table = same.same_table;
              same_size = same.same_size;
              other_head = heads;
              orders = same.same_orders;
            }))
    where
      o : O
      o = (s.orders_pool.store i).object.order

      n : ℕ
      n = s.orders_at_price_pool.next_free_index

      new : OrdersAtPrice
      new = record {
        side = side_of o;
        price = price_of o;
        first_order = some i;
        next_entry = none;
        prev_entry = none;
      }

      linked : Ladder O
      linked = record s {
        orders_pool =
            set_object (λ x. record x { next_order = none; prev_order = none }) i s.orders_pool;
      }

      entered : ℕ → Ladder O
      entered k = record linked {
        orders_at_price_pool = with_next k (filled new s.orders_at_price_pool);
      }

      built : (k : ℕ) → ((entered k).orders_at_price_pool.store n).object ≡ new
      built k = rw (eq-true {a = n} refl) refl

      is_built : (k : ℕ) → IsBuilt n new s (entered k)
      is_built k = record {
        built = built k;
        others = λ m h. rw (eq-false h, level_at) refl;
        bids = refl;
        asks = refl;
        table = refl;
        size = refl;
      }
