-- ===== src/Ladder.antt =====
-- The intrusive lists that exchange/matcher/MEOrderBook.cpp and trading/strategy/MarketOrderBook.cpp
-- keep, by the same code in both: the orders at one price in a ring, and the prices of one side in
-- a ring whose head is the first of them. Nodes live in two memory pools, and a table finds the
-- node of a price. `O` is what an order holds beside its links. The classes of both sources name
-- their fields differently at one place: `firstOrder` and `firstMarketOrder` are `first_order`.
pub mod Unlinked
pub mod First
pub mod Rings
pub mod Neighbours
pub mod Emptying
pub mod Ordered
pub mod Entering
pub mod Prices
pub mod Heads
pub mod Insertion
pub mod Levels
pub mod Distinct
use low_latency.Prelude.{
  ℕ, zero, suc, ◌%◌, Bool, true, false, not, none, some, ◌==◌, ltb, if◌then◌else◌, update, Ptr, Cmd,
  ok, stop, out_of_fuel, null_pointer, pure, get, modify, check_fatal, when, within, ◌>>=◌, ◌>>◌,
}
use low_latency.Common.Types.{Side, is_buy, is_sell}
use low_latency.Common.Limits.{me_max_price_levels}
use low_latency.Common.MemoryPool.{MemoryPool, allocate, deallocate}

abbrev pub same_ptr : Ptr → Ptr → Bool
same_ptr none none = true
same_ptr none (some _) = false
same_ptr (some _) none = false
same_ptr (some a) (some b) = a == b

abbrev pub is_null : Ptr → Bool
is_null none = true
is_null (some _) = false

-- `MEOrdersAtPrice` and `MarketOrdersAtPrice`.
pub record OrdersAtPrice : Type 0 where
  pub side : Side
  pub price : ℕ
  pub first_order : Ptr
  pub next_entry : Ptr
  pub prev_entry : Ptr

-- An order with its two links.
pub record Linked (O : Type 0) : Type 0 where
  pub order : O
  pub next_order : Ptr
  pub prev_order : Ptr

-- What the lists read of an order.
pub record Priced (O : Type 0) : Type 0 where
  pub side_of : O → Side
  pub price_of : O → ℕ

pub record Ladder (O : Type 0) : Type 0 where
  pub orders_at_price_pool : MemoryPool OrdersAtPrice
  pub bids_by_price : Ptr
  pub asks_by_price : Ptr
  pub orders_at_price : ℕ → Ptr
  pub orders_pool : MemoryPool (Linked O)

abbrev pub price_to_index : ℕ → ℕ
price_to_index price = price % me_max_price_levels

-- An assignment to the object of a block.
abbrev pub set_object : {T : Type 0} → (T → T) → ℕ → MemoryPool T → MemoryPool T
set_object f i p = record p {
  store =
      update p.store i (record { object = f (p.store i).object; is_free = (p.store i).is_free });
}

-- `shouldInsert` for a new level at `price` and the level `at` in the ring.
abbrev pub should_insert : Side → (price at : ℕ) → Bool
should_insert side price at = if is_sell side then ltb at price else ltb price at

module _ {O : Type 0} where
  abbrev pub on_levels : {A : Type 0} → Cmd (MemoryPool OrdersAtPrice) A → Cmd (Ladder O) A
  on_levels = within (λ s. s.orders_at_price_pool) (λ p s. record s { orders_at_price_pool = p })

  abbrev pub on_orders : {A : Type 0} → Cmd (MemoryPool (Linked O)) A → Cmd (Ladder O) A
  on_orders = within (λ s. s.orders_pool) (λ p s. record s { orders_pool = p })

  -- Reads and writes through a pointer; `nullptr` stops the run.
  unfoldable pub read_level : Ptr → Cmd (Ladder O) OrdersAtPrice
  read_level none s = stop null_pointer s
  read_level (some i) s = ok (s.orders_at_price_pool.store i).object s

  unfoldable pub set_level : Ptr → (OrdersAtPrice → OrdersAtPrice) → Cmd (Ladder O) (Unit {0})
  set_level none f s = stop null_pointer s
  set_level (some i) f s =
      ok tt (record s { orders_at_price_pool = set_object f i s.orders_at_price_pool })

  unfoldable pub read_order : Ptr → Cmd (Ladder O) (Linked O)
  read_order none s = stop null_pointer s
  read_order (some i) s = ok (s.orders_pool.store i).object s

  unfoldable pub set_order : Ptr → (Linked O → Linked O) → Cmd (Ladder O) (Unit {0})
  set_order none f s = stop null_pointer s
  set_order (some i) f s = ok tt (record s { orders_pool = set_object f i s.orders_pool })

  -- `side == Side::BUY ? mBidsByPrice : mAsksByPrice`, read and written.
  abbrev pub head_of : Side → Ladder O → Ptr
  head_of side s = if is_buy side then s.bids_by_price else s.asks_by_price

  abbrev pub with_head : Side → Ptr → Ladder O → Ladder O
  with_head side p s =
      if is_buy side then record s { bids_by_price = p } else record s { asks_by_price = p }

  abbrev pub get_orders_at_price : ℕ → Ladder O → Ptr
  get_orders_at_price price s = s.orders_at_price (price_to_index price)

  abbrev pub with_orders_at_price : ℕ → Ptr → Ladder O → Ladder O
  with_orders_at_price price p s = record s {
    orders_at_price = update s.orders_at_price (price_to_index price) p;
  }

  -- The four assignments that put `new` in front of `target`.
  unfoldable pub link_before : (target new : Ptr) → Cmd (Ladder O) (Unit {0})
  unfolding read_level set_level
  link_before target new = do
    t ← read_level target
    set_level new (λ l. record l { prev_entry = t.prev_entry; next_entry = target })
    set_level t.prev_entry (λ l. record l { next_entry = new })
    set_level target (λ l. record l { prev_entry = new })

  -- The `do … while` of `AddOrdersAtPrice`, on fuel; the result is `found`.
  unfoldable pub find_place : ℕ → Side → (price : ℕ) → (new head target : Ptr) → Cmd (Ladder O) Bool
  unfolding read_level link_before
  find_place zero side price new head target = λ _. out_of_fuel
  find_place (suc fuel) side price new head target = do
    t ← read_level target
    elim (should_insert side price t.price) [
      | true ↦ do
        link_before target new
        when (same_ptr target head) (modify (with_head side new))
        pure true
      | false ↦ elim (same_ptr t.next_entry head) [
        | true ↦ pure false
        | false ↦ find_place fuel side price new head t.next_entry
      ]
    ]

  -- `AddOrdersAtPrice`. A ring has at most as many nodes as the pool, so as much fuel is enough.
  unfoldable pub add_orders_at_price : (new : Ptr) → Cmd (Ladder O) (Unit {0})
  unfolding read_level set_level link_before find_place
  add_orders_at_price new = do
    n ← read_level new
    s ← get
    check_fatal (is_null (get_orders_at_price n.price s))
    modify (with_orders_at_price n.price new)
    elim (is_null (head_of n.side s)) [
      | true ↦ do
        modify (with_head n.side new)
        set_level new (λ l. record l { prev_entry = new; next_entry = new })
      | false ↦ do
        let head = head_of n.side s
        found ← find_place s.orders_at_price_pool.size n.side n.price new head head
        when (not found) (link_before head new)
    ]

  -- The `else` of `RemoveOrdersAtPrice`: `this`, with the links of `l`, leaves a ring of several
  -- levels whose head is `head`.
  unfoldable pub unlink_level : Side → (this head : Ptr) → OrdersAtPrice → Cmd (Ladder O) (Unit {0})
  unfolding read_level set_level
  unlink_level side this head l = do
    set_level l.prev_entry (λ b. record b { next_entry = l.next_entry })
    set_level l.next_entry (λ b. record b { prev_entry = l.prev_entry })
    m ← read_level this
    when (same_ptr this head) (modify (with_head side m.next_entry))
    set_level this (λ b. record b { next_entry = none; prev_entry = none })

  -- `RemoveOrdersAtPrice`
  unfoldable pub remove_orders_at_price : Side → (price : ℕ) → Cmd (Ladder O) (Unit {0})
  unfolding read_level unlink_level deallocate
  remove_orders_at_price side price = do
    s ← get
    let this = get_orders_at_price price s
    l ← read_level this
    elim (same_ptr l.next_entry this) [
      | true ↦ modify (with_head side none)
      | false ↦ unlink_level side this (head_of side s) l
    ]
    modify (with_orders_at_price price none)
    on_levels (deallocate this)

  -- The `else` of `AddOrder`: `order` goes to the end of the ring of the level `l`.
  unfoldable pub link_last : (order : Ptr) → OrdersAtPrice → Cmd (Ladder O) (Unit {0})
  unfolding read_order set_order
  link_last order l = do
    first ← read_order l.first_order
    set_order first.prev_order (λ x. record x { next_order = order })
    set_order order (λ x. record x { prev_order = first.prev_order; next_order = l.first_order })
    set_order l.first_order (λ x. record x { prev_order = order })

  -- The `else` of `RemoveOrder`: `order`, with the links of `o`, leaves the ring of `level`.
  unfoldable pub unlink_neighbours :
      (order level : Ptr) → Linked O → OrdersAtPrice → Cmd (Ladder O) (Unit {0})
  unfolding set_level set_order
  unlink_neighbours order level o l = do
    set_order o.prev_order (λ x. record x { next_order = o.next_order })
    set_order o.next_order (λ x. record x { prev_order = o.prev_order })
    when (same_ptr l.first_order order)
        (set_level level (λ x. record x { first_order = o.next_order }))
    set_order order (λ x. record x { next_order = none; prev_order = none })

module _ {O : Type 0} ⦃priced : Priced O⦄ where
  open priced use {side_of, price_of}

  -- `AddOrder` up to its last line, which enters the order in a table of the class.
  unfoldable pub link_order : (order : Ptr) → Cmd (Ladder O) (Unit {0})
  unfolding read_level read_order set_order add_orders_at_price link_last allocate
  link_order order = do
    o ← read_order order
    s ← get
    let level = get_orders_at_price (price_of o.order) s
    elim (is_null level) [
      | true ↦ do
        set_order order (λ x. record x { next_order = none; prev_order = none })
        new ← on_levels (
            allocate (record {
              side = side_of o.order;
              price = price_of o.order;
              first_order = order;
              next_entry = none;
              prev_entry = none;
            }))
        add_orders_at_price new
      | false ↦ do l ← read_level level; link_last order l
    ]

  -- `RemoveOrder` up to its last two lines, which clear the class's table and free the order.
  unfoldable pub unlink_order : (order : Ptr) → Cmd (Ladder O) (Unit {0})
  unfolding read_level read_order unlink_neighbours remove_orders_at_price
  unlink_order order = do
    o ← read_order order
    s ← get
    let level = get_orders_at_price (price_of o.order) s
    l ← read_level level
    elim (same_ptr l.next_entry level) [
      | true ↦ remove_orders_at_price (side_of o.order) (price_of o.order)
      | false ↦ unlink_neighbours order level o l
    ]
