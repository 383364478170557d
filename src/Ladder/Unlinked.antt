-- ===== src/Ladder/Unlinked.antt =====
-- No order of a book ever has a neighbour: `AddOrder` leaves the links of the first order of a
-- price null, and a second one reads through them.
use low_latency.Prelude.{
  ℕ, zero, suc, ◌≡◌, refl, true, false, Bool, none, some, Ptr, Cmd, ok, fault, null_pointer, arith,
  when, modify, not, check_fatal, Run, put_back, out_of_fuel, inl, inr, Bool-cases, ltb, update,
}
use low_latency.Prelude.Ensures.{Ensures, done, stopped, unfinished, Keeps}
use low_latency.Prelude.Ensures
use low_latency.Common.Types.{Side}
use low_latency.Common.MemoryPool.{
  MemoryPool, allocate, deallocate, next_index, update_next_free_index,
}
use low_latency.Ladder.{
  Linked, OrdersAtPrice, Priced, Ladder, is_null, read_level, set_level, read_order, set_order,
  on_levels, link_before, find_place, add_orders_at_price, remove_orders_at_price, unlink_level,
  link_last, unlink_neighbours, link_order, unlink_order, should_insert, same_ptr,
  get_orders_at_price, with_head, with_orders_at_price, head_of,
}

module _ {O : Type 0} where
  abbrev pub IsUnlinked : Linked O → Type 0
  IsUnlinked x = (x.next_order ≡ none) × (x.prev_order ≡ none)

  -- Every order of the pool, in use or not.
  abbrev pub AllUnlinked : MemoryPool (Linked O) → Type 0
  AllUnlinked p = (i : ℕ) → IsUnlinked (p.store i).object

  abbrev pub Unlinked : Ladder O → Type 0
  Unlinked s = AllUnlinked s.orders_pool

  -- The operations on prices leave the orders alone.
  module _ (I : MemoryPool (Linked O) → Type 0) where
    abbrev pub OnOrders : Ladder O → Type 0
    OnOrders s = I s.orders_pool

    pub read_level-Keeps : (p : Ptr) → Keeps OnOrders (read_level p)
    unfolding read_level
    read_level-Keeps none s h = stopped
    read_level-Keeps (some i) s h = done h

    set_level-Keeps : (p : Ptr) (f : OrdersAtPrice → OrdersAtPrice) → Keeps OnOrders (set_level p f)
    unfolding set_level
    set_level-Keeps none f s h = stopped
    set_level-Keeps (some i) f s h = done h

    link_before-Keeps : (target new : Ptr) → Keeps OnOrders (link_before target new)
    unfolding link_before
    link_before-Keeps target new s h = Ensures.bind (read_level-Keeps target s h) λ t s₁ h₁.
        Ensures.bind (set_level-Keeps new _ s₁ h₁) λ _ s₂ h₂.
          Ensures.bind (set_level-Keeps t.prev_entry _ s₂ h₂)
            λ _ s₃ h₃. set_level-Keeps target _ s₃ h₃

    with_head-OnOrders :
        (side : Side) (new : Ptr) (s : Ladder O) → OnOrders s → OnOrders (with_head side new s)
    with_head-OnOrders Side.buy new s h = h
    with_head-OnOrders Side.sell new s h = h
    with_head-OnOrders Side.invalid new s h = h
    with_head-OnOrders Side.max new s h = h

    head-Keeps :
        (side : Side) (b : Bool) (new : Ptr) → Keeps OnOrders (when b (modify (with_head side new)))
    head-Keeps side false new s h = done h
    head-Keeps side true new s h = done (with_head-OnOrders side new s h)

    check_fatal-Keeps : (b : Bool) → Keeps OnOrders (check_fatal b)
    check_fatal-Keeps true s h = done h
    check_fatal-Keeps false s h = stopped

    when-Keeps :
        (b : Bool) (m : Cmd (Ladder O) (Unit {0})) → Keeps OnOrders m → Keeps OnOrders (when b m)
    when-Keeps true m keep s h = keep s h
    when-Keeps false m keep s h = done h

    find_place-Keeps :
        (fuel : ℕ) (side : Side) (price : ℕ) (new head target : Ptr)
        → Keeps OnOrders (find_place fuel side price new head target)
    unfolding find_place
    find_place-Keeps zero side price new head target s h = unfinished
    find_place-Keeps (suc fuel) side price new head target s h =
        Ensures.bind (read_level-Keeps target s h) λ t s₁ h₁.
          Ensures.branch (should_insert side price t.price) _ _ s₁
            (Ensures.bind (link_before-Keeps target new s₁ h₁) λ _ s₂ h₂.
              Ensures.bind (head-Keeps side (same_ptr target head) new s₂ h₂) λ _ s₃ h₃. done h₃)
            (Ensures.branch (same_ptr t.next_entry head) _ _ s₁ (done h₁)
              (find_place-Keeps fuel side price new head t.next_entry s₁ h₁))

    pub levels-Keeps :
        {A : Type 0} (m : Cmd (MemoryPool OrdersAtPrice) A) → Keeps OnOrders (on_levels m)
    levels-Keeps {A} m s h = kept (m s.orders_at_price_pool)
      where
        kept :
            (r : Run (MemoryPool OrdersAtPrice) A)
            → Ensures (λ _ t. OnOrders t) (put_back (λ p. record s { orders_at_price_pool = p }) r)
        kept (ok a p) = done h
        kept (fault f) = stopped
        kept out_of_fuel = unfinished

    add_orders_at_price-Keeps : (new : Ptr) → Keeps OnOrders (add_orders_at_price new)
    unfolding add_orders_at_price
    add_orders_at_price-Keeps new s h = Ensures.bind (read_level-Keeps new s h) λ n s₁ h₁.
        Ensures.bind (check_fatal-Keeps (is_null (get_orders_at_price n.price s₁)) s₁ h₁) λ _ s₂ h₂.
          let s₃ = with_orders_at_price n.price new s₂ in
          Ensures.branch (is_null (head_of n.side s₁)) _ _ s₃
            (set_level-Keeps new _ _ (with_head-OnOrders n.side new s₃ h₂))
            (Ensures.bind (find_place-Keeps _ n.side n.price new _ _ s₃ h₂) λ found s₄ h₄.
              when-Keeps (not found) (link_before _ new) (link_before-Keeps _ new) s₄ h₄)

    unlink_level-Keeps :
        (side : Side) (this head : Ptr) (l : OrdersAtPrice)
        → Keeps OnOrders (unlink_level side this head l)
    unfolding unlink_level
    unlink_level-Keeps side this head l s h =
        Ensures.bind (set_level-Keeps l.prev_entry _ s h) λ _ s₂ h₂.
          Ensures.bind (set_level-Keeps l.next_entry _ s₂ h₂) λ _ s₃ h₃.
            Ensures.bind (read_level-Keeps this s₃ h₃) λ m s₄ h₄.
              Ensures.bind (head-Keeps side (same_ptr this head) m.next_entry s₄ h₄)
                λ _ s₅ h₅. set_level-Keeps this _ s₅ h₅

    remove_orders_at_price-Keeps :
        (side : Side) (price : ℕ) → Keeps OnOrders (remove_orders_at_price side price)
    unfolding remove_orders_at_price
    remove_orders_at_price-Keeps side price s h =
        let this = get_orders_at_price price s in
        Ensures.bind (read_level-Keeps this s h) λ l s₁ h₁.
          Ensures.bind
            (Ensures.branch (same_ptr l.next_entry this) _ _ s₁ (head-Keeps side true none s₁ h₁)
              (unlink_level-Keeps side this (head_of side s) l s₁ h₁))
            λ _ s₆ h₆. levels-Keeps (deallocate this) (with_orders_at_price price none s₆) h₆

  set_order_null :
      (f : Linked O → Linked O) (p : Ptr) (s : Ladder O)
      → p ≡ none
      → set_order p f s ≡ fault null_pointer
  unfolding set_order
  set_order_null f p s e = rw e refl

  pub read_order-Unlinked :
      (p : Ptr) (s : Ladder O)
      → Unlinked s
      → Ensures (λ x t. IsUnlinked x × Unlinked t) (read_order p s)
  unfolding read_order
  read_order-Unlinked none s h = stopped
  read_order-Unlinked (some i) s h = done (h i, h)

  -- The new order never becomes the neighbour of another.
  link_last_faults :
      (order : Ptr) (l : OrdersAtPrice) (s : Ladder O)
      → Unlinked s
      → link_last order l s ≡ fault null_pointer
  unfolding link_last read_order set_order
  link_last_faults order l s h = go l.first_order refl
    where
      go : (p : Ptr) → l.first_order ≡ p → link_last order l s ≡ fault null_pointer
      go none e = rw (e, link_last)
      go (some i) e = rw (e, link_last, (h i).1)

  pub unlink_neighbours_faults :
      (order level : Ptr) (o : Linked O) (l : OrdersAtPrice) (s : Ladder O)
      → IsUnlinked o
      → unlink_neighbours order level o l s ≡ fault null_pointer
  unfolding unlink_neighbours set_order
  unlink_neighbours_faults order level o l s u = rw u.1

  pub set_order-Unlinked :
      (p : Ptr) (f : Linked O → Linked O)
      → ((x : Linked O) → IsUnlinked x → IsUnlinked (f x))
      → Keeps Unlinked (set_order p f)
  unfolding set_order
  set_order-Unlinked none f u s h = stopped
  set_order-Unlinked (some i) f u s h =
      done λ j. ground (arith, h j, u (s.orders_pool.store i).object (h i))

  search-AllUnlinked : (fuel : ℕ) → Keeps AllUnlinked (update_next_free_index fuel)
  unfolding update_next_free_index
  search-AllUnlinked zero p h = unfinished
  search-AllUnlinked (suc fuel) p h = elim (Bool-cases ((p.store p.next_free_index).is_free)) [
    | inl e ↦ rw (e, update_next_free_index) (done h)
    | inr e ↦
        rw (e, update_next_free_index)
          (search-AllUnlinked fuel
            (record p { next_free_index = next_index p.size p.next_free_index }) h)
  ]

  pub allocate-AllUnlinked : (x : Linked O) → IsUnlinked x → Keeps AllUnlinked (allocate x)
  unfolding allocate
  allocate-AllUnlinked x u p h = elim (Bool-cases ((p.store p.next_free_index).is_free)) [
    | inl e ↦ rw e (
        Ensures.bind
          (search-AllUnlinked (suc p.size)
            (record p {
              store = update p.store p.next_free_index (record { object = x; is_free = false });
            })
            λ j. ground (arith, h j))
          λ _ q k. done k)
    | inr e ↦ rw e (done h)
  ]

  pub deallocate-AllUnlinked : (p : Ptr) → Keeps AllUnlinked (deallocate p)
  unfolding deallocate
  deallocate-AllUnlinked none p h = stopped
  deallocate-AllUnlinked (some i) p h = elim (Bool-cases (ltb i p.size)) [
    | inl e ↦ rw e (done λ j. ground (arith, h j, h i))
    | inr e ↦ rw e stopped
  ]

module _ {O : Type 0} ⦃priced : Priced O⦄ where
  open priced use {side_of, price_of}

  -- An order is linked only where its price index has no level, and stays alone there.
  pub link_order-Unlinked : (p : Ptr) → Keeps (Unlinked {O = O}) (link_order p)
  unfolding link_order
  link_order-Unlinked p s h = Ensures.bind (read_order-Unlinked p s h) λ o s₁ (u, h₁).
      Ensures.branch (is_null (get_orders_at_price (price_of o.order) s₁)) _ _ s₁
        (Ensures.bind (set_order-Unlinked p _ (λ x v. (refl, refl)) s₁ h₁) λ _ s₂ h₂.
          Ensures.bind
            (levels-Keeps AllUnlinked
              (allocate (record {
                side = side_of o.order;
                price = price_of o.order;
                first_order = p;
                next_entry = none;
                prev_entry = none;
              }))
              s₂ h₂)
            λ new s₃ h₃. add_orders_at_price-Keeps AllUnlinked new s₃ h₃)
        (Ensures.bind
          (read_level-Keeps AllUnlinked (get_orders_at_price (price_of o.order) s₁) s₁ h₁)
          λ l s₂ h₂. rw (link_last_faults p l s₂ h₂) stopped)

  pub unlink_order-Unlinked : (p : Ptr) → Keeps (Unlinked {O = O}) (unlink_order p)
  unfolding unlink_order
  unlink_order-Unlinked p s h = Ensures.bind (read_order-Unlinked p s h) λ o s₁ (u, h₁).
      let level = get_orders_at_price (price_of o.order) s₁ in
      Ensures.bind (read_level-Keeps AllUnlinked level s₁ h₁) λ l s₂ h₂.
        Ensures.branch (same_ptr l.next_entry level) _ _ s₂
          (remove_orders_at_price-Keeps AllUnlinked _ _ s₂ h₂)
          (rw (unlink_neighbours_faults p level o l s₂ u) stopped)
