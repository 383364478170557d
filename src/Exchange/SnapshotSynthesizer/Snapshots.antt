-- ===== src/Exchange/SnapshotSynthesizer/Snapshots.antt =====
-- What exchange/market_data/SnapshotSynthesizer.cpp remembers of the updates, and what its snapshots
-- hold.
use low_latency.Prelude.{
  ℕ, zero, suc, ◌+◌, ◌%◌, ◌^◌, ◌<◌, ◌≡◌, refl, Bool, true, false, not, ◌&&◌, ◌||◌, none, some, [],
  ◌∷◌, ◌++◌, ◌==◌, ltb, Bool-cases, inl, inr, ◌⊎◌, arith, Ptr, Cmd, Run, ok, fault, assertion,
  out_of_fuel, put_back, check_fatal, and_then, modify, ltb-true,
}
use low_latency.Prelude.Ensures.{Ensures, done, stopped, unfinished}
use low_latency.Prelude.Ensures
use low_latency.Common.Types.{u64, same_side}
use low_latency.Ladder.{is_null}
use low_latency.Common.Messages.{MarketUpdateType, MeMarketUpdate, MpdMarketUpdate}
use low_latency.Common.MemoryPool.{MemoryPool, allocate, deallocate}
use low_latency.Exchange.SnapshotSynthesizer.{
  SnapshotSynthesizer, on_pool, indexes_orders, check_existing, update_orders, add_to_snapshot,
  send, publish_orders, publish_tickers, frame, publish_snapshot,
}

-- The table of orders is as it was, and the last number too.
pub record Same (s t : SnapshotSynthesizer) : Type 0 where
  pub table : t.orders_by_tickers ≡ s.orders_by_tickers
  pub number : t.last_sequence_incremental_number ≡ s.last_sequence_incremental_number
  pub messages : t.sent ≡ s.sent

check :
    (b : Bool) (s₀ s : SnapshotSynthesizer)
    → Same s₀ s
    → Ensures (λ _ t. Same s₀ t) (check_fatal b s)
check true s₀ s h = done h
check false s₀ s h = stopped

pool :
    {A : Type 0} (m : Cmd (MemoryPool MeMarketUpdate) A) (s₀ s : SnapshotSynthesizer)
    → Same s₀ s
    → Ensures (λ _ t. Same s₀ t) (on_pool m s)
pool {A} m s₀ s h = kept (m s.market_updates_pool)
  where
    kept :
        (r : Run (MemoryPool MeMarketUpdate) A)
        → Ensures (λ _ t. Same s₀ t) (put_back (λ p. record s { market_updates_pool = p }) r)
    kept (ok a p) = done (record { table = h.table; number = h.number; messages = h.messages })
    kept (fault f) = stopped
    kept out_of_fuel = unfinished

check_existing-Same :
    (p : Ptr) (u : MeMarketUpdate) (s₀ s : SnapshotSynthesizer)
    → Same s₀ s
    → Ensures (λ _ t. Same s₀ t) (check_existing p u s)
unfolding check_existing
check_existing-Same none u s₀ s h = stopped
check_existing-Same (some i) u s₀ s h =
    let o = (s.market_updates_pool.store i).object in
    Ensures.bind (check (o.order_id == u.order_id) s₀ s h)
      λ _ s₁ h₁. Ensures.bind (check (same_side o.side u.side) s₀ s₁ h₁) λ _ s₂ h₂. done h₂

pub update_orders-Same :
    (type : MarketUpdateType) (u : MeMarketUpdate) (orders : ℕ → Ptr) (s : SnapshotSynthesizer)
    → Ensures (λ _ t. Same s t) (update_orders type u orders s)
unfolding update_orders
update_orders-Same type u orders s = go type
  where
    start : Same s s
    start = record { table = refl; number = refl; messages = refl }

    go : (type : MarketUpdateType) → Ensures (λ _ t. Same s t) (update_orders type u orders s)
    go MarketUpdateType.add =
        Ensures.bind (check (is_null (orders u.order_id)) s s start)
          λ _ s₁ h₁. Ensures.bind (pool (allocate u) s s₁ h₁) λ p s₂ h₂. done h₂
    go MarketUpdateType.modify =
        Ensures.bind (check_existing-Same _ u s s start)
          λ i s₁ h₁. done (record { table = h₁.table; number = h₁.number; messages = h₁.messages })
    go MarketUpdateType.cancel =
        Ensures.bind (check_existing-Same _ u s s start)
          λ i s₁ h₁. Ensures.bind (pool (deallocate (some i)) s s₁ h₁) λ p s₂ h₂. done h₂
    go MarketUpdateType.invalid = done start
    go MarketUpdateType.trade = done start
    go MarketUpdateType.clear = done start
    go MarketUpdateType.snapshot_start = done start
    go MarketUpdateType.snapshot_end = done start

-- Whatever update the synthesizer gets through, the table of orders stays as it is; the update
-- has the number after the last one, and this number is then the last.
pub add_to_snapshot-table :
    (m : MpdMarketUpdate) (s : SnapshotSynthesizer)
    → Ensures
        (λ _ t.
          (t.orders_by_tickers ≡ s.orders_by_tickers)
          × (m.sequence_number ≡ u64 (s.last_sequence_incremental_number + 1))
          × (t.last_sequence_incremental_number ≡ m.sequence_number))
        (add_to_snapshot m s)
unfolding add_to_snapshot
add_to_snapshot-table m s =
    elim (Bool-cases (ltb u.ticker_id 8 && (not (indexes_orders u.type) || ltb u.order_id 1024))) [
      | inr f ↦ rw f stopped
      | inl f ↦ rw f (
          Ensures.bind (update_orders-Same u.type u (s.orders_by_tickers u.ticker_id) s)
            λ _ t h. next t h)
    ]
  where
    u : MeMarketUpdate
    u = m.market_update

    next :
        (t : SnapshotSynthesizer)
        → Same s t
        → Ensures
            (λ _ t.
              (t.orders_by_tickers ≡ s.orders_by_tickers)
              × (m.sequence_number ≡ u64 (s.last_sequence_incremental_number + 1))
              × (t.last_sequence_incremental_number ≡ m.sequence_number))
            (and_then
              (check_fatal (m.sequence_number == u64 (t.last_sequence_incremental_number + 1)) t)
              (λ _.
                modify (λ x. record x { last_sequence_incremental_number = m.sequence_number })))
    next t h =
        elim (Bool-cases (m.sequence_number == u64 (t.last_sequence_incremental_number + 1))) [
          | inr g ↦ rw g stopped
          | inl g ↦ rw g (done (h.table, ground (arith, h.number), refl))
        ]

-- With no order in the table under its ticker and id, both in range, a MODIFY or a CANCEL stops
-- the program.
pub add_to_snapshot-existing :
    (m : MpdMarketUpdate) (s : SnapshotSynthesizer)
    → (m.market_update.type ≡ MarketUpdateType.modify)
      ⊎ (m.market_update.type ≡ MarketUpdateType.cancel)
    → m.market_update.ticker_id < 8
    → m.market_update.order_id < 1024
    → s.orders_by_tickers m.market_update.ticker_id m.market_update.order_id ≡ none
    → add_to_snapshot m s ≡ fault assertion
unfolding add_to_snapshot update_orders check_existing
add_to_snapshot-existing m s (inl e) ht ho en = rw (e, ltb-true ht, ltb-true ho, en) refl
add_to_snapshot-existing m s (inr e) ht ho en = rw (e, ltb-true ht, ltb-true ho, en) refl

publish_orders-empty :
    (n i : ℕ) (orders : ℕ → Ptr) (size : ℕ) (s : SnapshotSynthesizer)
    → ((j : ℕ) → orders j ≡ none)
    → publish_orders n i orders size s ≡ (size, s)
unfolding publish_orders
publish_orders-empty zero i orders size s h = refl
publish_orders-empty (suc n) i orders size s h =
    rw (h i, publish_orders) (publish_orders-empty n (i + 1) orders size s h)

-- The numbers that `n` CLEAR messages take.
abbrev pub numbers_after : (n size : ℕ) → ℕ
numbers_after zero size = size
numbers_after (suc n) size = numbers_after n ((size + 1) % 2 ^ 32)

publish_tickers-empty :
    (n i size : ℕ) (s : SnapshotSynthesizer)
    → ((t j : ℕ) → s.orders_by_tickers t j ≡ none)
    → publish_tickers n i size s ≡ (numbers_after n size, s)
unfolding publish_tickers
publish_tickers-empty zero i size s h = refl
publish_tickers-empty (suc n) i size s h =
    rw
      (
        publish_orders-empty 1024 0 (s.orders_by_tickers i) ((size + 1) % 2 ^ 32) s (h i),
        publish_tickers,
      )
      (publish_tickers-empty n (i + 1) ((size + 1) % 2 ^ 32) s h)

-- The snapshot of an empty table is its two framing messages, numbered 0 and 9.
pub publish_snapshot-empty :
    (s : SnapshotSynthesizer)
    → ((t j : ℕ) → s.orders_by_tickers t j ≡ none)
    → (publish_snapshot s).sent
      ≡ (s.sent
          ++ (frame MarketUpdateType.snapshot_start 0 s.last_sequence_incremental_number ∷ []))
        ++ (frame MarketUpdateType.snapshot_end 9 s.last_sequence_incremental_number ∷ [])
unfolding publish_snapshot send
publish_snapshot-empty s h =
    rw
      (publish_tickers-empty 8 0 1
        (send (frame MarketUpdateType.snapshot_start 0 s.last_sequence_incremental_number) s) h)
      refl
