-- ===== src/Exchange/SnapshotSynthesizer.antt =====
-- exchange/market_data/SnapshotSynthesizer.h and SnapshotSynthesizer.cpp: the orders that are live
-- by ticker and id, and the snapshot of them. What goes to the socket is a list of messages.
pub mod Snapshots
pub mod Running
pub mod Pacing
use low_latency.Prelude.{
  ℕ, zero, suc, ◌+◌, ◌-◌, Bool, true, false, not, none, some, List, [], ◌∷◌, ◌++◌, ◌==◌, ltb, ◌&&◌,
  ◌||◌, if◌then◌else◌, update, Ptr, fault, Cmd, ok, out_of_range, null_pointer, pure, get, modify,
  check_fatal, within, deref, ◌>>=◌, ◌>>◌,
}
use low_latency.Common.Types.{Side, u32, u64, same_side}
use low_latency.Common.Limits.{me_max_tickers, me_max_order_ids}
use low_latency.Common.Messages.{
  MarketUpdateType, MeMarketUpdate, MpdMarketUpdate, no_market_update,
}
use low_latency.Common.MemoryPool
use low_latency.Common.MemoryPool.{MemoryPool, allocate, deallocate}
use low_latency.Ladder.{is_null, set_object}

pub record SnapshotSynthesizer : Type 0 where
  pub orders_by_tickers : ℕ → ℕ → Ptr
  pub last_sequence_incremental_number : ℕ
  pub market_updates_pool : MemoryPool MeMarketUpdate
  pub sent : List MpdMarketUpdate

unfoldable pub make_synthesizer : SnapshotSynthesizer
unfolding MemoryPool.make
make_synthesizer = record {
  orders_by_tickers = λ _ _. none;
  last_sequence_incremental_number = 0;
  market_updates_pool = MemoryPool.make me_max_order_ids no_market_update;
  sent = [];
}

abbrev pub on_pool : {A : Type 0} → Cmd (MemoryPool MeMarketUpdate) A → Cmd SnapshotSynthesizer A
on_pool = within (λ s. s.market_updates_pool) (λ p s. record s { market_updates_pool = p })

-- The three checks before an order is changed or dropped.
unfoldable pub check_existing : (order : Ptr) → MeMarketUpdate → Cmd SnapshotSynthesizer ℕ
check_existing order u = do
  check_fatal (not (is_null order))
  i ← deref order
  s ← get
  let o = (s.market_updates_pool.store i).object
  check_fatal (o.order_id == u.order_id)
  check_fatal (same_side o.side u.side)
  pure i

-- The `switch` of `AddToSnapshot`. `orders` is the variable of that name: `auto` makes it a copy of
-- the ticker's array, and each case returns what it leaves in the copy.
unfoldable pub update_orders :
    MarketUpdateType → MeMarketUpdate → (orders : ℕ → Ptr) → Cmd SnapshotSynthesizer (ℕ → Ptr)
unfolding check_existing allocate deallocate
update_orders MarketUpdateType.add u orders = do
  check_fatal (is_null (orders u.order_id))
  p ← on_pool (allocate u)
  pure (update orders u.order_id p)
update_orders MarketUpdateType.modify u orders = do
  i ← check_existing (orders u.order_id) u
  modify (λ s. record s {
    market_updates_pool =
        set_object (λ o. record o { quantity = u.quantity; price = u.price }) i
          s.market_updates_pool;
  })
  pure orders
update_orders MarketUpdateType.cancel u orders = do
  i ← check_existing (orders u.order_id) u
  on_pool (deallocate (some i))
  pure (update orders u.order_id none)
update_orders _ u orders = pure orders

abbrev pub indexes_orders : MarketUpdateType → Bool
indexes_orders MarketUpdateType.add = true
indexes_orders MarketUpdateType.modify = true
indexes_orders MarketUpdateType.cancel = true
indexes_orders _ = false

-- `AddToSnapshot`: the ticker, and in three cases the order id, index arrays without a test.
unfoldable pub add_to_snapshot : MpdMarketUpdate → Cmd SnapshotSynthesizer (Unit {0})
unfolding update_orders
add_to_snapshot m s =
    let u = m.market_update in
    if ltb u.ticker_id me_max_tickers
      && (not (indexes_orders u.type) || ltb u.order_id me_max_order_ids)
    then (do
      update_orders u.type u (s.orders_by_tickers u.ticker_id)
      t ← get
      check_fatal (m.sequence_number == u64 (t.last_sequence_incremental_number + 1))
      modify (λ x. record x { last_sequence_incremental_number = m.sequence_number }))
        s
    else fault out_of_range

-- `mSnapshotSocket.Send`
unfoldable pub send : MpdMarketUpdate → SnapshotSynthesizer → SnapshotSynthesizer
send m s = record s { sent = s.sent ++ (m ∷ []) }

-- The inner `for` of `PublishSnapshot`: order ids from `i` on, `n` of them, and the next number.
unfoldable pub publish_orders :
    (n i : ℕ) (orders : ℕ → Ptr) (size : ℕ) → SnapshotSynthesizer → ℕ × SnapshotSynthesizer
unfolding send
publish_orders zero i orders size s = (size, s)
publish_orders (suc n) i orders size s = elim (orders i) [
  | none ↦ publish_orders n (i + 1) orders size s
  | some p ↦ publish_orders n (i + 1) orders (u32 (size + 1)) (
      send
        (record { sequence_number = size; market_update = (s.market_updates_pool.store p).object })
        s)
]

-- The outer `for`: each ticker takes a number for its CLEAR message, which is logged and not sent.
unfoldable pub publish_tickers : (n i size : ℕ) → SnapshotSynthesizer → ℕ × SnapshotSynthesizer
unfolding publish_orders
publish_tickers zero i size s = (size, s)
publish_tickers (suc n) i size s =
    let (size', s') =
      publish_orders me_max_order_ids 0 (s.orders_by_tickers i) (u32 (size + 1)) s in
    publish_tickers n (i + 1) size' s'

-- The first and the last message of a snapshot.
abbrev pub frame : MarketUpdateType → (number last : ℕ) → MpdMarketUpdate
frame type number last = record {
  sequence_number = number;
  market_update = record no_market_update { type = type; order_id = last };
}

-- `PublishSnapshot`
unfoldable pub publish_snapshot : SnapshotSynthesizer → SnapshotSynthesizer
unfolding send publish_tickers
publish_snapshot s =
    let last = s.last_sequence_incremental_number in
    let (size, t) =
      publish_tickers me_max_tickers 0 1 (send (frame MarketUpdateType.snapshot_start 0 last) s) in
    send (frame MarketUpdateType.snapshot_end size last) t
