-- ===== src/Trading/MarketDataConsumer.antt =====
-- trading/market_data/MarketDataConsumer.h and MarketDataConsumer.cpp: the incremental stream of
-- market updates, and the recovery from a snapshot after a gap.
pub mod Streams
pub mod Recovered
pub mod Recovery
use low_latency.Prelude.{
  ℕ, ◌+◌, Bool, true, false, not, none, some, Option, List, [], ◌∷◌, ◌==◌, ltb, ◌&&◌, ◌||◌,
  if◌then◌else◌,
}
use low_latency.Common.Types.{u64}
use low_latency.Common.Messages.{
  MeMarketUpdate, MpdMarketUpdate, is_snapshot_start, is_snapshot_end,
}
use low_latency.Common.SafeQueue.{SafeQueue, push}

-- `std::map<u64, MEMarketUpdate>`: its pairs in the order of their keys.
abbrev pub QueuedMarketUpdates : Type 0
QueuedMarketUpdates = List (ℕ × MeMarketUpdate)

-- `map[key] = value`
unfoldable pub assign : (key : ℕ) → MeMarketUpdate → QueuedMarketUpdates → QueuedMarketUpdates
assign key value [] = (key, value) ∷ []
assign key value ((k, v) ∷ m) =
    if key == k
    then (key, value) ∷ m
    else if ltb key k
    then (key, value) ∷ (k, v) ∷ m
    else (k, v) ∷ assign key value m

-- `map.find(key) != map.end()`
unfoldable pub contains : (key : ℕ) → QueuedMarketUpdates → Bool
contains key [] = false
contains key ((k, v) ∷ m) = (key == k) || contains key m

pub record MarketDataConsumer : Type 0 where
  pub market_updates : SafeQueue MeMarketUpdate
  pub next_expected_sequence_number : ℕ
  pub in_recovery : Bool
  pub snapshot_queued_messages : QueuedMarketUpdates
  pub incremental_queued_messages : QueuedMarketUpdates

-- The type test that keeps the two framing messages out of the events.
abbrev pub is_event : MeMarketUpdate → Bool
is_event u = not (is_snapshot_start u.type) && not (is_snapshot_end u.type)

-- The message under the largest key.
unfoldable pub last_message : MeMarketUpdate → QueuedMarketUpdates → MeMarketUpdate
last_message u [] = u
last_message u ((k, v) ∷ m) = last_message v m

-- The first `for` of `CheckSnapshotSync`: `isSnapshotComplete`, and the events before a gap.
unfoldable pub scan_snapshot : (next : ℕ) → QueuedMarketUpdates → Bool × List MeMarketUpdate
scan_snapshot next [] = (false, [])
scan_snapshot next ((k, u) ∷ m) =
    let (complete, events) = scan_snapshot (u64 (next + 1)) m in
    if not (k == next) then (true, []) else (complete, if is_event u then u ∷ events else events)

-- The second `for`: `none` at a gap, else the events and the next sequence number.
unfoldable pub scan_incremental :
    (expected next : ℕ) → QueuedMarketUpdates → Option (List MeMarketUpdate × ℕ)
scan_incremental expected next [] = some ([], next)
scan_incremental expected next ((k, u) ∷ m) =
    let skipped = scan_incremental expected next m in
    let rest = scan_incremental expected (u64 (next + 1)) m in
    if ltb k expected then skipped else if not (k == next) then none else elim rest [
      | none ↦ none
      | some (events, end) ↦ some (if is_event u then u ∷ events else events, end)
    ]

-- The third `for`.
unfoldable pub push_all : List MeMarketUpdate → SafeQueue MeMarketUpdate → SafeQueue MeMarketUpdate
push_all [] q = q
push_all (u ∷ us) q = push_all us (push u q)
