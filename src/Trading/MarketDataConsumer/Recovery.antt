-- ===== src/Trading/MarketDataConsumer/Recovery.antt =====
-- `CheckSnapshotSync`, `QueueMessage` and `RecvCallback` of
-- trading/market_data/MarketDataConsumer.cpp. The sockets themselves are not part of the model:
-- that the snapshot socket can be opened and joined is taken for granted in `StartSnaphotSync`.
use low_latency.Prelude.{
  ◌+◌, Bool, true, false, not, none, some, List, [], ◌∷◌, ◌++◌, ◌==◌, ◌&&◌, ◌||◌, if◌then◌else◌,
}
use low_latency.Common.Types.{u64}
use low_latency.Common.Messages.{
  MeMarketUpdate, MpdMarketUpdate, is_snapshot_start, is_snapshot_end,
}
use low_latency.Common.SafeQueue.{push}
use low_latency.Trading.MarketDataConsumer.{
  MarketDataConsumer, assign, contains, last_message, scan_snapshot, scan_incremental, push_all,
}

-- The end of `CheckSnapshotSync`, from the snapshot's events on.
unfoldable pub finish_recovery :
    (last : MeMarketUpdate) (events : List MeMarketUpdate) → MarketDataConsumer → MarketDataConsumer
unfolding scan_incremental push_all
finish_recovery last events s =
    elim (scan_incremental s.next_expected_sequence_number (u64 (last.order_id + 1))
      s.incremental_queued_messages) [
        | none ↦ record s { snapshot_queued_messages = []; incremental_queued_messages = [] }
        | some (more, next) ↦ record s {
          market_updates = push_all (events ++ more) s.market_updates;
          in_recovery = false;
          snapshot_queued_messages = [];
          incremental_queued_messages = [];
          next_expected_sequence_number = next;
        }
      ]

-- `CheckSnapshotSync`
unfoldable pub check_snapshot_sync : MarketDataConsumer → MarketDataConsumer
unfolding scan_snapshot last_message finish_recovery
check_snapshot_sync s = elim s.snapshot_queued_messages [
  | [] ↦ s
  | (k, first) ∷ m ↦
      let (complete, events) = scan_snapshot 1 ((k, first) ∷ m) in
      let last = last_message first m in
      if not (is_snapshot_start first.type)
      then record s { snapshot_queued_messages = [] }
      else if not (complete && is_snapshot_end last.type)
      then record s { snapshot_queued_messages = [] }
      else finish_recovery last events s
]

-- `QueueMessage`
unfoldable pub queue_message :
    (is_snapshot : Bool) → MpdMarketUpdate → MarketDataConsumer → MarketDataConsumer
unfolding assign contains check_snapshot_sync
queue_message true m s =
    let old =
      if contains m.sequence_number s.snapshot_queued_messages
      then []
      else s.snapshot_queued_messages in
    check_snapshot_sync
      (record s { snapshot_queued_messages = assign m.sequence_number m.market_update old })
queue_message false m s = check_snapshot_sync (record s {
  incremental_queued_messages =
      assign m.sequence_number m.market_update s.incremental_queued_messages;
})

-- `StartSnaphotSync`, less the sockets.
unfoldable pub start_snapshot_sync : MarketDataConsumer → MarketDataConsumer
start_snapshot_sync s = record s { snapshot_queued_messages = []; incremental_queued_messages = [] }

-- The body of the loop of `RecvCallback`.
unfoldable pub receive_update :
    (is_snapshot : Bool) → MpdMarketUpdate → MarketDataConsumer → MarketDataConsumer
unfolding start_snapshot_sync queue_message
receive_update is_snapshot m s =
    let already = s.in_recovery in
    let recovering = already || not (m.sequence_number == s.next_expected_sequence_number) in
    let t = record s { in_recovery = recovering } in
    if recovering
    then queue_message is_snapshot m (if not already then start_snapshot_sync t else t)
    else if not is_snapshot
    then record t {
      next_expected_sequence_number = u64 (t.next_expected_sequence_number + 1);
      market_updates = push m.market_update t.market_updates;
    }
    else t

unfoldable pub receive_updates :
    (is_snapshot : Bool) → List MpdMarketUpdate → MarketDataConsumer → MarketDataConsumer
unfolding receive_update
receive_updates is_snapshot [] s = s
receive_updates is_snapshot (m ∷ ms) s =
    receive_updates is_snapshot ms (receive_update is_snapshot m s)

-- The messages that a pass of the loop takes, and what it leaves in the buffer: the test is
-- `i + sizeof < nextRecvDataIndex`, so the last message waits unless more bytes follow it.
unfoldable pub taken :
    (bytes_follow : Bool) → List MpdMarketUpdate → List MpdMarketUpdate × List MpdMarketUpdate
taken bytes_follow [] = ([], [])
taken true (m ∷ ms) = let (now, later) = taken true ms in (m ∷ now, later)
taken false (m ∷ []) = ([], m ∷ [])
taken false (m ∷ n ∷ ms) = let (now, later) = taken false (n ∷ ms) in (m ∷ now, later)

-- `RecvCallback` on a buffer of whole messages, behind which part of one may stand; the second
-- part of the result is what stays in the buffer. Snapshot data outside a recovery is dropped.
unfoldable pub recv_callback :
    (is_snapshot bytes_follow : Bool)
    → List MpdMarketUpdate
    → MarketDataConsumer
    → MarketDataConsumer × List MpdMarketUpdate
unfolding receive_updates taken
recv_callback is_snapshot bytes_follow ms s =
    let (now, later) = taken bytes_follow ms in
    if is_snapshot && not s.in_recovery then (s, []) else (receive_updates is_snapshot now s, later)
