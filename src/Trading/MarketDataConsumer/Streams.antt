-- ===== src/Trading/MarketDataConsumer/Streams.antt =====
-- What trading/market_data/MarketDataConsumer.cpp does with its two streams.
use low_latency.Prelude.{
  ℕ, ◌+◌, ◌≡◌, ◌≢◌, refl, sym, ◌∙◌, ap, Bool, true, false, List, [], ◌∷◌, ◌++◌, length, eq-true,
  eq-false, arith,
}
use mathlib.Core.Path.{subst}
use mathlib.Core.List.{append_assoc, append-nil}
use low_latency.Common.Types.{u64}
use low_latency.Common.Messages.{MeMarketUpdate, MpdMarketUpdate, is_snapshot_start}
use low_latency.Common.SafeQueue.{push}
use low_latency.Common.SafeQueue.Fifo.{
  contents, IsValid, HasRoom, HasRoomFor, push-IsValid, contents-push, num_elements-push,
}
use low_latency.Trading.MarketDataConsumer.{
  QueuedMarketUpdates, MarketDataConsumer, assign, scan_snapshot,
}
use low_latency.Trading.MarketDataConsumer.Recovery.{
  check_snapshot_sync, queue_message, start_snapshot_sync, receive_update, receive_updates,
}

-- Updates under consecutive numbers of 64 bits, from `n` on.
abbrev pub stream : (n : ℕ) → List MeMarketUpdate → List MpdMarketUpdate
stream n [] = []
stream n (u ∷ us) = record { sequence_number = n; market_update = u } ∷ stream (u64 (n + 1)) us

abbrev passed : MeMarketUpdate → MarketDataConsumer → MarketDataConsumer
passed u s = record s {
  in_recovery = false;
  next_expected_sequence_number = u64 (s.next_expected_sequence_number + 1);
  market_updates = push u s.market_updates;
}

receive_update-passed :
    (u : MeMarketUpdate) (s : MarketDataConsumer)
    → s.in_recovery ≡ false
    → receive_update false
        (record { sequence_number = s.next_expected_sequence_number; market_update = u })
        s
      ≡ passed u s
unfolding receive_update
receive_update-passed u s calm = rw (calm, eq-true {a = s.next_expected_sequence_number} refl) refl

-- The queue holds `us` behind what it held, and there is no recovery.
abbrev pub Passed : List MeMarketUpdate → (s t : MarketDataConsumer) → Type 0
Passed us s t =
    (contents t.market_updates ≡ contents s.market_updates ++ us) × (t.in_recovery ≡ false)

-- Outside a recovery, and with room in the queue, updates of the incremental stream that carry
-- the expected numbers without a gap go to the trade engine as they are, and no recovery starts.
pub receive_updates-in_sequence :
    (us : List MeMarketUpdate) (s : MarketDataConsumer)
    → IsValid s.market_updates
    → HasRoomFor (length us) s.market_updates
    → s.in_recovery ≡ false
    → Passed us s (receive_updates false (stream s.next_expected_sequence_number us) s)
unfolding receive_updates push
receive_updates-in_sequence [] s v room calm = (sym (append-nil (contents s.market_updates)), calm)
receive_updates-in_sequence (u ∷ us) s v room calm =
    let one : HasRoom s.market_updates = omega (arith, room) in
    let (e, f) =
      receive_updates-in_sequence us (passed u s) (push-IsValid u s.market_updates v one)
        (omega (arith, room, num_elements-push u s.market_updates v)) refl in
    subst
      (λ t.
        Passed (u ∷ us) s
          (receive_updates false (stream (u64 (s.next_expected_sequence_number + 1)) us) t))
      (sym (receive_update-passed u s calm))
      (
        e
            ∙ ap (λ l. l ++ us) (contents-push u s.market_updates v one)
            ∙ append_assoc (contents s.market_updates) (u ∷ []) us,
        f,
      )

-- Outside a recovery, an update of the incremental stream whose number is not the expected one
-- starts a recovery: the trade engine gets nothing, and the update waits alone.
pub receive_update-gap :
    (m : MpdMarketUpdate) (s : MarketDataConsumer)
    → s.in_recovery ≡ false
    → m.sequence_number ≢ s.next_expected_sequence_number
    → receive_update false m s ≡ record s {
      in_recovery = true;
      snapshot_queued_messages = [];
      incremental_queued_messages = (m.sequence_number, m.market_update) ∷ [];
    }
unfolding receive_update start_snapshot_sync queue_message check_snapshot_sync assign
receive_update-gap m s calm ne = rw (calm, eq-false ne) refl

-- The snapshot messages under consecutive keys from `n` on.
abbrev pub keyed : (n : ℕ) → List MeMarketUpdate → QueuedMarketUpdates
keyed n [] = []
keyed n (u ∷ us) = (n, u) ∷ keyed (u64 (n + 1)) us

scan_snapshot-keyed : (n : ℕ) (us : List MeMarketUpdate) → (scan_snapshot n (keyed n us)).0 ≡ false
unfolding scan_snapshot
scan_snapshot-keyed n [] = refl
scan_snapshot-keyed n (u ∷ us) = rw (eq-true {a = n} refl) (scan_snapshot-keyed (u64 (n + 1)) us)

-- Waiting snapshot messages under consecutive keys from 1 on, without a gap, are thrown away:
-- nothing else changes, so the recovery goes on.
pub check_snapshot_sync_complete :
    (us : List MeMarketUpdate) (s : MarketDataConsumer)
    → s.snapshot_queued_messages ≡ keyed 1 us
    → check_snapshot_sync s ≡ record s { snapshot_queued_messages = [] }
unfolding check_snapshot_sync
check_snapshot_sync_complete [] s e =
    rw (e, check_snapshot_sync) (ap (λ m. record s { snapshot_queued_messages = m }) e)
check_snapshot_sync_complete (u ∷ us) s e = thrown_away (is_snapshot_start u.type) refl
  where
    thrown_away :
        (b : Bool)
        → is_snapshot_start u.type ≡ b
        → check_snapshot_sync s ≡ record s { snapshot_queued_messages = [] }
    thrown_away false f = rw (e, check_snapshot_sync, f) refl
    thrown_away true f = rw (e, check_snapshot_sync, f, scan_snapshot-keyed 1 (u ∷ us)) refl
