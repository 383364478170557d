-- ===== src/Exchange/SnapshotSynthesizer/Running.antt =====
-- `Run` of exchange/market_data/SnapshotSynthesizer.cpp: the updates that wait, and a snapshot when the
-- last one is more than a minute old.
use low_latency.Prelude.{
  ℕ, zero, suc, ◌-◌, ◌*◌, ◌==◌, ltb, true, false, none, some, Cmd, out_of_fuel, null_pointer, pure,
  stop, get, modify, when, within, ◌>>=◌, ◌>>◌,
}
use low_latency.Common.Messages.{MpdMarketUpdate}
use low_latency.Common.SafeQueue.{SafeQueue, get_next_read, get_size, update_read_index}
use low_latency.Exchange.SnapshotSynthesizer.{
  SnapshotSynthesizer, add_to_snapshot, publish_snapshot,
}

-- The synthesizer with its queue and `mLastSnapshotTime`.
pub record RunningSynthesizer : Type 0 where
  pub synthesizer : SnapshotSynthesizer
  pub snapshot_queue : SafeQueue MpdMarketUpdate
  pub last_snapshot_time : ℕ

abbrev pub minute : ℕ
minute = 60 * (1000 * 1000 * 1000)

abbrev pub on_synthesizer : {A : Type 0} → Cmd SnapshotSynthesizer A → Cmd RunningSynthesizer A
on_synthesizer = within (λ r. r.synthesizer) (λ s r. record r { synthesizer = s })

abbrev pub on_queue : {A : Type 0} → Cmd (SafeQueue MpdMarketUpdate) A → Cmd RunningSynthesizer A
on_queue = within (λ r. r.snapshot_queue) (λ q r. record r { snapshot_queue = q })

-- The inner `while` of `Run`, on fuel.
unfoldable pub add_all : ℕ → Cmd RunningSynthesizer (Unit {0})
unfolding get_size get_next_read update_read_index add_to_snapshot
add_all zero = λ _. out_of_fuel
add_all (suc fuel) = do
  r ← get
  elim (get_size r.snapshot_queue == 0) [
    | true ↦ pure tt
    | false ↦ elim (get_next_read r.snapshot_queue) [
      | none ↦ stop null_pointer
      | some m ↦ do on_synthesizer (add_to_snapshot m); on_queue update_read_index; add_all fuel
    ]
  ]

-- The body of the outer `while`: `now` and `later` are the two readings of the clock, both after the
-- updates of the round.
unfoldable pub run_round : (fuel now later : ℕ) → Cmd RunningSynthesizer (Unit {0})
unfolding add_all publish_snapshot
run_round fuel now later = do
  add_all fuel
  r ← get
  when (ltb minute (now - r.last_snapshot_time)) (
      modify (λ t. record t {
        last_snapshot_time = later;
        synthesizer = publish_snapshot t.synthesizer;
      }))
