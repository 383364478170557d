-- ===== src/Exchange/SnapshotSynthesizer/Pacing.antt =====
-- How often `Run` of exchange/market_data/SnapshotSynthesizer.cpp sends.
use low_latency.Prelude.{
  ℕ, zero, suc, ◌-◌, ◌≡◌, ◌≤◌, ◌+◌, refl, ◌==◌, ltb, ltb-false, false, not, ◌&&◌, ◌||◌, Bool-cases,
  inl, inr, arith, Run, ok, fault, out_of_fuel, put_back, modify, Option-cases, ◌∙◌, and_then,
  check_fatal,
}
use low_latency.Prelude.Ensures.{Ensures, done, stopped, unfinished}
use low_latency.Prelude.Ensures
use low_latency.Common.Types.{u64}
use low_latency.Common.Messages.{MpdMarketUpdate, MeMarketUpdate}
use low_latency.Common.SafeQueue.{SafeQueue, get_next_read, get_size, update_read_index}
use low_latency.Exchange.SnapshotSynthesizer.{SnapshotSynthesizer, add_to_snapshot, indexes_orders}
use low_latency.Exchange.SnapshotSynthesizer.Snapshots.{Same, update_orders-Same}
use low_latency.Exchange.SnapshotSynthesizer.Running.{
  RunningSynthesizer, minute, add_all, run_round,
}

-- Nothing has been sent, and the time of the last snapshot is the same.
abbrev pub IsQuiet : (r t : RunningSynthesizer) → Type 0
IsQuiet r t =
    (t.synthesizer.sent ≡ r.synthesizer.sent) × (t.last_snapshot_time ≡ r.last_snapshot_time)

add_to_snapshot-quiet :
    (m : MpdMarketUpdate) (s : SnapshotSynthesizer)
    → Ensures (λ _ t. t.sent ≡ s.sent) (add_to_snapshot m s)
unfolding add_to_snapshot
add_to_snapshot-quiet m s =
    elim (Bool-cases (ltb u.ticker_id 8 && (not (indexes_orders u.type) || ltb u.order_id 1024))) [
      | inr f ↦ rw f stopped
      | inl f ↦ rw f (
          Ensures.bind (update_orders-Same u.type u (s.orders_by_tickers u.ticker_id) s)
            λ _ t h. next t h)
    ]
  where
    u : MeMarketUpdate
    u = m.market_update

    next :
        (t : SnapshotSynthesizer)
        → Same s t
        → Ensures
            (λ _ x. x.sent ≡ s.sent)
            (and_then
              (check_fatal (m.sequence_number == u64 (t.last_sequence_incremental_number + 1)) t)
              (λ _.
                modify (λ x. record x { last_sequence_incremental_number = m.sequence_number })))
    next t h =
        elim (Bool-cases (m.sequence_number == u64 (t.last_sequence_incremental_number + 1))) [
          | inr g ↦ rw g stopped
          | inl g ↦ rw g (done h.messages)
        ]

queue-IsQuiet :
    (r₀ r : RunningSynthesizer) (q : Run (SafeQueue MpdMarketUpdate) (Unit {0}))
    → IsQuiet r₀ r
    → Ensures (λ _ t. IsQuiet r₀ t) (put_back (λ x. record r { snapshot_queue = x }) q)
queue-IsQuiet r₀ r (ok a q) h = done h
queue-IsQuiet r₀ r (fault f) h = stopped
queue-IsQuiet r₀ r out_of_fuel h = unfinished

add_all-IsQuiet :
    (fuel : ℕ) (r₀ r : RunningSynthesizer)
    → IsQuiet r₀ r
    → Ensures (λ _ t. IsQuiet r₀ t) (add_all fuel r)
unfolding add_all
add_all-IsQuiet zero r₀ r h = unfinished
add_all-IsQuiet (suc fuel) r₀ r h =
    Ensures.branch (get_size r.snapshot_queue == 0) _ _ r (done h)
      (elim (Option-cases (get_next_read r.snapshot_queue)) [
        | inl missing ↦ Ensures.choice-none _ _ missing stopped
        | inr (m, waiting) ↦ Ensures.choice-some _ _ waiting (
            Ensures.bind
              (Ensures.lift (λ s. record r { synthesizer = s })
                (add_to_snapshot-quiet m r.synthesizer) λ _ s e. (e ∙ h.0, h.1))
              λ _ r₁ h₁.
                Ensures.bind (queue-IsQuiet r₀ r₁ (update_read_index r₁.snapshot_queue) h₁)
                  λ _ r₂ h₂. add_all-IsQuiet fuel r₀ r₂ h₂)
      ])

-- Where the clock, read after the updates of a round, is at most a minute past the last snapshot,
-- the round sends nothing and keeps the time of that snapshot, whatever updates it has processed,
-- if it ends.
pub run_round-IsQuiet :
    (fuel now later : ℕ) (r : RunningSynthesizer)
    → now ≤ r.last_snapshot_time + minute
    → Ensures (λ _ t. IsQuiet r t) (run_round fuel now later r)
unfolding run_round
run_round-IsQuiet fuel now later r h = Ensures.bind (add_all-IsQuiet fuel r r (refl, refl)) λ _ t k.
    let young : ltb minute (now - t.last_snapshot_time) ≡ false =
      ltb-false (rw (k.1) (omega arith)) in
    rw young (done k)
