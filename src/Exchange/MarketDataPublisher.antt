-- ===== src/Exchange/MarketDataPublisher.antt =====
-- exchange/market_data/MarketDataPublisher.h and MarketDataPublisher.cpp: market updates are
-- numbered, sent, and passed on to the snapshot thread.
pub mod Numbering
use low_latency.Prelude.{
  ℕ, zero, suc, ◌+◌, true, false, none, some, List, [], ◌∷◌, ◌++◌, ◌==◌, Cmd, out_of_fuel,
  null_pointer, pure, stop, get, modify, within, ◌>>=◌, ◌>>◌,
}
use low_latency.Common.Types.{u64}
use low_latency.Common.Messages.{MeMarketUpdate, MpdMarketUpdate}
use low_latency.Common.SafeQueue.{SafeQueue, push, get_next_read, get_size, update_read_index}

-- What `MCastSocket::Send` is called with. The second call passes `&marketUpdate`, the address of
-- the local pointer and not of the update, so it sends bytes of the stack.
pub data Packet : Type 0 where
  sequence : ℕ → Packet
  stack_bytes : Packet

pub record MarketDataPublisher : Type 0 where
  pub next_sequence_number : ℕ
  pub market_update_queue : SafeQueue MeMarketUpdate
  pub snapshot_queue : SafeQueue MpdMarketUpdate
  pub outbound : List Packet

-- The body of the inner loop of `Run`. The update is copied to the snapshot queue after the read
-- index has moved on; its slot still holds it.
unfoldable pub publish_update : MeMarketUpdate → Cmd MarketDataPublisher (Unit {0})
unfolding update_read_index
publish_update u = do
  modify (λ s. record s {
    outbound = s.outbound ++ (sequence s.next_sequence_number ∷ stack_bytes ∷ []);
  })
  within (λ s. s.market_update_queue) (λ q s. record s { market_update_queue = q })
      update_read_index
  modify (λ s. record s {
    snapshot_queue =
        push (record { sequence_number = s.next_sequence_number; market_update = u })
          s.snapshot_queue;
    next_sequence_number = u64 (s.next_sequence_number + 1);
  })

-- `while (mMarketUpdateQueue->GetSize() != 0)`, on fuel.
unfoldable pub publish_updates : ℕ → Cmd MarketDataPublisher (Unit {0})
unfolding get_size get_next_read publish_update
publish_updates zero = λ _. out_of_fuel
publish_updates (suc fuel) = do
  s ← get
  elim (get_size s.market_update_queue == 0) [
    | true ↦ pure tt
    | false ↦ elim (get_next_read s.market_update_queue) [
      | none ↦ stop null_pointer
      | some u ↦ publish_update u >> publish_updates fuel
    ]
  ]
