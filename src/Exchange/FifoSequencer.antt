-- ===== src/Exchange/FifoSequencer.antt =====
-- exchange/order_server/FIFOSequencer.h: requests wait with their receive times, and go to the
-- matching engine sorted by them. `std::sort` is a parameter. The array of waiting requests is the
-- list of its first `mPendingSize` elements; the constructor does not set that number, so a new
-- sequencer has any list.
pub mod Sequence
pub mod Sorted
use low_latency.Prelude.{
  ℕ, List, [], ◌∷◌, ◌++◌, ltb, length, Cmd, get, modify, check_fatal, ◌>>=◌, ◌>>◌,
}
use low_latency.Common.Limits.{me_max_pending_requests}
use low_latency.Common.Messages.{MeClientRequest}
use low_latency.Common.SafeQueue.{SafeQueue, push}

pub record RecvTimeClientRequest : Type 0 where
  pub recv_time : ℕ
  pub client_request : MeClientRequest

pub record FifoSequencer : Type 0 where
  pub pending_requests : List RecvTimeClientRequest
  pub client_requests : SafeQueue MeClientRequest

unfoldable pub add_client_request : (recv_time : ℕ) → MeClientRequest → Cmd FifoSequencer (Unit {0})
add_client_request recv_time request = do
  s ← get
  check_fatal (ltb (length s.pending_requests) me_max_pending_requests)
  modify (λ t. record t {
    pending_requests =
        t.pending_requests ++ (record { recv_time = recv_time; client_request = request } ∷ []);
  })

-- The `for` of `SequenceAndPublish`.
unfoldable pub publish :
    List RecvTimeClientRequest → SafeQueue MeClientRequest → SafeQueue MeClientRequest
publish [] q = q
publish (r ∷ rs) q = publish rs (push r.client_request q)

module _ (sort : List RecvTimeClientRequest → List RecvTimeClientRequest) where
  -- With nothing pending the code returns before it sorts.
  unfoldable pub sequence_and_publish : FifoSequencer → FifoSequencer
  unfolding publish
  sequence_and_publish s = elim s.pending_requests [
    | [] ↦ s
    | r ∷ rs ↦ record {
      pending_requests = [];
      client_requests = publish (sort (r ∷ rs)) s.client_requests;
    }
  ]
