-- ===== src/Exchange/FifoSequencer/Sorted.antt =====
-- In which order the requests leave exchange/order_server/FIFOSequencer.h, given what `std::sort`
-- promises: the same elements, in an order that agrees with their `operator<`.
use mathlib.Core.List.{Perm, Pairwise}
use low_latency.Prelude.{◌≡◌, ◌≤◌, ◌++◌, List, length, length-perm}
use low_latency.Common.SafeQueue.Fifo.{contents, IsValid, HasRoomFor}
use low_latency.Exchange.FifoSequencer.{RecvTimeClientRequest, FifoSequencer, sequence_and_publish}
use low_latency.Exchange.FifoSequencer.Sequence.{requests_of, sequence_and_publish_lem}

-- None comes before one that was received earlier.
abbrev pub AreInOrder : List RecvTimeClientRequest → Type 0
AreInOrder = Pairwise (λ a b. a.recv_time ≤ b.recv_time)

-- Given that the sort permutes its list and orders it by time of receipt, and that the queue of
-- the engine is well-formed and has room for what is pending, the requests that the sequencer
-- passes on are the pending ones, rearranged so that none comes before one received earlier,
-- behind all that was in the queue.
pub sequence_and_publish-AreInOrder :
    (sort : List RecvTimeClientRequest → List RecvTimeClientRequest) (s : FifoSequencer)
    → ((l : List RecvTimeClientRequest) → Perm (sort l) l)
    → ((l : List RecvTimeClientRequest) → AreInOrder (sort l))
    → IsValid s.client_requests
    → HasRoomFor (length s.pending_requests) s.client_requests
    → (rs : List RecvTimeClientRequest) × Perm rs s.pending_requests
      × AreInOrder rs
      × (contents (sequence_and_publish sort s).client_requests
          ≡ contents s.client_requests ++ requests_of rs)
sequence_and_publish-AreInOrder sort s same sorted v room =
    let passed = sequence_and_publish_lem sort s (length-perm (same s.pending_requests)) v room in
    (sort s.pending_requests, same s.pending_requests, sorted s.pending_requests, passed.passed_on)
