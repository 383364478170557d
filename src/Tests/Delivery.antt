-- ===== src/Tests/Delivery.antt =====
-- The theorems on what the sequencer and the order server pass on, at small queues.
use native.Mathlib.Bridge.{le_prop}
use mathlib.Core.List.{Perm, Pairwise, Mem, forall_mem-cons, Pairwise-singleton}
use mathlib.Core.List.Perm
use low_latency.Prelude.{
  ◌≡◌, ◌≤◌, refl, List, [], ◌∷◌, ◌++◌, ltb, if◌then◌else◌, Bool-cases, inl, inr, arith,
}
use low_latency.Prelude.Ensures.{Returns}
use low_latency.Common.Messages.{MeClientResponse}
use low_latency.Common.SafeQueue.{SafeQueue, make}
use low_latency.Common.SafeQueue.Fifo.{contents, make-IsValid}
use low_latency.Exchange.FifoSequencer.{RecvTimeClientRequest, FifoSequencer, sequence_and_publish}
use low_latency.Exchange.FifoSequencer.Sequence.{requests_of}
use low_latency.Exchange.FifoSequencer.Sorted.{AreInOrder, sequence_and_publish-AreInOrder}
use low_latency.Exchange.OrderServer.{OrderServer, make_server, bind_client, send_responses}
use low_latency.Exchange.OrderServer.Delivery.{decode, send_responses-recv_callback}
use low_latency.Trading.OrderGateway.{OrderGateway, recv_callback}
use low_latency.Tests.Data.{buy_request, requests}
use low_latency.Tests.Client.{request, answer}

-- Sorting by insertion.
abbrev insert : RecvTimeClientRequest → List RecvTimeClientRequest → List RecvTimeClientRequest
insert r [] = r ∷ []
insert r (s ∷ ss) = if ltb s.recv_time r.recv_time then s ∷ insert r ss else r ∷ s ∷ ss

abbrev sort : List RecvTimeClientRequest → List RecvTimeClientRequest
sort [] = []
sort (r ∷ rs) = insert r (sort rs)

abbrev sequencer : FifoSequencer
sequencer = record {
  pending_requests =
      record { recv_time = 9; client_request = record buy_request { order_id = 5 } }
      ∷ record { recv_time = 7; client_request = buy_request }
      ∷ [];
  client_requests = requests;
}

abbrev IsBefore : RecvTimeClientRequest → List RecvTimeClientRequest → Type 0
IsBefore r rs = (x : RecvTimeClientRequest) → Mem x rs → r.recv_time ≤ x.recv_time

IsBefore-cons :
    (r s : RecvTimeClientRequest) (rs : List RecvTimeClientRequest)
    → r.recv_time ≤ s.recv_time
    → IsBefore r rs
    → IsBefore r (s ∷ rs)
IsBefore-cons r s rs p h = (forall_mem-cons (λ x. le_prop)).1 (p, h)

insert-perm :
    (r : RecvTimeClientRequest) (l : List RecvTimeClientRequest) → Perm (insert r l) (r ∷ l)
insert-perm r [] = Perm.rfl
insert-perm r (s ∷ ss) = elim (Bool-cases (ltb s.recv_time r.recv_time)) [
  | inl e ↦ rw e (Perm.trans (Perm.cons s (insert-perm r ss)) (Perm.swap r s ss))
  | inr e ↦ rw e Perm.rfl
]

sort-perm : (l : List RecvTimeClientRequest) → Perm (sort l) l
sort-perm [] = Perm.rfl
sort-perm (r ∷ rs) = Perm.trans (insert-perm r (sort rs)) (Perm.cons r (sort-perm rs))

insert-AreInOrder :
    (r : RecvTimeClientRequest) {l : List RecvTimeClientRequest}
    → AreInOrder l
    → AreInOrder (insert r l)
insert-AreInOrder r Pairwise.nil = Pairwise-singleton _ r
insert-AreInOrder r (Pairwise.cons {a = s} {l = ss} below h) =
    elim (Bool-cases (ltb s.recv_time r.recv_time)) [
      | inl e ↦ rw e (
          Pairwise.cons
            (λ x m.
              IsBefore-cons s r ss (ground (arith, e)) below x
                ((Perm.mem_iff (insert-perm r ss)).0 m))
            (insert-AreInOrder r h))
      | inr e ↦
          let first : r.recv_time ≤ s.recv_time = ground (arith, e) in
          rw e (
            Pairwise.cons (IsBefore-cons r s ss first λ x m. omega (arith, first, below x m))
              (Pairwise.cons below h))
    ]

sort-AreInOrder : (l : List RecvTimeClientRequest) → AreInOrder (sort l)
sort-AreInOrder [] = Pairwise.nil
sort-AreInOrder (r ∷ rs) = insert-AreInOrder r (sort-AreInOrder rs)

sequence_and_publish-AreInOrder_example :
    (rs : List RecvTimeClientRequest) × Perm rs sequencer.pending_requests
    × AreInOrder rs
    × (contents (sequence_and_publish sort sequencer).client_requests
        ≡ contents sequencer.client_requests ++ requests_of rs)
sequence_and_publish-AreInOrder_example =
    sequence_and_publish-AreInOrder sort sequencer sort-perm sort-AreInOrder (ground arith)
      (omega arith)

-- Two answers wait for the client 3, whose socket is 9.
abbrev two_answers : SafeQueue MeClientResponse
two_answers = record {
  store = λ _. answer;
  size = 8;
  next_write_index = 1;
  next_read_index = 7;
  num_elements = 2;
}

abbrev server : OrderServer
server =
    bind_client 9 3
      (make_server two_answers (record { pending_requests = []; client_requests = requests }))

abbrev gateway : OrderGateway
gateway = record {
  client_id = 3;
  requests = make 8 request;
  responses = make 8 answer;
  next_outgoing_sequence_number = 1;
  next_expected_sequence_number = 1;
  outbound = [];
}

send_responses-recv_callback_example :
    Returns
      (λ _ t.
        contents (recv_callback (decode (t.outbound 9)) gateway).responses
        ≡ contents gateway.responses ++ (answer ∷ answer ∷ []))
      (send_responses 3 server)
unfolding make make_server bind_client
send_responses-recv_callback_example =
    send_responses-recv_callback 3 9 (answer ∷ answer ∷ []) 2 server gateway (omega arith) refl refl
      (ground arith) refl (refl, (refl, tt)) (omega arith) refl refl
      (make-IsValid 8 answer (omega arith) (omega arith)) (omega arith)
