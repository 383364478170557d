-- ===== src/Trading/OrderGateway.antt =====
-- trading/order_gateway/OrderGateway.h and OrderGateway.cpp: requests go to the exchange and
-- responses come back, each numbered.
pub mod Sending
pub mod Sequence
use low_latency.Prelude.{
  ℕ, zero, suc, ◌+◌, true, false, none, some, List, [], ◌∷◌, ◌++◌, ◌==◌, ◌&&◌, if◌then◌else◌, Cmd,
  out_of_fuel, null_pointer, pure, stop, get, modify, within, ◌>>=◌, ◌>>◌,
}
use low_latency.Common.Types.{u64}
use low_latency.Common.Messages.{MeClientRequest, MeClientResponse, OmClientResponse}
use low_latency.Common.SafeQueue.{SafeQueue, push, get_next_read, get_size, update_read_index}

-- What `TCPSocket::Send` is called with. The second call passes `&request`, the address of the
-- local pointer and not of the request, so it sends bytes of the stack.
pub data Packet : Type 0 where
  sequence : ℕ → Packet
  stack_bytes : Packet

pub record OrderGateway : Type 0 where
  pub client_id : ℕ
  pub requests : SafeQueue MeClientRequest
  pub responses : SafeQueue MeClientResponse
  pub next_outgoing_sequence_number : ℕ
  pub next_expected_sequence_number : ℕ
  pub outbound : List Packet

-- The inner loop of `Run`, `while (mRequests->GetSize() > 0)`, on fuel.
unfoldable pub send_requests : ℕ → Cmd OrderGateway (Unit {0})
unfolding get_size get_next_read update_read_index
send_requests zero = λ _. out_of_fuel
send_requests (suc fuel) = do
  s ← get
  elim (get_size s.requests == 0) [
    | true ↦ pure tt
    | false ↦ elim (get_next_read s.requests) [
      | none ↦ stop null_pointer
      | some r ↦ do
        modify (λ t. record t {
          outbound = t.outbound ++ (sequence t.next_outgoing_sequence_number ∷ stack_bytes ∷ []);
        })
        within (λ t. t.requests) (λ q t. record t { requests = q }) update_read_index
        modify (λ t. record t {
          next_outgoing_sequence_number = u64 (t.next_outgoing_sequence_number + 1);
        })
        send_requests fuel
    ]
  ]

-- The body of the loop of `RecvCallback`: two tests with `continue`, then the response is queued.
unfoldable pub receive_response : OmClientResponse → OrderGateway → OrderGateway
receive_response r s =
    if (r.client_response.client_id == s.client_id)
      && (r.sequence_number == s.next_expected_sequence_number)
    then record s {
      next_expected_sequence_number = u64 (s.next_expected_sequence_number + 1);
      responses = push r.client_response s.responses;
    }
    else s

-- `RecvCallback`: every whole message in the buffer, in order.
unfoldable pub recv_callback : List OmClientResponse → OrderGateway → OrderGateway
unfolding receive_response
recv_callback [] s = s
recv_callback (r ∷ rs) s = recv_callback rs (receive_response r s)
