-- ===== src/Exchange/OrderServer.antt =====
-- exchange/order_server/OrderServer.h and OrderServer.cpp: requests arrive on TCP sockets and are
-- checked, responses leave on the socket of their client. A socket is a number; what it receives
-- comes as whole messages, what is sent stands in a list of packets for each socket.
pub mod Admission
pub mod Delivery
pub mod Requests
use low_latency.Prelude.{
  ℕ, zero, suc, ◌+◌, Bool, true, false, not, none, some, List, [], ◌∷◌, ◌++◌, ◌==◌, ltb, ◌&&◌,
  if◌then◌else◌, update, Ptr, fault, Cmd, ok, out_of_fuel, out_of_range, null_pointer, pure, stop,
  get, modify, check_fatal, when, within, ◌>>=◌, ◌>>◌,
}
use low_latency.Common.Types.{u64}
use low_latency.Common.Limits.{me_max_num_clients}
use low_latency.Common.Messages.{OmClientRequest, MeClientResponse}
use low_latency.Common.SafeQueue.{SafeQueue, get_next_read, get_size, update_read_index}
use low_latency.Ladder.{same_ptr, is_null}
use low_latency.Exchange.FifoSequencer.{
  FifoSequencer, RecvTimeClientRequest, add_client_request, sequence_and_publish,
}

-- What `TCPSocket::Send` is called with.
pub data Packet : Type 0 where
  sequence : ℕ → Packet
  response : MeClientResponse → Packet

pub record OrderServer : Type 0 where
  pub client_id_to_socket : ℕ → Ptr
  pub client_id_to_next_response_sequence_number : ℕ → ℕ
  pub client_id_to_next_request_sequence_number : ℕ → ℕ
  pub client_responses : SafeQueue MeClientResponse
  pub sequencer : FifoSequencer
  pub outbound : ℕ → List Packet

-- The constructor's three `fill` calls.
unfoldable pub make_server : SafeQueue MeClientResponse → FifoSequencer → OrderServer
make_server responses sequencer = record {
  client_id_to_socket = λ _. none;
  client_id_to_next_response_sequence_number = λ _. 1;
  client_id_to_next_request_sequence_number = λ _. 1;
  client_responses = responses;
  sequencer = sequencer;
  outbound = λ _. [];
}

-- The first test of a request: an unknown client gets the socket of its first request.
unfoldable pub bind_client : (socket client : ℕ) → OrderServer → OrderServer
bind_client socket client s =
    if is_null (s.client_id_to_socket client)
    then record s { client_id_to_socket = update s.client_id_to_socket client (some socket) }
    else s

-- The body of the loop of `RecvCallback`; `continue` is a branch that changes nothing more.
unfoldable pub receive_request : (socket rx_time : ℕ) → OmClientRequest → Cmd OrderServer (Unit {0})
unfolding bind_client add_client_request
receive_request socket rx_time r s =
    let client = r.client_request.client_id in
    if ltb client me_max_num_clients
    then (do
      modify (bind_client socket client)
      t ← get
      let expected = t.client_id_to_next_request_sequence_number client
      when
          (same_ptr (t.client_id_to_socket client) (some socket) && (expected == r.sequence_number))
          (do
            modify (λ u. record u {
              client_id_to_next_request_sequence_number =
                  update u.client_id_to_next_request_sequence_number client (u64 (expected + 1));
            })
            within (λ u. u.sequencer) (λ q u. record u { sequencer = q })
                (add_client_request rx_time r.client_request)))
        s
    else fault out_of_range

-- `RecvCallback`: every whole message in the buffer, in order.
unfoldable pub recv_callback :
    (socket rx_time : ℕ) → List OmClientRequest → Cmd OrderServer (Unit {0})
unfolding receive_request
recv_callback socket rx_time [] = pure tt
recv_callback socket rx_time (r ∷ rs) =
    receive_request socket rx_time r >> recv_callback socket rx_time rs

module _ (sort : List RecvTimeClientRequest → List RecvTimeClientRequest) where
  -- `RecvFinishCallback`
  unfoldable pub recv_finish_callback : OrderServer → OrderServer
  unfolding sequence_and_publish
  recv_finish_callback s = record s { sequencer = sequence_and_publish sort s.sequencer }

-- The body of the inner loop of `Run`, for a response that is there.
unfoldable pub send_response : MeClientResponse → Cmd OrderServer (Unit {0})
unfolding update_read_index
send_response r s =
    if ltb r.client_id me_max_num_clients
    then (do
      check_fatal (not (is_null (s.client_id_to_socket r.client_id)))
      send_on (s.client_id_to_socket r.client_id)
          (sequence (s.client_id_to_next_response_sequence_number r.client_id) ∷ response r ∷ [])
      within (λ t. t.client_responses) (λ q t. record t { client_responses = q }) update_read_index
      modify (λ t. record t {
        client_id_to_next_response_sequence_number =
            update t.client_id_to_next_response_sequence_number r.client_id
              (u64 (t.client_id_to_next_response_sequence_number r.client_id + 1));
      }))
        s
    else fault out_of_range
  where
    send_on : Ptr → List Packet → Cmd OrderServer (Unit {0})
    send_on none packets = stop null_pointer
    send_on (some i) packets =
        modify (λ t. record t { outbound = update t.outbound i (t.outbound i ++ packets) })

-- `while (mClientResponses->GetSize() != 0)`, on fuel.
unfoldable pub send_responses : ℕ → Cmd OrderServer (Unit {0})
unfolding get_size get_next_read send_response
send_responses zero = λ _. out_of_fuel
send_responses (suc fuel) = do
  s ← get
  elim (get_size s.client_responses == 0) [
    | true ↦ pure tt
    | false ↦ elim (get_next_read s.client_responses) [
      | none ↦ stop null_pointer
      | some r ↦ send_response r >> send_responses fuel
    ]
  ]
