-- ===== src/Exchange/OrderServer/Admission.antt =====
-- Which requests exchange/order_server/OrderServer.cpp passes on.
use low_latency.Prelude.{
  ℕ, ◌+◌, ◌<◌, ◌≡◌, refl, ◌≢◌, ◌⊎◌, inl, inr, ◌&&◌, none, some, Bool-cases, List, [], ◌∷◌, ◌++◌,
  length, ◌==◌, ltb, ltb-true, eq-true, update, arith, Run, ok, fault, put_back, out_of_fuel,
}
use low_latency.Prelude.Ensures.{Ensures, done, stopped, unfinished}
use low_latency.Prelude.Ensures
use low_latency.Common.Types.{u64}
use low_latency.Common.Messages.{OmClientRequest}
use low_latency.Ladder.{same_ptr}
use low_latency.Exchange.FifoSequencer.{FifoSequencer, add_client_request}
use low_latency.Exchange.OrderServer.{OrderServer, bind_client, receive_request, recv_callback}

-- The client is new or known on this socket.
abbrev pub Owns : (socket client : ℕ) → OrderServer → Type 0
Owns socket client s =
    (s.client_id_to_socket client ≡ none) ⊎ (s.client_id_to_socket client ≡ some socket)

pub bind_client-socket :
    (socket client : ℕ) (s : OrderServer)
    → Owns socket client s
    → (bind_client socket client s).client_id_to_socket client ≡ some socket
unfolding bind_client
bind_client-socket socket client s (inl e) = rw (e, eq-true {a = client} refl) refl
bind_client-socket socket client s (inr e) = rw e e

abbrev pub admitted : (socket rx_time : ℕ) → OmClientRequest → OrderServer → OrderServer
admitted socket rx_time r s =
    let client = r.client_request.client_id in
    let bound = bind_client socket client s in
    record bound {
      client_id_to_next_request_sequence_number =
          update s.client_id_to_next_request_sequence_number client
            (u64 (s.client_id_to_next_request_sequence_number client + 1));
      sequencer = record (s.sequencer) {
        pending_requests =
            s.sequencer.pending_requests
            ++ (record { recv_time = rx_time; client_request = r.client_request } ∷ []);
      };
    }

-- A request of a client in range that is new or known on the socket, with the number that is
-- expected, while there is room for it.
pub receive_request-admitted :
    (socket rx_time : ℕ) (r : OmClientRequest) (s : OrderServer)
    → r.client_request.client_id < 256
    → Owns socket r.client_request.client_id s
    → s.client_id_to_next_request_sequence_number r.client_request.client_id ≡ r.sequence_number
    → length s.sequencer.pending_requests < 1024
    → receive_request socket rx_time r s ≡ ok tt (admitted socket rx_time r s)
unfolding receive_request add_client_request bind_client
receive_request-admitted socket rx_time r s hc (inl e) hn room =
    ground (arith, e, eq-true {a = r.client_request.client_id} refl, hn, hc, room)
receive_request-admitted socket rx_time r s hc (inr e) hn room =
    rw
      (
        ltb-true hc,
        e,
        e,
        eq-true {a = socket} refl,
        hn,
        eq-true {a = r.sequence_number} refl,
        ltb-true room,
      )
      refl

-- A request of a client in range on another socket than the client's, or out of sequence.
pub receive_request-refused :
    (socket rx_time : ℕ) (r : OmClientRequest) (s : OrderServer)
    → r.client_request.client_id < 256
    → ((other : ℕ) × (s.client_id_to_socket r.client_request.client_id ≡ some other)
        × (other ≢ socket))
      ⊎ (s.client_id_to_next_request_sequence_number r.client_request.client_id ≢ r.sequence_number)
    → receive_request socket rx_time r s ≡ ok tt (bind_client socket r.client_request.client_id s)
unfolding receive_request bind_client
receive_request-refused socket rx_time r s hc (inl (other, e, ne)) = ground (arith, e, ne, hc)
receive_request-refused socket rx_time r s hc (inr ne) = ground (arith, ne, hc)

bind_client-known :
    (socket other client known : ℕ) (s : OrderServer)
    → s.client_id_to_socket client ≡ some known
    → (bind_client socket other s).client_id_to_socket client ≡ some known
unfolding bind_client
bind_client-known socket other client known s h = ground (arith, h)

receive_request-socket :
    (socket rx_time : ℕ) (r : OmClientRequest) (client known : ℕ) (s : OrderServer)
    → s.client_id_to_socket client ≡ some known
    → Ensures
        (λ _ t. t.client_id_to_socket client ≡ some known)
        (receive_request socket rx_time r s)
unfolding receive_request
receive_request-socket socket rx_time r client known s h =
    elim (Bool-cases (ltb r.client_request.client_id 256)) [
      | inr f ↦ rw f stopped
      | inl f ↦ rw f (
          Ensures.branch_when
            (same_ptr (bound.client_id_to_socket sender) (some socket)
              && (bound.client_id_to_next_request_sequence_number sender == r.sequence_number))
            _ bound stays (kept _ (add_client_request rx_time r.client_request bound.sequencer)))
    ]
  where
    sender : ℕ
    sender = r.client_request.client_id

    bound : OrderServer
    bound = bind_client socket sender s

    stays : bound.client_id_to_socket client ≡ some known
    stays = bind_client-known socket sender client known s h

    kept :
        (numbers : ℕ → ℕ) (x : Run FifoSequencer (Unit {0}))
        → Ensures
            (λ _ t. t.client_id_to_socket client ≡ some known)
            (put_back
              (λ q. record bound {
                client_id_to_next_request_sequence_number = numbers;
                sequencer = q;
              })
              x)
    kept n (ok a q) = done stays
    kept n (fault f) = stopped
    kept n out_of_fuel = unfinished

-- Through any requests on any socket that the server gets through, a client that is known on a
-- socket stays on it.
pub recv_callback-socket :
    (socket rx_time : ℕ) (rs : List OmClientRequest) (client known : ℕ) (s : OrderServer)
    → s.client_id_to_socket client ≡ some known
    → Ensures (λ _ t. t.client_id_to_socket client ≡ some known) (recv_callback socket rx_time rs s)
unfolding recv_callback
recv_callback-socket socket rx_time [] client known s h = done h
recv_callback-socket socket rx_time (r ∷ rs) client known s h =
    Ensures.bind (receive_request-socket socket rx_time r client known s h)
      λ _ t k. recv_callback-socket socket rx_time rs client known t k
