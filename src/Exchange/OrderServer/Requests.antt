-- ===== src/Exchange/OrderServer/Requests.antt =====
-- What `RecvCallback` of exchange/order_server/OrderServer.cpp makes of all the requests in a buffer.
use mathlib.Core.Path.{subst}
use mathlib.Core.List.{append_assoc, append-nil}
use low_latency.Prelude.{
  ℕ, ◌+◌, ◌<◌, ◌≤◌, ◌≡◌, ◌≢◌, refl, sym, ap, ◌∙◌, inl, inr, some, none, Bool-cases, List, [], ◌∷◌,
  ◌++◌, Ptr, length, length-append, ◌==◌, if◌then◌else◌, eq-true, eq-false, arith, ok, and_then-ok,
  Option-cases,
}
use low_latency.Prelude.Ensures.{Returns, returns, total_after, total_mono}
use low_latency.Common.Types.{u64}
use low_latency.Common.Messages.{OmClientRequest}
use low_latency.Exchange.FifoSequencer.{RecvTimeClientRequest}
use low_latency.Exchange.OrderServer.{OrderServer, bind_client, recv_callback}
use low_latency.Exchange.OrderServer.Admission.{
  Owns, bind_client-socket, admitted, receive_request-admitted, receive_request-refused,
}

-- The requests that carry, among themselves, the numbers from `n` on, each with the time of receipt;
-- and the number that is expected after them.
abbrev pub in_sequence : (rx_time n : ℕ) → List OmClientRequest → List RecvTimeClientRequest
in_sequence rx_time n [] = []
in_sequence rx_time n (r ∷ rs) =
    if r.sequence_number == n
    then record { recv_time = rx_time; client_request = r.client_request }
      ∷ in_sequence rx_time (u64 (n + 1)) rs
    else in_sequence rx_time n rs

abbrev pub number_after : (n : ℕ) → List OmClientRequest → ℕ
number_after n [] = n
number_after n (r ∷ rs) =
    if r.sequence_number == n then number_after (u64 (n + 1)) rs else number_after n rs

-- The socket of the client after them.
abbrev pub socket_after : (socket : ℕ) → Ptr → List OmClientRequest → Ptr
socket_after socket p [] = p
socket_after socket p (r ∷ rs) = some socket

-- All requests are from one client.
abbrev pub AreFrom : (client : ℕ) → List OmClientRequest → Type 0
AreFrom client [] = Unit
AreFrom client (r ∷ rs) = (r.client_request.client_id ≡ client) × AreFrom client rs

-- The requests `qs` of the client wait behind those before, its next number is `n`, its socket is
-- `p`, and all that is not the client's is as it was.
pub record Received (client : ℕ) (qs : List RecvTimeClientRequest) (n : ℕ) (p : Ptr)
    (s t : OrderServer) : Type 0 where
  pub pending : t.sequencer.pending_requests ≡ s.sequencer.pending_requests ++ qs
  pub number : t.client_id_to_next_request_sequence_number client ≡ n
  pub known : t.client_id_to_socket client ≡ p
  pub same_queue : t.sequencer.client_requests ≡ s.sequencer.client_requests
  pub same_responses : t.client_responses ≡ s.client_responses
  pub same_outbound : t.outbound ≡ s.outbound
  pub same_numbers :
      t.client_id_to_next_response_sequence_number ≡ s.client_id_to_next_response_sequence_number
  pub other_socket : (c : ℕ) → c ≢ client → t.client_id_to_socket c ≡ s.client_id_to_socket c
  pub other_number :
      (c : ℕ)
      → c ≢ client
      → t.client_id_to_next_request_sequence_number c
        ≡ s.client_id_to_next_request_sequence_number c

module _ (socket client rx_time : ℕ) where
  known_on :
      (s : OrderServer)
      → Owns socket client s
      → (k : ℕ) → s.client_id_to_socket client ≡ some k
      → s.client_id_to_socket client ≡ some socket
  known_on s (inl e) k f = absurd (none-ne-some (sym e ∙ f))
    where
      none-ne-some : (◌≡◌ {A = Ptr} none (some k)) → ⊥
      none-ne-some h = cc
  known_on s (inr e) k f = e

  bound-Received :
      (s : OrderServer)
      → Owns socket client s
      → Received client []
          (s.client_id_to_next_request_sequence_number client)
          (some socket)
          s
          (bind_client socket client s)
  unfolding bind_client
  bound-Received s own = elim (Option-cases (s.client_id_to_socket client)) [
    | inl e ↦ rw e (record {
      pending = sym (append-nil s.sequencer.pending_requests);
      number = refl;
      known = rw (eq-true {a = client} refl) refl;
      same_queue = refl;
      same_responses = refl;
      same_outbound = refl;
      same_numbers = refl;
      other_socket = λ c ne. rw (eq-false ne) refl;
      other_number = λ c ne. refl;
    })
    | inr (k, e) ↦ rw e (record {
      pending = sym (append-nil s.sequencer.pending_requests);
      number = refl;
      known = known_on s own k e;
      same_queue = refl;
      same_responses = refl;
      same_outbound = refl;
      same_numbers = refl;
      other_socket = λ c ne. refl;
      other_number = λ c ne. refl;
    })
  ]

  admitted-Received :
      (r : OmClientRequest) (s : OrderServer)
      → Owns socket client s
      → r.client_request.client_id ≡ client
      → Received client
          (record { recv_time = rx_time; client_request = r.client_request } ∷ [])
          (u64 (s.client_id_to_next_request_sequence_number client + 1))
          (some socket)
          s
          (admitted socket rx_time r s)
  admitted-Received r s own e =
      let b = bound-Received s own in
      record {
        pending = refl;
        number =
            rw (eq-true (sym e))
              (ap (λ c. u64 (s.client_id_to_next_request_sequence_number c + 1)) e);
        known =
            ap (λ c. (bind_client socket c s).client_id_to_socket client) e
            ∙ bind_client-socket socket client s own;
        same_queue = refl;
        same_responses = ap (λ c. (bind_client socket c s).client_responses) e ∙ b.same_responses;
        same_outbound = ap (λ c. (bind_client socket c s).outbound) e ∙ b.same_outbound;
        same_numbers =
            ap (λ c. (bind_client socket c s).client_id_to_next_response_sequence_number) e
            ∙ b.same_numbers;
        other_socket = λ c ne.
            ap (λ x. (bind_client socket x s).client_id_to_socket c) e ∙ b.other_socket c ne;
        other_number = λ c ne. rw (e, eq-false ne) refl;
      }

  Received-trans :
      (qs ps : List RecvTimeClientRequest) (n m : ℕ) (p q : Ptr) (s t u : OrderServer)
      → Received client qs n p s t
      → Received client ps m q t u
      → Received client (qs ++ ps) m q s u
  Received-trans qs ps n m p q s t u a b = record {
    pending =
        b.pending ∙ ap (λ l. l ++ ps) a.pending ∙ append_assoc s.sequencer.pending_requests qs ps;
    number = b.number;
    known = b.known;
    same_queue = b.same_queue ∙ a.same_queue;
    same_responses = b.same_responses ∙ a.same_responses;
    same_outbound = b.same_outbound ∙ a.same_outbound;
    same_numbers = b.same_numbers ∙ a.same_numbers;
    other_socket = λ c ne. b.other_socket c ne ∙ a.other_socket c ne;
    other_number = λ c ne. b.other_number c ne ∙ a.other_number c ne;
  }

  nothing-Received :
      (s : OrderServer)
      → Received client []
          (s.client_id_to_next_request_sequence_number client)
          (s.client_id_to_socket client)
          s
          s
  nothing-Received s = record {
    pending = sym (append-nil s.sequencer.pending_requests);
    number = refl;
    known = refl;
    same_queue = refl;
    same_responses = refl;
    same_outbound = refl;
    same_numbers = refl;
    other_socket = λ c ne. refl;
    other_number = λ c ne. refl;
  }

  -- A client that is known on the socket stays so.
  settled :
      (rs : List OmClientRequest) (s t : OrderServer) {qs : List RecvTimeClientRequest} {n : ℕ}
      → s.client_id_to_socket client ≡ some socket
      → Received client qs n (socket_after socket (s.client_id_to_socket client) rs) s t
      → Received client qs n (some socket) s t
  settled [] s t {qs} {n} e h = subst (λ p. Received client qs n p s t) e h
  settled (r ∷ rs) s t e h = h

  -- Whatever numbers they carry, the requests of a client in range on its own socket, or of a new
  -- client, are received without a fault while the waiting ones have room for them. Exactly those
  -- join the waiting ones that carry, among themselves, the expected numbers one after the other, in
  -- order and with their time of receipt; the number after the last of them is then expected; the
  -- client is known on the socket if any request has come; and nothing else changes.
  pub recv_callback-Received :
      (rs : List OmClientRequest) (s : OrderServer)
      → client < 256
      → Owns socket client s
      → AreFrom client rs
      → length s.sequencer.pending_requests + length rs ≤ 1024
      → Returns
          (λ _ t.
            let n = s.client_id_to_next_request_sequence_number client in
            Received client
              (in_sequence rx_time n rs)
              (number_after n rs)
              (socket_after socket (s.client_id_to_socket client) rs)
              s
              t)
          (recv_callback socket rx_time rs s)
  unfolding recv_callback
  recv_callback-Received [] s small own from room = returns (nothing-Received s)
  recv_callback-Received (r ∷ rs) s small own (e, from) room =
      let n = s.client_id_to_next_request_sequence_number client in
      let in_range : r.client_request.client_id < 256 = rw e small in
      elim (Bool-cases (r.sequence_number == n)) [
        | inl same ↦
            let one = admitted-Received r s own e in
            let q : RecvTimeClientRequest = record {
              recv_time = rx_time;
              client_request = r.client_request;
            } in
            let expected : s.client_id_to_next_request_sequence_number r.client_request.client_id
                ≡ r.sequence_number =
              ap s.client_id_to_next_request_sequence_number e ∙ ground (arith, same) in
            rw same (
              total_after _
                (receive_request-admitted socket rx_time r s in_range
                  (subst (λ c. Owns socket c s) (sym e) own) expected (omega (arith, room)))
                (total_mono
                  (recv_callback-Received rs (admitted socket rx_time r s) small (inr one.known)
                    from
                    (omega (
                      arith,
                      room,
                      ap length one.pending,
                      length-append s.sequencer.pending_requests (q ∷ []),
                    )))
                  λ _ t rest.
                    Received-trans (q ∷ []) _ _ _ (some socket) (some socket) s
                      (admitted socket rx_time r s) t one
                      (subst
                        (λ k.
                          Received client (in_sequence rx_time k rs) (number_after k rs)
                            (some socket) (admitted socket rx_time r s) t)
                        one.number (settled rs (admitted socket rx_time r s) t one.known rest))))
        | inr other ↦
            let one = bound-Received s own in
            rw other (
              total_after _
                (receive_request-refused socket rx_time r s in_range
                    (inr (rw e λ h. ground (arith, h, other)))
                  ∙ ap (λ c. ok tt (bind_client socket c s)) e)
                (total_mono
                  (recv_callback-Received rs (bind_client socket client s) small (inr one.known)
                    from
                    (omega (
                      arith,
                      room,
                      ap length one.pending,
                      length-append s.sequencer.pending_requests [],
                    )))
                  λ _ t rest.
                    Received-trans [] _ _ _ (some socket) (some socket) s
                      (bind_client socket client s) t one
                      (subst
                        (λ k.
                          Received client (in_sequence rx_time k rs) (number_after k rs)
                            (some socket) (bind_client socket client s) t)
                        one.number (settled rs (bind_client socket client s) t one.known rest))))
      ]

-- Each request is from a client in range that is known on another socket.
abbrev pub AreElsewhere : (socket : ℕ) → OrderServer → List OmClientRequest → Type 0
AreElsewhere socket s [] = Unit
AreElsewhere socket s (r ∷ rs) =
    (r.client_request.client_id < 256)
    × ((other : ℕ) × (s.client_id_to_socket r.client_request.client_id ≡ some other)
        × (other ≢ socket))
    × AreElsewhere socket s rs

bind_client-other :
    (socket other client : ℕ) (s : OrderServer)
    → s.client_id_to_socket client ≡ some other
    → bind_client socket client s ≡ s
unfolding bind_client
bind_client-other socket other client s e = rw e refl

-- No client can send for another: whatever requests come on a socket, each in the name of a client
-- in range that is known on a different one, the server is exactly as it was.
pub recv_callback-AreElsewhere :
    (socket rx_time : ℕ) (rs : List OmClientRequest) (s : OrderServer)
    → AreElsewhere socket s rs
    → recv_callback socket rx_time rs s ≡ ok tt s
unfolding recv_callback
recv_callback-AreElsewhere socket rx_time [] s h = refl
recv_callback-AreElsewhere socket rx_time (r ∷ rs) s (small, (other, e, ne), h) =
    and_then-ok _
      (receive_request-refused socket rx_time r s small (inl (other, e, ne))
        ∙ ap (ok tt) (bind_client-other socket other r.client_request.client_id s e))
      (recv_callback-AreElsewhere socket rx_time rs s h)
