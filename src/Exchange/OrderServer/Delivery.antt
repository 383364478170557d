-- ===== src/Exchange/OrderServer/Delivery.antt =====
-- Responses from exchange/order_server/OrderServer.cpp to trading/order_gateway/OrderGateway.cpp: what
-- one writes to the socket of a client, the other reads.
use mathlib.Core.List.{append_assoc, append-nil}
use mathlib.Core.Path.{subst}
use low_latency.Prelude.{
  ℕ, zero, suc, ◌+◌, ◌≡◌, ◌<◌, ◌≤◌, refl, sym, ap, ◌∙◌, true, false, some, List, [], ◌∷◌, ◌++◌,
  length, ◌==◌, eq-true, eq-false, ltb-true, update, arith, ok,
}
use low_latency.Prelude.Ensures.{
  Returns, returns, total_after, total_mono, total_true, total_false, total_some,
}
use low_latency.Common.Types.{u64}
use low_latency.Common.Messages.{MeClientResponse, OmClientResponse}
use low_latency.Common.SafeQueue.{get_size}
use low_latency.Common.SafeQueue.Fifo.{
  contents, IsValid, HasRoomFor, read_cons, length-contents, advanced,
}
use low_latency.Exchange.OrderServer.{
  Packet, sequence, response, OrderServer, send_response, send_responses,
}
use low_latency.Trading.OrderGateway.{OrderGateway, recv_callback}
use low_latency.Trading.OrderGateway.Sequence.{accepted, recv_callback-accepted}

-- Responses with the numbers from `n` on, as packets and as messages.
abbrev pub packets : (n : ℕ) → List MeClientResponse → List Packet
packets n [] = []
packets n (r ∷ rs) = sequence n ∷ response r ∷ packets (u64 (n + 1)) rs

abbrev pub messages : (n : ℕ) → List MeClientResponse → List OmClientResponse
messages n [] = []
messages n (r ∷ rs) =
    record { sequence_number = n; client_response = r } ∷ messages (u64 (n + 1)) rs

-- The messages that a stream of packets spells: `OMClientResponse` is a number and a response, one
-- behind the other with no gap.
unfoldable pub decode : List Packet → List OmClientResponse
decode (sequence n ∷ response r ∷ ps) =
    record { sequence_number = n; client_response = r } ∷ decode ps
decode _ = []

decode-packets : (n : ℕ) (rs : List MeClientResponse) → decode (packets n rs) ≡ messages n rs
unfolding decode
decode-packets n [] = refl
decode-packets n (r ∷ rs) =
    ap (◌∷◌ (record { sequence_number = n; client_response = r })) (decode-packets (u64 (n + 1)) rs)

length-messages : (n : ℕ) (rs : List MeClientResponse) → length (messages n rs) ≡ length rs
length-messages n [] = refl
length-messages n (r ∷ rs) = ap suc (length-messages (u64 (n + 1)) rs)

-- All responses are for one client.
abbrev pub AreFor : (client : ℕ) → List MeClientResponse → Type 0
AreFor client [] = Unit
AreFor client (r ∷ rs) = (r.client_id ≡ client) × AreFor client rs

accepted-messages :
    (client n : ℕ) (rs : List MeClientResponse)
    → AreFor client rs
    → accepted client n (messages n rs) ≡ rs
accepted-messages client n [] h = refl
accepted-messages client n (r ∷ rs) (e, h) =
    rw (eq-true e, eq-true {a = n} refl) (ap (◌∷◌ r) (accepted-messages client (u64 (n + 1)) rs h))

module _ (socket : ℕ) where
  abbrev next_number : (client : ℕ) → OrderServer → ℕ
  next_number client s = s.client_id_to_next_response_sequence_number client

  -- The server after one response to the client.
  abbrev answered : (client : ℕ) → MeClientResponse → OrderServer → OrderServer
  answered client r s = record s {
    outbound =
        update s.outbound socket
          (s.outbound socket ++ (sequence (next_number client s) ∷ response r ∷ []));
    client_responses = advanced s.client_responses;
    client_id_to_next_response_sequence_number =
        update s.client_id_to_next_response_sequence_number client (u64 (next_number client s + 1));
  }

  send_response-answered :
      (r : MeClientResponse) (s : OrderServer)
      → r.client_id < 256
      → s.client_id_to_socket r.client_id ≡ some socket
      → (s.client_responses.num_elements == 0) ≡ false
      → send_response r s ≡ ok tt (answered r.client_id r s)
  unfolding send_response
  send_response-answered r s small bound waiting = rw (ltb-true small, bound, waiting) refl

  answer :
      (client : ℕ) (r : MeClientResponse) (s : OrderServer)
      → r.client_id ≡ client
      → client < 256
      → s.client_id_to_socket client ≡ some socket
      → (s.client_responses.num_elements == 0) ≡ false
      → send_response r s ≡ ok tt (answered client r s)
  answer client r s mine small bound waiting =
      subst
        (λ c.
          c < 256
          → s.client_id_to_socket c ≡ some socket
          → send_response r s ≡ ok tt (answered c r s))
        mine (λ h k. send_response-answered r s h k waiting) small bound

  -- All that waits for the client goes to its socket, numbered from the next number on.
  send_responses-packets :
      (client : ℕ) (rs : List MeClientResponse) (fuel : ℕ) (s : OrderServer)
      → client < 256
      → s.client_id_to_socket client ≡ some socket
      → IsValid s.client_responses
      → contents s.client_responses ≡ rs
      → AreFor client rs
      → length rs ≤ fuel
      → Returns
          (λ _ t.
            (t.outbound socket ≡ s.outbound socket ++ packets (next_number client s) rs)
            × (contents t.client_responses ≡ []))
          (send_responses (suc fuel) s)
  unfolding send_responses get_size
  send_responses-packets client [] fuel s small bound v e mine enough =
      let drained : (s.client_responses.num_elements == 0) ≡ true =
        eq-true (omega (arith, length-contents s.client_responses, ap length e)) in
      total_true _ _ drained (returns (sym (append-nil (s.outbound socket)), e))
  send_responses-packets client (r ∷ rs) zero s small bound v e mine enough = absurd (omega arith)
  send_responses-packets client (r ∷ rs) (suc fuel) s small bound v e (mine, others) enough =
      let (reads, _, v', e') = read_cons s.client_responses v e in
      let waiting : (s.client_responses.num_elements == 0) ≡ false =
        eq-false (omega (arith, length-contents s.client_responses, ap length e)) in
      let n = next_number client s in
      let one = sequence n ∷ response r ∷ [] in
      total_false _ _ waiting (
        total_some _ _ reads (
          total_after _ (answer client r s mine small bound waiting) (
            total_mono
              (send_responses-packets client rs fuel (answered client r s) small bound v' e' others
                (omega (arith, enough)))
              λ _ t (out, empty). (
                out
                    ∙ (rw (eq-true {a = socket} refl, eq-true {a = client} refl)
                        (append_assoc (s.outbound socket) one (packets (u64 (n + 1)) rs))),
                empty,
              ))))

-- What the order server sends a client, its gateway delivers: if exactly the responses `rs` wait,
-- all for a client whose id is below 256 and whose socket is known and has nothing on it, the
-- gateway of this client expects the number that the server gives next, both queues are
-- well-formed and that of the gateway has room, then the server, with one round of fuel more than
-- there are responses, sends them all, and the gateway that receives the messages on the socket
-- adds `rs` to its queue, each response once and in order.
pub send_responses-recv_callback :
    (client socket : ℕ) (rs : List MeClientResponse) (fuel : ℕ) (s : OrderServer) (g : OrderGateway)
    → client < 256
    → s.client_id_to_socket client ≡ some socket
    → s.outbound socket ≡ []
    → IsValid s.client_responses
    → contents s.client_responses ≡ rs
    → AreFor client rs
    → length rs ≤ fuel
    → g.client_id ≡ client
    → g.next_expected_sequence_number ≡ s.client_id_to_next_response_sequence_number client
    → IsValid g.responses
    → HasRoomFor (length rs) g.responses
    → Returns
        (λ _ t.
          contents (recv_callback (decode (t.outbound socket)) g).responses
          ≡ contents g.responses ++ rs)
        (send_responses (suc fuel) s)
send_responses-recv_callback client socket rs fuel s g small bound fresh v e mine enough same agree
      gv room =
    let n = s.client_id_to_next_response_sequence_number client in
    total_mono (send_responses-packets socket client rs fuel s small bound v e mine enough)
      λ _ t (out, _).
        let arrived : decode (t.outbound socket) ≡ messages n rs =
          ap decode (out ∙ ap (λ l. l ++ packets n rs) fresh) ∙ decode-packets n rs in
        ap (λ ms. contents (recv_callback ms g).responses) arrived
        ∙ recv_callback-accepted (messages n rs) g gv
            (subst (λ k. HasRoomFor k g.responses) (sym (length-messages n rs)) room)
        ∙ (λ i. contents g.responses ++ accepted (same i) (agree i) (messages n rs))
        ∙ ap (λ l. contents g.responses ++ l) (accepted-messages client n rs mine)
