-- ===== src/Trading/OrderGateway/Sending.antt =====
-- What trading/order_gateway/OrderGateway.cpp sends for the requests that wait.
use low_latency.Prelude.{
  ℕ, suc, ◌+◌, ◌≡◌, ◌≢◌, refl, sym, ◌∙◌, ap, List, [], ◌∷◌, ◌++◌, length, eq-true, eq-false, arith,
  ok, put_back, and_then-ok, test-true, test-false, choice-some,
}
use mathlib.Core.List.{append_assoc, append-nil}
use low_latency.Common.Types.{u64}
use low_latency.Common.Messages.{MeClientRequest}
use low_latency.Common.SafeQueue.{SafeQueue, get_size, update_read_index}
use low_latency.Common.SafeQueue.Fifo.{contents, IsValid, advanced, read_cons, length-contents}
use low_latency.Trading.OrderGateway.{Packet, OrderGateway, send_requests}

-- The packets for `k` requests from the number `n` on.
abbrev pub packets : (n : ℕ) → List MeClientRequest → List Packet
packets n [] = []
packets n (r ∷ rs) = Packet.sequence n ∷ Packet.stack_bytes ∷ packets (u64 (n + 1)) rs

abbrev after_one : SafeQueue MeClientRequest → OrderGateway → OrderGateway
after_one q s = record s {
  requests = q;
  outbound =
      s.outbound ++ (Packet.sequence s.next_outgoing_sequence_number ∷ Packet.stack_bytes ∷ []);
  next_outgoing_sequence_number = u64 (s.next_outgoing_sequence_number + 1);
}

-- Nothing waits, and `rs` have been sent under consecutive numbers.
pub record Sent (rs : List MeClientRequest) (s t : OrderGateway) : Type 0 where
  pub none_waits : contents t.requests ≡ []
  pub packets_sent : t.outbound ≡ s.outbound ++ packets s.next_outgoing_sequence_number rs
  pub same_responses : t.responses ≡ s.responses

-- With rounds for all requests that wait in a valid queue, the loop ends: for each of them the
-- next number has been sent, in order and followed by the bytes of a pointer in place of the
-- request, and none waits.
pub send_requests-Sent :
    (rs : List MeClientRequest) (s : OrderGateway)
    → IsValid s.requests
    → contents s.requests ≡ rs
    → (t : OrderGateway) × (send_requests (suc (length rs)) s ≡ ok tt t) × Sent rs s t
unfolding send_requests get_size
send_requests-Sent [] s v holds = (
  s,
  test-true _ _ (eq-true empty) refl,
  record { none_waits = holds; packets_sent = sym (append-nil s.outbound); same_responses = refl },
)
  where
    empty : s.requests.num_elements ≡ 0
    empty = sym (length-contents s.requests) ∙ ap length holds
send_requests-Sent (r ∷ rs) s v holds =
    let (found, advances, valid, rest) = read_cons s.requests v holds in
    let (t, runs, p) = send_requests-Sent rs (after_one (advanced s.requests) s) valid rest in
    (
      t,
      test-false _ _ (eq-false nonempty)
          (choice-some _ _ found (and_then-ok _ (moves advances) runs)),
      record {
        none_waits = p.none_waits;
        packets_sent =
            p.packets_sent
            ∙ append_assoc s.outbound
                (Packet.sequence s.next_outgoing_sequence_number ∷ Packet.stack_bytes ∷ [])
                (packets (u64 (s.next_outgoing_sequence_number + 1)) rs);
        same_responses = p.same_responses;
      },
    )
  where
    nonempty : s.requests.num_elements ≢ 0
    nonempty e =
        let l = sym (length-contents s.requests) ∙ ap length holds in absurd (omega (arith, e, l))

    marked : OrderGateway
    marked = record s {
      outbound =
          s.outbound ++ (Packet.sequence s.next_outgoing_sequence_number ∷ Packet.stack_bytes ∷ []);
    }

    moves :
        update_read_index s.requests ≡ ok tt (advanced s.requests)
        → put_back (λ q. record marked { requests = q }) (update_read_index s.requests)
          ≡ ok tt (record marked { requests = advanced s.requests })
    moves e = ap (put_back (λ q. record marked { requests = q })) e
