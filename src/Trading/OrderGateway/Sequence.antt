-- ===== src/Trading/OrderGateway/Sequence.antt =====
-- Which responses trading/order_gateway/OrderGateway.cpp passes on.
use low_latency.Prelude.{
  ℕ, ◌+◌, ◌≡◌, sym, ◌∙◌, ap, inl, inr, refl, Bool, true, false, ◌&&◌, Bool-cases, List, [], ◌∷◌,
  ◌++◌, length, ◌==◌, if◌then◌else◌, arith,
}
use mathlib.Core.List.{append_assoc, append-nil}
use low_latency.Common.Types.{u64}
use low_latency.Common.Messages.{MeClientResponse, OmClientResponse}
use low_latency.Common.SafeQueue.{push}
use low_latency.Common.SafeQueue.Fifo.{
  contents, IsValid, HasRoom, HasRoomFor, push-IsValid, contents-push, num_elements-push,
}
use low_latency.Trading.OrderGateway.{OrderGateway, receive_response, recv_callback}

-- The responses to `client` among messages that carry, among themselves, the numbers from `n` on.
abbrev pub accepted : (client n : ℕ) → List OmClientResponse → List MeClientResponse
accepted client n [] = []
accepted client n (r ∷ rs) =
    if (r.client_response.client_id == client) && (r.sequence_number == n)
    then r.client_response ∷ accepted client (u64 (n + 1)) rs
    else accepted client n rs

abbrev taken : OmClientResponse → OrderGateway → OrderGateway
taken r s = record s {
  next_expected_sequence_number = u64 (s.next_expected_sequence_number + 1);
  responses = push r.client_response s.responses;
}

module _ (r : OmClientResponse) (s : OrderGateway) where
  abbrev is_next : Bool
  is_next =
      (r.client_response.client_id == s.client_id)
      && (r.sequence_number == s.next_expected_sequence_number)

  receive_response-taken : is_next ≡ true → receive_response r s ≡ taken r s
  unfolding receive_response
  receive_response-taken e = rw e refl

  receive_response-ignored : is_next ≡ false → receive_response r s ≡ s
  unfolding receive_response
  receive_response-ignored e = rw e refl

-- With room in its queue for all messages, the gateway queues exactly the responses to its own
-- client that carry, among themselves, the expected numbers one after the other, in order and
-- behind what was queued.
pub recv_callback-accepted :
    (rs : List OmClientResponse) (s : OrderGateway)
    → IsValid s.responses
    → HasRoomFor (length rs) s.responses
    → contents (recv_callback rs s).responses
      ≡ contents s.responses ++ accepted s.client_id s.next_expected_sequence_number rs
unfolding recv_callback push
recv_callback-accepted [] s v room = sym (append-nil (contents s.responses))
recv_callback-accepted (r ∷ rs) s v room = elim (Bool-cases (is_next r s)) [
  | inr e ↦ rw e (
      ap (λ t. contents (recv_callback rs t).responses) (receive_response-ignored r s e)
      ∙ recv_callback-accepted rs s v (omega (arith, room)))
  | inl e ↦
      let one : HasRoom s.responses = omega (arith, room) in
      let others = accepted s.client_id (u64 (s.next_expected_sequence_number + 1)) rs in
      rw e (
        ap (λ t. contents (recv_callback rs t).responses) (receive_response-taken r s e)
        ∙ recv_callback-accepted rs (taken r s) (push-IsValid r.client_response s.responses v one)
            (omega (arith, room, num_elements-push r.client_response s.responses v))
        ∙ ap (λ l. l ++ others) (contents-push r.client_response s.responses v one)
        ∙ append_assoc (contents s.responses) (r.client_response ∷ []) others)
]
