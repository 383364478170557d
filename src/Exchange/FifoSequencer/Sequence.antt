-- ===== src/Exchange/FifoSequencer/Sequence.antt =====
-- What exchange/order_server/FIFOSequencer.h gives to the matching engine.
use low_latency.Prelude.{◌≡◌, refl, sym, ◌∙◌, ap, List, [], ◌∷◌, ◌++◌, length, arith}
use mathlib.Core.List.{append_assoc, append-nil}
use low_latency.Common.Messages.{MeClientRequest}
use low_latency.Common.SafeQueue.{SafeQueue, push}
use low_latency.Common.SafeQueue.Fifo.{
  contents, IsValid, HasRoom, HasRoomFor, push-IsValid, contents-push, num_elements-push,
}
use low_latency.Exchange.FifoSequencer.{
  RecvTimeClientRequest, FifoSequencer, publish, sequence_and_publish,
}

-- The requests of waiting ones.
abbrev pub requests_of : List RecvTimeClientRequest → List MeClientRequest
requests_of [] = []
requests_of (r ∷ rs) = r.client_request ∷ requests_of rs

publish_lem :
    (rs : List RecvTimeClientRequest) (q : SafeQueue MeClientRequest)
    → IsValid q
    → HasRoomFor (length rs) q
    → IsValid (publish rs q) × (contents (publish rs q) ≡ contents q ++ requests_of rs)
unfolding publish push
publish_lem [] q v room = (v, sym (append-nil (contents q)))
publish_lem (r ∷ rs) q v room =
    let one : HasRoom q = omega (arith, room) in
    let (w, e) =
      publish_lem rs (push r.client_request q) (push-IsValid r.client_request q v one)
        (omega (arith, room, num_elements-push r.client_request q v)) in
    (
      w,
      e
          ∙ ap (λ l. l ++ requests_of rs) (contents-push r.client_request q v one)
          ∙ append_assoc (contents q) (r.client_request ∷ []) (requests_of rs),
    )

no_elements : {A : Type 0} (xs : List A) → length xs ≡ 0 → xs ≡ []
no_elements [] e = refl
no_elements (x ∷ xs) e = absurd (omega (arith, e))

-- `t` has nothing waiting, and its queue holds what that of `s` held and then, in the order of the
-- sort, what waited.
pub record Sequenced (sort : List RecvTimeClientRequest → List RecvTimeClientRequest)
    (s t : FifoSequencer) : Type 0 where
  pub valid : IsValid t.client_requests
  pub passed_on :
      contents t.client_requests
      ≡ contents s.client_requests ++ requests_of (sort s.pending_requests)
  pub none_waits : t.pending_requests ≡ []

sequence_from :
    (sort : List RecvTimeClientRequest → List RecvTimeClientRequest)
    (rs : List RecvTimeClientRequest) (q : SafeQueue MeClientRequest)
    → length (sort rs) ≡ length rs
    → IsValid q
    → HasRoomFor (length rs) q
    → Sequenced sort
        (record { pending_requests = rs; client_requests = q })
        (sequence_and_publish sort (record { pending_requests = rs; client_requests = q }))
unfolding sequence_and_publish
sequence_from sort [] q same v room = record {
  valid = v;
  passed_on =
      sym (append-nil (contents q))
      ∙ ap (λ l. contents q ++ requests_of l) (sym (no_elements (sort []) same));
  none_waits = refl;
}
sequence_from sort (r ∷ rs) q same v room =
    let (w, e) = publish_lem (sort (r ∷ rs)) q v (omega (arith, same, room)) in
    record { valid = w; passed_on = e; none_waits = refl }

-- If the sort keeps the number of elements and the engine's queue has room for all that wait, then
-- all of them go to the engine, in the order of the sort, behind what it has, and none waits.
pub sequence_and_publish_lem :
    (sort : List RecvTimeClientRequest → List RecvTimeClientRequest) (s : FifoSequencer)
    → length (sort s.pending_requests) ≡ length s.pending_requests
    → IsValid s.client_requests
    → HasRoomFor (length s.pending_requests) s.client_requests
    → Sequenced sort s (sequence_and_publish sort s)
sequence_and_publish_lem sort s same v room =
    sequence_from sort s.pending_requests s.client_requests same v room
