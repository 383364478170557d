-- ===== src/Common/TcpSocket/Sending.antt =====
-- What becomes of the bytes that are given to `Send` of common/TCPSocket.cpp.
use low_latency.Prelude.{
  ℕ, ◌+◌, ◌≤◌, ◌≡◌, refl, sym, ap, ◌∙◌, List, [], ◌∷◌, ◌++◌, length, length-append, Cmd, ok, pure,
  modify, and_then-ok, arith, ◌>>◌,
}
use mathlib.Core.List.{append_assoc, append-nil}
use low_latency.Prelude.Ensures.{Returns, returns, total_after}
use low_latency.Common.TcpSocket.{TcpSocket, take, tcp_buffer_size, send, flush}

-- The messages one behind the other.
unfoldable pub concat : List (List ℕ) → List ℕ
concat [] = []
concat (m ∷ ms) = m ++ concat ms

-- A call of `Send` for each message.
unfoldable pub send_all : List (List ℕ) → Cmd TcpSocket (Unit {0})
unfolding send
send_all [] = pure tt
send_all (m ∷ ms) = send m >> send_all ms

abbrev with_bytes : List ℕ → TcpSocket → TcpSocket
with_bytes bytes s = record s { send_buffer = s.send_buffer ++ bytes }

send-with_bytes :
    (m : List ℕ) (s : TcpSocket)
    → length s.send_buffer + length m ≤ tcp_buffer_size
    → send m s ≡ ok tt (with_bytes m s)
unfolding send
send-with_bytes [] s room =
    ap (λ l. ok tt (record s { send_buffer = l })) (sym (append-nil s.send_buffer))
send-with_bytes (b ∷ m) s room = ground arith

send_all-with_bytes :
    (ms : List (List ℕ)) (s : TcpSocket)
    → length s.send_buffer + length (concat ms) ≤ tcp_buffer_size
    → send_all ms s ≡ ok tt (with_bytes (concat ms) s)
unfolding send_all concat
send_all-with_bytes [] s room =
    ap (λ l. ok tt (record s { send_buffer = l })) (sym (append-nil s.send_buffer))
send_all-with_bytes (m ∷ ms) s room =
    let both = length-append m (concat ms) in
    let first = length-append s.send_buffer m in
    and_then-ok _ (send-with_bytes m s (omega (arith, room, both))) (
      send_all-with_bytes ms (with_bytes m s) (omega (arith, room, both, first))
      ∙ ap (λ l. ok tt (record s { send_buffer = l })) (append_assoc s.send_buffer m (concat ms)))

-- Messages given to `Send`, when they fit into the buffer together with what is in it, and then
-- the sending half of `RecvAndSend`: the kernel has got the first `taken` bytes of all of them,
-- one behind the other, and the buffer is empty.
pub send_all-flush :
    (ms : List (List ℕ)) (taken : ℕ) (s : TcpSocket)
    → length s.send_buffer + length (concat ms) ≤ tcp_buffer_size
    → Returns
        (λ _ t. (t.send_buffer ≡ []) × (t.wire ≡ s.wire ++ take taken (s.send_buffer ++ concat ms)))
        ((send_all ms >> modify (flush taken)) s)
unfolding flush
send_all-flush ms taken s room =
    total_after _ (send_all-with_bytes ms s room) (returns (refl, refl))
