-- ===== src/Common/TcpSocket.antt =====
-- common/TCPSocket.h and TCPSocket.cpp: a buffer for what goes out and one for what has come in. The
-- buffers are the lists of their bytes in use. What the system calls do is a parameter, and `wire`
-- is what the kernel has taken over, in order.
pub mod Sending
use low_latency.Prelude.{
  ℕ, ◌+◌, Bool, true, false, not, List, [], ◌∷◌, ◌++◌, ◌==◌, none, some, Option, leb, ltb, length,
  if◌then◌else◌, Ptr, Cmd, fault, ok, out_of_range, pure, get, modify, when, ◌>>=◌, ◌>>◌, ◌*◌, ◌^◌,
  zero, suc,
}
use low_latency.Common.SocketUtils.{Address, create_socket}
use low_latency.Common.Types.{u64}

-- The first `n` elements.
abbrev pub take : {A : Type 0} → ℕ → List A → List A
take zero xs = []
take (suc n) [] = []
take (suc n) (x ∷ xs) = x ∷ take n xs

abbrev pub tcp_buffer_size : ℕ
tcp_buffer_size = 64 * 1024 * 1024

pub record TcpSocket : Type 0 where
  pub socket : Ptr
  pub send_buffer : List ℕ
  pub recv_buffer : List ℕ
  pub wire : List ℕ

-- What `recvmsg` with MSG_DONTWAIT brings: some bytes, at most as many as fit, and the time that
-- the kernel noted, or nothing.
pub record Received : Type 0 where
  pub bytes : List ℕ
  pub kernel_time : ℕ

-- The state that a callback works on, with the socket in it.
pub record Host (W : Type 0) : Type 0 where
  pub socket_of : W → TcpSocket
  pub with_socket : TcpSocket → W → W
  pub recv_callback : (kernel_time : ℕ) → Cmd W (Unit {0})

-- The constructor: no descriptor and empty buffers.
unfoldable pub make_socket : TcpSocket
make_socket = record { socket = none; send_buffer = []; recv_buffer = []; wire = [] }

-- `Connect`: the descriptor that `CreateSocket` returns, or none.
unfoldable pub connect : (is_listening : Bool) → Option (List Address) → Cmd TcpSocket Ptr
unfolding create_socket
connect is_listening addresses = do
  let fd = (create_socket false is_listening true addresses).0
  modify (λ s. record s { socket = fd })
  pure fd

-- `Destroy`
unfoldable pub destroy : TcpSocket → TcpSocket
destroy s = record s { socket = none }

-- `Send`: a copy past the end of the buffer is outside its array.
unfoldable pub send : List ℕ → Cmd TcpSocket (Unit {0})
send bytes s =
    if ltb 0 (length bytes)
    then (if leb (length s.send_buffer + length bytes) tcp_buffer_size
        then ok tt (record s { send_buffer = s.send_buffer ++ bytes })
        else fault out_of_range)
    else ok tt s

-- The second half of `RecvAndSend`: `send` takes over the first `taken` bytes, or none where it
-- fails, and `nextSendIndex` becomes 0.
unfoldable pub flush : (taken : ℕ) → TcpSocket → TcpSocket
flush taken s = record s { wire = s.wire ++ take taken s.send_buffer; send_buffer = [] }

module _ {W : Type 0} (host : Host W) where
  open host use {socket_of, with_socket, recv_callback}

  -- `RecvAndSend`: the result says whether anything came.
  unfoldable pub recv_and_send : (received : Option Received) → (taken : ℕ) → Cmd W Bool
  unfolding flush
  recv_and_send none taken = do modify (λ w. with_socket (flush taken (socket_of w)) w); pure false
  recv_and_send (some r) taken = do
    modify (λ w.
        with_socket (record (socket_of w) { recv_buffer = (socket_of w).recv_buffer ++ r.bytes }) w)
    recv_callback r.kernel_time
    modify (λ w. with_socket (flush taken (socket_of w)) w)
    pure true
