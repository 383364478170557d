-- ===== src/Common/McastSocket.antt =====
-- common/MCastSocket.h and MCastSocket.cpp: a socket of a multicast group. As in TcpSocket.antt,
-- what the system calls do is a parameter.
use low_latency.Prelude.{
  ℕ, ◌+◌, ◌*◌, Bool, true, false, not, List, [], ◌++◌, none, some, Option, leb, ltb, length,
  if◌then◌else◌, Ptr, Cmd, fault, out_of_range, pure, modify, check_fatal, ◌>>◌,
}
use low_latency.Common.SocketUtils.{Address, create_socket}
use low_latency.Common.TcpSocket.{take}
use low_latency.Ladder.{is_null}

abbrev pub buffer_size : ℕ
buffer_size = 64 * 1024 * 1024

pub record McastSocket : Type 0 where
  pub socket : Ptr
  pub outbound_data : List ℕ
  pub inbound_data : List ℕ
  pub wire : List ℕ

-- `Init`
unfoldable pub init : (is_listening : Bool) → Option (List Address) → Cmd McastSocket Bool
unfolding create_socket
init is_listening addresses = do
  let fd = (create_socket true is_listening false addresses).0
  modify (λ s. record s { socket = fd })
  pure (not (is_null fd))

-- `Leave`
unfoldable pub leave : McastSocket → McastSocket
leave s = record s { socket = none }

-- `Send`: the bytes are copied first and the size is checked afterwards.
unfoldable pub send : List ℕ → Cmd McastSocket (Unit {0})
send bytes s =
    if leb (length s.outbound_data + length bytes) buffer_size
    then (do
      modify (λ t. record t { outbound_data = t.outbound_data ++ bytes })
      check_fatal (ltb (length s.outbound_data + length bytes) buffer_size))
        s
    else fault out_of_range

-- The end of `RecvAndSend`: `send` takes over the first `taken` bytes.
unfoldable pub flush : (taken : ℕ) → McastSocket → McastSocket
flush taken s = record s { wire = s.wire ++ take taken s.outbound_data; outbound_data = [] }

-- The state that a callback works on, with the socket in it.
pub record Group (W : Type 0) : Type 0 where
  pub socket_of : W → McastSocket
  pub with_socket : McastSocket → W → W
  pub recv_callback : Cmd W (Unit {0})

module _ {W : Type 0} (group : Group W) where
  open group use {socket_of, with_socket, recv_callback}

  -- `RecvAndSend`: `received` is what `recv` brings, if anything.
  unfoldable pub recv_and_send : (received : Option (List ℕ)) → (taken : ℕ) → Cmd W Bool
  unfolding flush
  recv_and_send none taken = do modify (λ w. with_socket (flush taken (socket_of w)) w); pure false
  recv_and_send (some bytes) taken = do
    modify (λ w.
        with_socket (record (socket_of w) { inbound_data = (socket_of w).inbound_data ++ bytes }) w)
    recv_callback
    modify (λ w. with_socket (flush taken (socket_of w)) w)
    pure true
