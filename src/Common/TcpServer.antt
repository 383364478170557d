-- ===== src/Common/TcpServer.antt =====
-- common/TCPServer.h and TCPServer.cpp: the sockets of a server, found ready by `epoll`. A socket is
-- the number of its object; what the system calls return is a parameter.
pub mod Polling
pub mod Listening
use low_latency.Prelude.{
  has, ℕ, ◌+◌, Bool, true, false, not, ◌&&◌, ◌||◌, List, [], ◌∷◌, ◌++◌, ◌==◌, length, none, some,
  Option, if◌then◌else◌, Ptr, Cmd, ok, pure, get, modify, check_fatal, when, ◌>>=◌, ◌>>◌,
}
use low_latency.Common.SocketUtils.{Address, create_socket}
use low_latency.Ladder.{is_null}

pub record TcpServer : Type 0 where
  pub efd : Ptr
  pub listener_socket : ℕ
  pub listener_fd : Ptr
  pub receive_sockets : List ℕ
  pub send_sockets : List ℕ

-- `RemoveElementFromArray` of common/STLUtils.h.
unfoldable pub remove_element_from_array : ℕ → List ℕ → List ℕ
remove_element_from_array a [] = []
remove_element_from_array a (x ∷ xs) =
    let rest = remove_element_from_array a xs in if x == a then rest else x ∷ rest

-- `DeleteSocket`
unfoldable pub delete_socket : ℕ → TcpServer → TcpServer
unfolding remove_element_from_array
delete_socket socket s = record s {
  receive_sockets = remove_element_from_array socket s.receive_sockets;
  send_sockets = remove_element_from_array socket s.send_sockets;
}

-- A socket as the `bool` that CHECK_FATAL tests: every number but 0 is true, -1 too.
abbrev pub socket_as_bool : Ptr → Bool
socket_as_bool none = true
socket_as_bool (some n) = not (n == 0)

-- `Listen`: `created` is what `epoll_create` returns and `addresses` what `getaddrinfo` does; whether
-- the listener joins the epoll is not looked at.
unfoldable pub listen : (created : Ptr) → Option (List Address) → Cmd TcpServer (Unit {0})
unfolding create_socket
listen created addresses = do
  modify (λ s. record s { efd = created })
  check_fatal (not (is_null created))
  let fd = (create_socket false true true addresses).0
  modify (λ s. record s { listener_fd = fd })
  check_fatal (socket_as_bool fd)

-- An event of `epoll_wait`: its socket, and which of EPOLLIN, EPOLLOUT and EPOLLERR | EPOLLHUP it has.
pub record Event : Type 0 where
  pub socket : ℕ
  pub is_in : Bool
  pub is_out : Bool
  pub is_error : Bool

abbrev pub add_once : ℕ → List ℕ → List ℕ
add_once a xs = if has a xs then xs else xs ++ (a ∷ [])

-- One round of the `for` of `Poll`; the result is the new `haveNewCoonections`.
unfoldable pub poll_event : Event → (new_connections : Bool) → TcpServer → Bool × TcpServer
poll_event e new_connections s = if e.is_in && (e.socket == s.listener_socket) then (true, s) else (
  new_connections,
  record s {
    receive_sockets =
        if e.is_in || e.is_error then add_once e.socket s.receive_sockets else s.receive_sockets;
    send_sockets = if e.is_out then add_once e.socket s.send_sockets else s.send_sockets;
  },
)

unfoldable pub poll_events : List Event → (new_connections : Bool) → TcpServer → Bool × TcpServer
unfolding poll_event
poll_events [] new_connections s = (new_connections, s)
poll_events (e ∷ es) new_connections s =
    let (b, t) = poll_event e new_connections s in poll_events es b t

-- A connection that `accept` returns: the object made for it, and whether its attributes are set and
-- it joins the epoll.
pub record Accepted : Type 0 where
  pub socket : ℕ
  pub has_attributes : Bool
  pub joins : Bool

-- The `while` of `Poll`, for what `accept` returns before it returns -1.
unfoldable pub accept_all : List Accepted → Cmd TcpServer (Unit {0})
accept_all [] = pure tt
accept_all (a ∷ as_) = do
  check_fatal a.has_attributes
  check_fatal a.joins
  modify (λ s. record s { receive_sockets = s.receive_sockets ++ (a.socket ∷ []) })
  accept_all as_

-- `Poll`
unfoldable pub poll : List Event → List Accepted → Cmd TcpServer (Unit {0})
unfolding poll_events accept_all
poll events accepted s =
    let (new_connections, t) = poll_events events false s in
    when new_connections (accept_all accepted) t

-- `Destroy`
unfoldable pub destroy : TcpServer → TcpServer
destroy s = record s { efd = none; listener_fd = none }

module _ {W : Type 0} (server_of : W → TcpServer) (socket_recv_and_send : ℕ → Cmd W Bool)
    (recv_finished_callback : Cmd W (Unit {0})) where
  -- The first `for` of `RecvAndSend`: every socket has its turn, and the result is `recv`.
  unfoldable pub receive_all : List ℕ → (recv : Bool) → Cmd W Bool
  receive_all [] recv = pure recv
  receive_all (x ∷ xs) recv = do b ← socket_recv_and_send x; receive_all xs (recv || b)

  -- The last `for`.
  unfoldable pub send_all : List ℕ → Cmd W (Unit {0})
  send_all [] = pure tt
  send_all (x ∷ xs) = do socket_recv_and_send x; send_all xs

  -- `RecvAndSend`
  unfoldable pub recv_and_send : Cmd W (Unit {0})
  unfolding receive_all send_all
  recv_and_send = do
    w ← get
    recv ← receive_all (server_of w).receive_sockets false
    when recv recv_finished_callback
    v ← get
    send_all (server_of v).send_sockets
