-- ===== src/Common/TcpServer/Listening.antt =====
-- What `Listen` of common/TCPServer.cpp makes of a socket that cannot be opened.
use low_latency.Prelude.{◌≡◌, refl, none, some, Option, List, ok, ℕ, true, false}
use low_latency.Common.SocketUtils.{Address, create_socket}
use low_latency.Common.TcpServer.{TcpServer, listen}

-- Where the socket cannot be opened, `Listen` returns all the same, with no listener.
listen-unopened :
    (efd : ℕ) (addresses : Option (List Address)) (s : TcpServer)
    → (create_socket false true true addresses).0 ≡ none
    → listen (some efd) addresses s ≡ ok tt (record s { efd = some efd; listener_fd = none })
unfolding listen
listen-unopened efd addresses s e = rw e refl
