-- ===== src/Tests/Sockets.antt =====
-- The theorems on the sockets and the log of common/, at small inputs.
use low_latency.Prelude.{
  ℕ, ◌≡◌, refl, true, false, none, some, List, [], ◌∷◌, ◌++◌, arith, modify, ◌>>◌,
}
use low_latency.Prelude.Int.{pos, negsuc}
use low_latency.Prelude.Ensures.{Returns}
use low_latency.Common.SafeQueue.{make}
use low_latency.Common.SafeQueue.Fifo.{contents, make-IsValid}
use low_latency.Common.Logger.{
  nothing, unsigned_long_integer, Printer, Argument, element, text, QuickLogger, log, flush_queue,
}
use low_latency.Common.Logger.Written.{expected, log-flush_queue}
use low_latency.Common.Logger.Queued.{all_elements, elements_of}
use low_latency.Common.SocketUtils.{Address, configure, set_non_blocking, create_socket, open_all}
use low_latency.Common.SocketUtils.Opening.{AreOpened, last_of, create_socket-opened}
use low_latency.Common.TcpSocket.{take, make_socket, flush}
use low_latency.Common.TcpSocket.Sending.{concat, send_all, send_all-flush}
use low_latency.Common.TcpServer.{TcpServer, Event, poll_events}
use low_latency.Common.TcpServer.Polling.{Polled, poll_events-Polled}

-- Numbers are printed as one byte.
abbrev printer : Printer ℕ ℕ
printer = record {
  print_int = λ i. elim i [ pos n ↦ n ∷ [] | negsuc n ↦ 45 ∷ n ∷ [] ];
  print_float = λ n. n ∷ [];
  print_double = λ n. n ∷ [];
}

abbrev logger : QuickLogger ℕ ℕ
logger = record { queue = make 16 nothing; output_stream = 1 ∷ [] }

abbrev arguments : List (Argument ℕ ℕ)
arguments = text (72 ∷ 105 ∷ 0 ∷ 33 ∷ []) ∷ element (unsigned_long_integer 7) ∷ []

log-flush_queue_example :
    Returns
      (λ _ t.
        (t.output_stream ≡ logger.output_stream ++ expected printer arguments)
        × (contents t.queue ≡ []))
      (flush_queue printer 6 (log arguments logger))
unfolding make all_elements elements_of
log-flush_queue_example =
    log-flush_queue printer arguments 5 logger (make-IsValid 16 nothing (omega arith) (omega arith))
      refl (omega arith) (omega arith, tt) (omega arith)

-- An address on which every call succeeds.
abbrev good : Address
good = record {
  fd = some 5;
  no_delay = true;
  connects = true;
  reuses = true;
  binds = true;
  listens = true;
  non_blocking_flag = some false;
  sets_non_blocking = true;
  so_timestamp = true;
}

create_socket-opened_example :
    (ns : List ℕ) × AreOpened false true true (good ∷ []) ns
    × (last_of false true true none ns ≡ some 5)
    × ((create_socket false true true (some (good ∷ []))).1 ≡ ns)
unfolding create_socket open_all configure set_non_blocking
create_socket-opened_example = create_socket-opened false true true (good ∷ []) 5 refl

send_all-flush_example :
    Returns
      (λ _ t.
        (t.send_buffer ≡ [])
        × (t.wire
            ≡ make_socket.wire
              ++ take 3 (make_socket.send_buffer ++ concat ((1 ∷ 2 ∷ []) ∷ (3 ∷ 4 ∷ []) ∷ []))))
      ((send_all ((1 ∷ 2 ∷ []) ∷ (3 ∷ 4 ∷ []) ∷ []) >> modify (flush 3)) make_socket)
unfolding make_socket concat
send_all-flush_example =
    send_all-flush ((1 ∷ 2 ∷ []) ∷ (3 ∷ 4 ∷ []) ∷ []) 3 make_socket (omega arith)

-- A server that receives from the socket 4; its listener is 1.
abbrev server : TcpServer
server = record {
  efd = some 3;
  listener_socket = 1;
  listener_fd = some 6;
  receive_sockets = 4 ∷ [];
  send_sockets = [];
}

abbrev events : List Event
events =
    record { socket = 1; is_in = true; is_out = false; is_error = false }
    ∷ record { socket = 4; is_in = true; is_out = true; is_error = false }
    ∷ record { socket = 7; is_in = false; is_out = false; is_error = true }
    ∷ []

poll_events-Polled_example :
    Polled events false server
      (poll_events events false server).0
      (poll_events events false server).1
poll_events-Polled_example = poll_events-Polled events false server (refl, tt) tt
