-- ===== src/Common/TcpServer/Polling.antt =====
-- Which sockets `Poll` of common/TCPServer.cpp puts on its lists.
use low_latency.Prelude.{
  sym, has, AreDistinct, AreDistinct-snoc, has-append, ℕ, ◌≡◌, refl, ◌∙◌, Bool, true, false, not,
  ◌&&◌, ◌||◌, List, [], ◌∷◌, ◌==◌, if◌then◌else◌, arith, Bool-cases, inl, inr, ◌∈◌,
}
use mathlib.Core.Path.{subst}
use low_latency.Common.TcpServer.{TcpServer, Event, add_once, poll_event, poll_events}

-- A new connection on the listener.
abbrev pub is_connection : (listener : ℕ) → Event → Bool
is_connection listener e = e.is_in && (e.socket == listener)

-- Some event, that is none of a new connection, has `flag` and the socket `x`.
abbrev pub has_event : (flag : Event → Bool) → (listener x : ℕ) → List Event → Bool
has_event flag listener x [] = false
has_event flag listener x (e ∷ es) =
    (not (is_connection listener e) && flag e && (x == e.socket)) || has_event flag listener x es

abbrev pub has_connection : (listener : ℕ) → List Event → Bool
has_connection listener [] = false
has_connection listener (e ∷ es) = is_connection listener e || has_connection listener es

mem-once : (a x : ℕ) (xs : List ℕ) → a ∈ xs → has x xs ≡ (has x xs || (x == a))
mem-once a x xs e = elim (Bool-cases (x == a)) [
  | inl q ↦ let same : x ≡ a = ground arith in ground (arith, q, subst (λ y. y ∈ xs) (sym same) e)
  | inr q ↦ ground (arith, q)
]

has-add_once : (a x : ℕ) (xs : List ℕ) → has x (add_once a xs) ≡ (has x xs || (x == a))
has-add_once a x xs = elim (Bool-cases (has a xs)) [
  | inl e ↦ rw e (mem-once a x xs e)
  | inr e ↦ rw e (ground (arith, has-append x xs (a ∷ [])))
]

AreDistinct-add_once : (a : ℕ) (xs : List ℕ) → AreDistinct xs → AreDistinct (add_once a xs)
AreDistinct-add_once a xs d = elim (Bool-cases (has a xs)) [
  | inl e ↦ rw e d
  | inr e ↦ rw e (AreDistinct-snoc a xs d e)
]

or_step : (a b c : Bool) → ((a || (b || false)) || c) ≡ (a || (b || c))
or_step a b c = ground arith

-- What `Poll` makes of events: the flag, and both lists.
pub record Polled (es : List Event) (b : Bool) (s : TcpServer) (c : Bool) (t : TcpServer)
    : Type 0 where
  pub new_connections : c ≡ (b || has_connection s.listener_socket es)
  pub same_listener : t.listener_socket ≡ s.listener_socket
  pub receives :
      (x : ℕ)
      → has x t.receive_sockets
        ≡ (has x s.receive_sockets || has_event (λ e. e.is_in || e.is_error) s.listener_socket x es)
  pub sends :
      (x : ℕ)
      → has x t.send_sockets
        ≡ (has x s.send_sockets || has_event (λ e. e.is_out) s.listener_socket x es)
  pub distinct_receives : AreDistinct t.receive_sockets
  pub distinct_sends : AreDistinct t.send_sockets

add_when-has :
    (b : Bool) (a x : ℕ) (xs : List ℕ)
    → has x (if b then add_once a xs else xs) ≡ (has x xs || (b && (x == a)))
add_when-has true a x xs = has-add_once a x xs
add_when-has false a x xs = ground arith

add_when-AreDistinct :
    (b : Bool) (a : ℕ) (xs : List ℕ)
    → AreDistinct xs
    → AreDistinct (if b then add_once a xs else xs)
add_when-AreDistinct true a xs d = AreDistinct-add_once a xs d
add_when-AreDistinct false a xs d = d

poll_event-Polled :
    (e : Event) (b : Bool) (s : TcpServer)
    → AreDistinct s.receive_sockets
    → AreDistinct s.send_sockets
    → Polled (e ∷ []) b s (poll_event e b s).0 (poll_event e b s).1
unfolding poll_event
poll_event-Polled e b s in_receives in_sends =
    elim (Bool-cases (is_connection s.listener_socket e)) [
      | inl c ↦ rw c (record {
        new_connections = ground arith;
        same_listener = refl;
        receives = λ x. ground arith;
        sends = λ x. ground arith;
        distinct_receives = in_receives;
        distinct_sends = in_sends;
      })
      | inr c ↦ rw c (record {
        new_connections = ground arith;
        same_listener = refl;
        receives =
            λ x. add_when-has (e.is_in || e.is_error) e.socket x s.receive_sockets ∙ ground arith;
        sends = λ x. add_when-has e.is_out e.socket x s.send_sockets ∙ ground arith;
        distinct_receives =
            add_when-AreDistinct (e.is_in || e.is_error) e.socket s.receive_sockets in_receives;
        distinct_sends = add_when-AreDistinct e.is_out e.socket s.send_sockets in_sends;
      })
    ]

-- Where no list names a socket twice, after the events of `Poll` none does: the sockets to receive
-- from are those before it and those with data or an error, the sockets to send to those before it
-- and those that can be written, the connections of the listener counted with neither; and there
-- are new connections if there were or the listener has one.
pub poll_events-Polled :
    (es : List Event) (b : Bool) (s : TcpServer)
    → AreDistinct s.receive_sockets
    → AreDistinct s.send_sockets
    → Polled es b s (poll_events es b s).0 (poll_events es b s).1
unfolding poll_events
poll_events-Polled [] b s in_receives in_sends = record {
  new_connections = ground arith;
  same_listener = refl;
  receives = λ x. ground arith;
  sends = λ x. ground arith;
  distinct_receives = in_receives;
  distinct_sends = in_sends;
}
poll_events-Polled (e ∷ es) b s in_receives in_sends =
    let one = poll_event-Polled e b s in_receives in_sends in
    let rest =
      poll_events-Polled es (poll_event e b s).0 (poll_event e b s).1 one.distinct_receives
        one.distinct_sends in
    record {
      new_connections =
          rest.new_connections
          ∙ (λ i. one.new_connections i || has_connection (one.same_listener i) es)
          ∙ or_step b (is_connection s.listener_socket e) (has_connection s.listener_socket es);
      same_listener = rest.same_listener ∙ one.same_listener;
      receives = λ x.
          rest.receives x
          ∙ (λ i.
              one.receives x i || has_event (λ e. e.is_in || e.is_error) (one.same_listener i) x es)
          ∙ or_step (has x s.receive_sockets)
              (not (is_connection s.listener_socket e)
                && (e.is_in || e.is_error)
                && (x == e.socket))
              (has_event (λ e. e.is_in || e.is_error) s.listener_socket x es);
      sends = λ x.
          rest.sends x
          ∙ (λ i. one.sends x i || has_event (λ e. e.is_out) (one.same_listener i) x es)
          ∙ or_step (has x s.send_sockets)
              (not (is_connection s.listener_socket e) && (e.is_out) && (x == e.socket))
              (has_event (λ e. e.is_out) s.listener_socket x es);
      distinct_receives = rest.distinct_receives;
      distinct_sends = rest.distinct_sends;
    }
