-- ===== src/Tests/Streams.antt =====
-- The theorems on the gateway and the market data consumer, at small queues and messages.
use low_latency.Prelude.{◌≡◌, refl, true, false, List, [], ◌∷◌, ◌++◌, arith}
use low_latency.Prelude.{ok}
use low_latency.Trading.OrderGateway.{send_requests}
use low_latency.Trading.OrderGateway.Sending.{Sent, send_requests-Sent}
use low_latency.Common.Messages.{
  MarketUpdateType, MeMarketUpdate, no_market_update, OmClientResponse,
}
use low_latency.Common.SafeQueue.{make}
use low_latency.Common.SafeQueue.Fifo.{contents, make-IsValid}
use low_latency.Trading.OrderGateway.{OrderGateway, recv_callback}
use low_latency.Trading.OrderGateway.Sequence.{accepted, recv_callback-accepted}
use low_latency.Trading.MarketDataConsumer.{MarketDataConsumer}
use low_latency.Trading.MarketDataConsumer.Recovery.{check_snapshot_sync, receive_updates}
use low_latency.Trading.MarketDataConsumer.Streams.{
  stream, keyed, Passed, receive_updates-in_sequence, check_snapshot_sync_complete,
}
use low_latency.Trading.MarketDataConsumer.Recovered.{Recovered}
use low_latency.Tests.Client.{request, answer}

abbrev gateway : OrderGateway
gateway = record {
  client_id = 3;
  requests = make 8 request;
  responses = make 8 answer;
  next_outgoing_sequence_number = 1;
  next_expected_sequence_number = 1;
  outbound = [];
}

abbrev answers : List OmClientResponse
answers =
    record { sequence_number = 1; client_response = answer }
    ∷ record { sequence_number = 1; client_response = answer }
    ∷ record { sequence_number = 2; client_response = answer }
    ∷ []

recv_callback-accepted_example :
    contents (recv_callback answers gateway).responses
    ≡ contents gateway.responses ++ accepted 3 1 answers
unfolding make
recv_callback-accepted_example =
    recv_callback-accepted answers gateway (make-IsValid 8 answer (omega arith) (omega arith))
      (omega arith)

abbrev consumer : MarketDataConsumer
consumer = record {
  market_updates = make 8 no_market_update;
  next_expected_sequence_number = 1;
  in_recovery = false;
  snapshot_queued_messages = [];
  incremental_queued_messages = [];
}

abbrev two_updates : List MeMarketUpdate
two_updates = no_market_update ∷ no_market_update ∷ []

receive_updates-in_sequence_example :
    Passed two_updates consumer (receive_updates false (stream 1 two_updates) consumer)
unfolding make
receive_updates-in_sequence_example =
    receive_updates-in_sequence two_updates consumer
      (make-IsValid 8 no_market_update (omega arith) (omega arith)) (omega arith) refl

abbrev start : MeMarketUpdate
start = record no_market_update { type = MarketUpdateType.snapshot_start }

abbrev end : MeMarketUpdate
end = record no_market_update { type = MarketUpdateType.snapshot_end; order_id = 4 }

abbrev recovering : MarketDataConsumer
recovering = record consumer {
  in_recovery = true;
  snapshot_queued_messages = keyed 1 (start ∷ no_market_update ∷ end ∷ []);
}

check_snapshot_sync_complete_example :
    check_snapshot_sync recovering ≡ record recovering { snapshot_queued_messages = [] }
check_snapshot_sync_complete_example =
    check_snapshot_sync_complete (start ∷ no_market_update ∷ end ∷ []) recovering refl

-- A snapshot as the exchange numbers it, with an order, and two updates that wait.
abbrev published : MarketDataConsumer
published = record consumer {
  in_recovery = true;
  snapshot_queued_messages = (0, start) ∷ (2, no_market_update) ∷ (9, end) ∷ [];
  incremental_queued_messages = keyed 5 (no_market_update ∷ no_market_update ∷ []);
}

abbrev sender : OrderGateway
sender = record gateway {
  requests = record {
    store = λ _. request;
    size = 8;
    next_write_index = 1;
    next_read_index = 7;
    num_elements = 2;
  };
}

send_requests-Sent_example :
    (t : OrderGateway) × (send_requests 3 sender ≡ ok tt t) × Sent (request ∷ request ∷ []) sender t
send_requests-Sent_example = send_requests-Sent (request ∷ request ∷ []) sender (ground arith) refl
