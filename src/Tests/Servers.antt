-- ===== src/Tests/Servers.antt =====
-- The theorems on the threads around the matching engine, at small queues and messages.
use low_latency.Prelude.{ℕ, ◌+◌, ◌≡◌, refl, inl, some, List, [], ◌∷◌, ◌++◌, arith, ok}
use low_latency.Prelude.Ensures.{Ensures}
use low_latency.Common.Types.{Side, u64}
use low_latency.Common.Messages.{
  MarketUpdateType, MeMarketUpdate, MpdMarketUpdate, no_market_update, OmClientRequest,
}
use low_latency.Exchange.MarketDataPublisher.{MarketDataPublisher, publish_updates}
use low_latency.Exchange.MarketDataPublisher.Numbering.{Published, publish_updates-Published}
use low_latency.Exchange.OrderServer.{OrderServer, make_server, bind_client, recv_callback}
use low_latency.Prelude.Ensures.{Returns}
use low_latency.Exchange.OrderServer.Requests.{
  in_sequence, number_after, Received, recv_callback-Received, recv_callback-AreElsewhere,
}
use low_latency.Exchange.OrderServer.Admission.{recv_callback-socket}
use low_latency.Exchange.SnapshotSynthesizer.{
  make_synthesizer, add_to_snapshot, frame, publish_snapshot,
}
use low_latency.Exchange.SnapshotSynthesizer.Snapshots.{
  add_to_snapshot-table, publish_snapshot-empty,
}
use low_latency.Tests.Data.{responses, buy_request, requests}

abbrev publisher : MarketDataPublisher
publisher = record {
  next_sequence_number = 41;
  market_update_queue = record {
    store = λ _. no_market_update;
    size = 8;
    next_write_index = 1;
    next_read_index = 7;
    num_elements = 2;
  };
  snapshot_queue = record {
    store = λ _. record { sequence_number = 0; market_update = no_market_update };
    size = 8;
    next_write_index = 0;
    next_read_index = 0;
    num_elements = 0;
  };
  outbound = [];
}

abbrev two_updates : List MeMarketUpdate
two_updates = no_market_update ∷ no_market_update ∷ []

publish_updates-Published_example :
    (t : MarketDataPublisher) × (publish_updates 3 publisher ≡ ok tt t)
    × Published two_updates publisher t
publish_updates-Published_example = publish_updates-Published two_updates publisher (record {
  queue_valid = ground arith;
  holds = refl;
  snapshot_valid = ground arith;
  room = omega arith;
})

abbrev server : OrderServer
server = make_server responses (record { pending_requests = []; client_requests = requests })

abbrev message : ℕ → OmClientRequest
message n = record { sequence_number = n; client_request = buy_request }

recv_callback-Received_example :
    Returns
      (λ _ t.
        Received 1
          (in_sequence 77 1 (message 1 ∷ message 1 ∷ message 2 ∷ []))
          (number_after 1 (message 1 ∷ message 1 ∷ message 2 ∷ []))
          (some 9)
          server
          t)
      (recv_callback 9 77 (message 1 ∷ message 1 ∷ message 2 ∷ []) server)
unfolding make_server
recv_callback-Received_example =
    recv_callback-Received 9 1 77 (message 1 ∷ message 1 ∷ message 2 ∷ []) server (omega arith)
      (inl refl) (refl, (refl, (refl, tt))) (omega arith)

recv_callback-AreElsewhere_example :
    recv_callback 5 77 (message 1 ∷ message 2 ∷ []) (bind_client 9 1 server)
    ≡ ok tt (bind_client 9 1 server)
unfolding bind_client make_server
recv_callback-AreElsewhere_example =
    recv_callback-AreElsewhere 5 77 (message 1 ∷ message 2 ∷ []) (bind_client 9 1 server)
      (omega arith, (9, refl, omega arith), (omega arith, (9, refl, omega arith), tt))

recv_callback-socket_example :
    Ensures
      (λ _ t. t.client_id_to_socket 1 ≡ some 9)
      (recv_callback 5 77 (message 1 ∷ message 2 ∷ []) (bind_client 9 1 server))
unfolding bind_client make_server
recv_callback-socket_example =
    recv_callback-socket 5 77 (message 1 ∷ message 2 ∷ []) 1 9 (bind_client 9 1 server) refl

abbrev change : MarketUpdateType → MpdMarketUpdate
change type = record {
  sequence_number = 1;
  market_update = record no_market_update {
    type = type;
    order_id = 3;
    ticker_id = 2;
    side = Side.buy;
  };
}

add_to_snapshot-table_example :
    Ensures
      (λ _ t.
        (t.orders_by_tickers ≡ make_synthesizer.orders_by_tickers)
        × (1 ≡ u64 (make_synthesizer.last_sequence_incremental_number + 1))
        × (t.last_sequence_incremental_number ≡ 1))
      (add_to_snapshot (change MarketUpdateType.add) make_synthesizer)
add_to_snapshot-table_example = add_to_snapshot-table (change MarketUpdateType.add) make_synthesizer

publish_snapshot-empty_example :
    (publish_snapshot make_synthesizer).sent
    ≡ (make_synthesizer.sent
        ++ (frame MarketUpdateType.snapshot_start 0
              make_synthesizer.last_sequence_incremental_number
            ∷ []))
      ++ (frame MarketUpdateType.snapshot_end 9 make_synthesizer.last_sequence_incremental_number
          ∷ [])
unfolding make_synthesizer
publish_snapshot-empty_example = publish_snapshot-empty make_synthesizer λ t j. refl
