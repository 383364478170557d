-- ===== src/Tests/Data.antt =====
-- Messages and queues that several tests share.
use low_latency.Prelude.{true, false, none, some, ◌==◌, if◌then◌else◌, update}
use low_latency.Common.Types.{Side}
use low_latency.Common.Messages.{
  MeMarketUpdate, no_market_update, ClientRequestType, MeClientRequest, MeClientResponse,
}
use low_latency.Common.SafeQueue.{SafeQueue}
use low_latency.Exchange.MeOrderBook.{MeOrder, Desk}
use low_latency.Exchange.MeOrderBook.Cancelling.{rejection}

abbrev pub bid : MeOrder
bid = record {
  ticker_id = 0;
  client_id = 1;
  client_order_id = 4;
  market_order_id = 0;
  side = Side.buy;
  price = 100;
  quantity = 10;
  priority = 1;
}

abbrev pub responses : SafeQueue MeClientResponse
responses = record {
  store = λ _. rejection 0 0 0;
  size = 8;
  next_write_index = 0;
  next_read_index = 0;
  num_elements = 0;
}

abbrev pub updates : SafeQueue MeMarketUpdate
updates = record {
  store = λ _. no_market_update;
  size = 8;
  next_write_index = 0;
  next_read_index = 0;
  num_elements = 0;
}

abbrev pub buy_request : MeClientRequest
buy_request = record {
  type = ClientRequestType.new;
  client_id = 1;
  ticker_id = 2;
  order_id = 4;
  side = Side.buy;
  price = 100;
  quantity = 10;
}

abbrev pub requests : SafeQueue MeClientRequest
requests = record {
  store = λ _. buy_request;
  size = 8;
  next_write_index = 2;
  next_read_index = 0;
  num_elements = 2;
}

-- A desk whose book has one bid of 10 at 100, in the blocks 0 of the pools.
abbrev pub one_bid : Desk
one_bid = record {
  book = record {
    ticker_id = 0;
    client_id_to_order_id = λ c o. if (c == 1) then (if o == 4 then some 0 else none) else none;
    ladder = record {
      orders_at_price_pool = record {
        store = λ i. record {
          object = record {
            side = Side.buy;
            price = 100;
            first_order = some 0;
            next_entry = some 0;
            prev_entry = some 0;
          };
          is_free = if i == 0 then false else true;
        };
        size = 256;
        next_free_index = 1;
      };
      bids_by_price = some 0;
      asks_by_price = none;
      orders_at_price = update (λ _. none) 100 (some 0);
      orders_pool = record {
        store = λ i. record {
          object = record { order = bid; next_order = none; prev_order = none };
          is_free = if i == 0 then false else true;
        };
        size = 1024;
        next_free_index = 1;
      };
    };
    next_order_id = 1;
  };
  client_responses = responses;
  market_updates = updates;
}
