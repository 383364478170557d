-- ===== src/Exchange/MatchingEngine.antt =====
-- exchange/matcher/MatchingEngine.h and MatchingEngine.cpp: the engine hands each request to the
-- book of its ticker. The queues to and from the other threads are fields.
pub mod Books
use low_latency.Prelude.{
  ℕ, zero, suc, none, some, ltb, update, if◌then◌else◌, Ptr, Run, fault, Cmd, ok, out_of_fuel,
  out_of_range, put_back, pure, get, modify, within, ◌>>=◌, ◌>>◌,
}
use low_latency.Common.Limits.{me_max_tickers}
use low_latency.Common.Messages.{
  ClientRequestType, MeClientRequest, MeClientResponse, MeMarketUpdate,
}
use low_latency.Common.SafeQueue.{SafeQueue, get_next_read, update_read_index}
use low_latency.Exchange.MeOrderBook.{MeOrder, MeOrderBook, Desk, make}
use low_latency.Exchange.MeOrderBook.Add.{add}
use low_latency.Exchange.MeOrderBook.Cancel.{cancel}

pub record MatchingEngine : Type 0 where
  pub order_book : ℕ → MeOrderBook
  pub client_requests : SafeQueue MeClientRequest
  pub client_responses : SafeQueue MeClientResponse
  pub market_update : SafeQueue MeMarketUpdate

-- The constructor makes a book for each ticker; `garbage` is what the memory of each held.
unfoldable pub make_engine :
    (garbage : ℕ → ℕ → ℕ → Ptr) (blank : MeOrder)
    → SafeQueue MeClientRequest
    → SafeQueue MeClientResponse
    → SafeQueue MeMarketUpdate
    → MatchingEngine
unfolding make
make_engine garbage blank requests responses updates = record {
  order_book = λ i. make i (garbage i) blank;
  client_requests = requests;
  client_responses = responses;
  market_update = updates;
}

-- The desk of a ticker, and the engine with that desk put back.
abbrev pub desk_of : ℕ → MatchingEngine → Desk
desk_of ticker e = record {
  book = e.order_book ticker;
  client_responses = e.client_responses;
  market_updates = e.market_update;
}

abbrev pub with_desk : ℕ → Desk → MatchingEngine → MatchingEngine
with_desk ticker d e = record e {
  order_book = update e.order_book ticker d.book;
  client_responses = d.client_responses;
  market_update = d.market_updates;
}

-- The `switch` of `ProcessClientRequest`.
unfoldable pub dispatch : (fuel : ℕ) → ClientRequestType → MeClientRequest → Cmd Desk (Unit {0})
unfolding add cancel
dispatch fuel ClientRequestType.new r =
    add fuel r.client_id r.order_id r.ticker_id r.side r.price r.quantity
dispatch fuel ClientRequestType.cancel r = cancel r.client_id r.order_id r.ticker_id
dispatch fuel ClientRequestType.invalid r = pure tt

-- `ProcessClientRequest`: the ticker is an index into a `std::array`, with no test before.
unfoldable pub process_client_request : (fuel : ℕ) → MeClientRequest → Cmd MatchingEngine (Unit {0})
unfolding dispatch
process_client_request fuel r e =
    if ltb r.ticker_id me_max_tickers
    then within (desk_of r.ticker_id) (with_desk r.ticker_id) (dispatch fuel r.type r) e
    else fault out_of_range

-- `Run`, for as many rounds as are given; a round with no request does nothing.
unfoldable pub run : (rounds fuel : ℕ) → Cmd MatchingEngine (Unit {0})
unfolding process_client_request get_next_read update_read_index
run zero fuel = pure tt
run (suc rounds) fuel = do
  e ← get
  elim (get_next_read e.client_requests) [
    | none ↦ pure tt
    | some r ↦ do
      process_client_request fuel r
      within (λ s. s.client_requests) (λ q s. record s { client_requests = q }) update_read_index
  ]
  run rounds fuel
