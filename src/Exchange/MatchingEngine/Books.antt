-- ===== src/Exchange/MatchingEngine/Books.antt =====
-- The books of exchange/matcher/MatchingEngine.cpp over whole runs of the engine.
use low_latency.Prelude.{
  ℕ, zero, suc, ◌<◌, ◌≡◌, refl, ◌≢◌, true, none, some, ◌==◌, ltb, Bool-cases, inl, inr, arith, Ptr,
  Cmd, ok, fault, out_of_fuel, Run, put_back, pure, ◌>>◌, within, Option,
}
use low_latency.Prelude.Ensures.{Ensures, done, stopped, unfinished, Keeps}
use low_latency.Prelude.Ensures
use low_latency.Common.Messages.{
  ClientRequestType, MeClientRequest, MeClientResponse, MeMarketUpdate,
}
use low_latency.Common.SafeQueue.{SafeQueue, get_next_read, update_read_index}
use low_latency.Ladder.Unlinked.{Unlinked}
use low_latency.Exchange.MeOrderBook.{MeOrder, Desk}
use low_latency.Exchange.MeOrderBook.NoQueue.{DeskUnlinked}
use low_latency.Exchange.MeOrderBook.Operations.{add-DeskUnlinked, cancel-DeskUnlinked}
use low_latency.Exchange.MatchingEngine.{
  MatchingEngine, make_engine, desk_of, with_desk, dispatch, process_client_request, run,
}

-- No order of any book has a neighbour.
abbrev pub BooksUnlinked : MatchingEngine → Type 0
BooksUnlinked e = (t : ℕ) → Unlinked (e.order_book t).ladder

-- A new engine has such books.
pub make_engine-BooksUnlinked :
    (garbage : ℕ → ℕ → ℕ → Ptr) (blank : MeOrder) (requests : SafeQueue MeClientRequest)
    (responses : SafeQueue MeClientResponse) (updates : SafeQueue MeMarketUpdate)
    → BooksUnlinked (make_engine garbage blank requests responses updates)
unfolding make_engine
make_engine-BooksUnlinked garbage blank requests responses updates t i = (refl, refl)

dispatch-Keeps :
    (fuel : ℕ) (type : ClientRequestType) (r : MeClientRequest)
    → Keeps DeskUnlinked (dispatch fuel type r)
unfolding dispatch
dispatch-Keeps fuel ClientRequestType.new r d h =
    add-DeskUnlinked fuel r.client_id r.order_id r.ticker_id r.side r.price r.quantity d h
dispatch-Keeps fuel ClientRequestType.cancel r d h =
    cancel-DeskUnlinked r.client_id r.order_id r.ticker_id d h
dispatch-Keeps fuel ClientRequestType.invalid r d h = done h

process_client_request-Keeps :
    (fuel : ℕ) (r : MeClientRequest) → Keeps BooksUnlinked (process_client_request fuel r)
unfolding process_client_request
process_client_request-Keeps fuel r e h = elim (Bool-cases (ltb r.ticker_id 8)) [
  | inr f ↦ rw f stopped
  | inl f ↦ rw f (
      Ensures.within-Keeps (desk_of r.ticker_id) (with_desk r.ticker_id) (dispatch fuel r.type r)
        (λ s k. k r.ticker_id) (λ s d k u. put s d k u) (dispatch-Keeps fuel r.type r) e h)
]
  where
    put :
        (s : MatchingEngine) (d : Desk)
        → BooksUnlinked s
        → DeskUnlinked d
        → BooksUnlinked (with_desk r.ticker_id d s)
    put s d k u t = elim (Bool-cases (t == r.ticker_id)) [
      | inl same ↦ rw same u
      | inr other ↦ rw other (k t)
    ]

-- If no order of any book has a neighbour, that is so at the end of any number of rounds of `Run`
-- that the engine gets through, whatever the requests: no two orders of a price are ever linked.
pub run-BooksUnlinked :
    (rounds fuel : ℕ) (e : MatchingEngine)
    → BooksUnlinked e
    → Ensures (λ _ t. BooksUnlinked t) (run rounds fuel e)
unfolding run
run-BooksUnlinked zero fuel e h = done h
run-BooksUnlinked (suc rounds) fuel e h =
    Ensures.bind (round (get_next_read e.client_requests))
      λ _ e₁ h₁. run-BooksUnlinked rounds fuel e₁ h₁
  where
    queue :
        (e : MatchingEngine)
        → BooksUnlinked e
        → (x : Run (SafeQueue MeClientRequest) (Unit {0}))
        → Ensures (λ _ t. BooksUnlinked t) (put_back (λ q. record e { client_requests = q }) x)
    queue e h (ok a q) = done h
    queue e h (fault f) = stopped
    queue e h out_of_fuel = unfinished

    round :
        (next : Option MeClientRequest)
        → Ensures
            (λ _ t. BooksUnlinked t)
            ((elim next as (λ _. Cmd MatchingEngine (Unit {0})) [
              | none ↦ pure tt
              | some r ↦
                  process_client_request fuel r
                  >> within
                      (λ s. s.client_requests)
                      (λ q s. record s { client_requests = q })
                      update_read_index
            ])
              e)
    round none = done h
    round (some r) =
        Ensures.bind (process_client_request-Keeps fuel r e h)
          λ _ e₁ h₁. queue e₁ h₁ (update_read_index e₁.client_requests)

-- A request that the engine gets through has a ticker in range and leaves the books of all other
-- tickers as they were.
pub process_client_request-others :
    (fuel : ℕ) (r : MeClientRequest) (e : MatchingEngine)
    → Ensures
        (λ _ e'. (r.ticker_id < 8) × ((t : ℕ) → t ≢ r.ticker_id → e'.order_book t ≡ e.order_book t))
        (process_client_request fuel r e)
unfolding process_client_request
process_client_request-others fuel r e = elim (Bool-cases (ltb r.ticker_id 8)) [
  | inr f ↦ rw f stopped
  | inl f ↦ rw f (kept f (dispatch fuel r.type r (desk_of r.ticker_id e)))
]
  where
    kept :
        ltb r.ticker_id 8 ≡ true
        → (x : Run Desk (Unit {0}))
        → Ensures
            (λ _ e'.
              (r.ticker_id < 8) × ((t : ℕ) → t ≢ r.ticker_id → e'.order_book t ≡ e.order_book t))
            (put_back (λ d. with_desk r.ticker_id d e) x)
    kept f (ok a d) = done (ground arith, λ t ne. ground arith)
    kept f (fault g) = stopped
    kept f out_of_fuel = unfinished
