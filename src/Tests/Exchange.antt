-- ===== src/Tests/Exchange.antt =====
-- The theorems on the matching engine, at small books.
use low_latency.Exchange.MeOrderBook.{MeOrder-Priced}
use low_latency.Prelude.{◌≡◌, refl, inl, none, arith, fault, null_pointer, out_of_fuel}
use low_latency.Prelude.Ensures.{Ensures}
use low_latency.Common.Types.{Side}
use low_latency.Exchange.MeOrderBook.Matching.{Best, add-crossing, add-used}
use low_latency.Exchange.MeOrderBook.Add.{add}
use low_latency.Exchange.MatchingEngine.{MatchingEngine, make_engine, run}
use low_latency.Exchange.MatchingEngine.Books.{
  BooksUnlinked, make_engine-BooksUnlinked, run-BooksUnlinked,
}
use low_latency.Tests.Data.{one_bid, bid, responses, updates, requests}

one_bid-Best : Best one_bid.book.ladder one_bid.book.ladder.bids_by_price 100
one_bid-Best = record { level = 0; order = 0; is_head = refl; is_first = refl; is_price = refl }

add-crossing_example : add 1000 2 1 0 Side.sell 90 5 one_bid ≡ out_of_fuel
add-crossing_example =
    add-crossing 1000 2 1 0 Side.sell 90 5 100 one_bid (omega arith) (one_bid-Best, omega arith)

add-used_example : add 10 2 1 0 Side.buy 100 5 one_bid ≡ fault null_pointer
add-used_example =
    add-used 9 2 1 0 Side.buy 100 5 100 0 one_bid (omega arith) (λ i. (refl, refl)) (inl refl) refl

abbrev engine : MatchingEngine
engine = make_engine (λ _ _ _. none) bid requests responses updates

run-BooksUnlinked_example : Ensures (λ _ t. BooksUnlinked t) (run 1 20 engine)
run-BooksUnlinked_example =
    run-BooksUnlinked 1 20 engine
      (make_engine-BooksUnlinked (λ _ _ _. none) bid requests responses updates)
