-- ===== src/Trading/RandomClient/Refused.antt =====
-- What the exchange makes of the orders of the random client of trading/main.cpp.
use low_latency.Prelude.{
  ℕ, zero, suc, ◌≡◌, refl, List, [], ◌∷◌, ◌++◌, leb, ◌%◌, length, Bool-cases, inl, inr, fault,
  out_of_range,
}
use low_latency.Common.Types.{ticker_id_invalid}
use low_latency.Common.Messages.{MeClientRequest}
use low_latency.Exchange.MatchingEngine.{MatchingEngine, process_client_request}
use low_latency.Trading.RandomClient.{
  Draws, RandomClient, random_request, request_or, random_round, random_rounds,
}

-- Every request has the ticker that no request should have.
abbrev pub HaveNoTicker : List MeClientRequest → Type 0
HaveNoTicker [] = Unit
HaveNoTicker (r ∷ rs) = (r.ticker_id ≡ ticker_id_invalid) × HaveNoTicker rs

HaveNoTicker-append :
    (xs ys : List MeClientRequest) → HaveNoTicker xs → HaveNoTicker ys → HaveNoTicker (xs ++ ys)
HaveNoTicker-append [] ys h k = k
HaveNoTicker-append (x ∷ xs) ys (e, h) k = (e, HaveNoTicker-append xs ys h k)

request_or-HaveNoTicker :
    (r : MeClientRequest) (xs : List MeClientRequest) (i : ℕ)
    → r.ticker_id ≡ ticker_id_invalid
    → HaveNoTicker xs
    → (request_or r xs i).ticker_id ≡ ticker_id_invalid
request_or-HaveNoTicker r [] i e h = e
request_or-HaveNoTicker r (x ∷ xs) zero e (f, h) = f
request_or-HaveNoTicker r (x ∷ xs) (suc i) e (f, h) = request_or-HaveNoTicker r xs i e h

-- What the client has kept and what it has sent.
record Untargeted (c : RandomClient) : Type 0 where
  kept : HaveNoTicker c.random_requests
  gone : HaveNoTicker c.sent

random_round-Untargeted :
    (base_price : ℕ → ℕ) (d : Draws) (c : RandomClient)
    → Untargeted c
    → Untargeted (random_round base_price d c)
unfolding random_round random_request
random_round-Untargeted base_price d c h =
    let r = random_request base_price d c in
    let all = HaveNoTicker-append c.random_requests (r ∷ []) h.kept (refl, tt) in
    record {
      kept = all;
      gone = HaveNoTicker-append c.sent _ h.gone (
        refl,
        (
          request_or-HaveNoTicker r (c.random_requests ++ (r ∷ []))
              (d.cancelled % length (c.random_requests ++ (r ∷ []))) refl all,
          tt,
        ),
      );
    }

random_rounds-Untargeted :
    (base_price : ℕ → ℕ) (ds : List Draws) (c : RandomClient)
    → Untargeted c
    → Untargeted (random_rounds base_price ds c)
unfolding random_rounds
random_rounds-Untargeted base_price [] c h = h
random_rounds-Untargeted base_price (d ∷ ds) c h =
    let one = random_round-Untargeted base_price d c h in
    elim (Bool-cases (leb 60 d.silent_seconds)) [
      | inl e ↦ rw e one
      | inr e ↦ rw e (random_rounds-Untargeted base_price ds (random_round base_price d c) one)
    ]

-- The exchange stops at each of these requests.
abbrev pub StopAll : (fuel : ℕ) → MatchingEngine → List MeClientRequest → Type 0
StopAll fuel e [] = Unit
StopAll fuel e (r ∷ rs) = (process_client_request fuel r e ≡ fault out_of_range) × StopAll fuel e rs

stops :
    (fuel : ℕ) (e : MatchingEngine) (rs : List MeClientRequest)
    → HaveNoTicker rs
    → StopAll fuel e rs
unfolding process_client_request
stops fuel e [] h = tt
stops fuel e (r ∷ rs) (t, h) = (rw t refl, stops fuel e rs h)

-- Every request that the random client sends from its start on, in any number of rounds and for
-- any numbers drawn, has an invalid ticker: any matching engine stops at it with an index out of
-- range.
pub random_rounds-StopAll :
    (base_price : ℕ → ℕ) (ds : List Draws) (client order fuel : ℕ) (e : MatchingEngine)
    → StopAll fuel e
        (random_rounds base_price ds (record {
          client_id = client;
          next_order_id = order;
          random_requests = [];
          sent = [];
        })).sent
random_rounds-StopAll base_price ds client order fuel e =
    stops fuel e _
      (random_rounds-Untargeted base_price ds
        (record { client_id = client; next_order_id = order; random_requests = []; sent = [] })
        (record { kept = tt; gone = tt })).gone
