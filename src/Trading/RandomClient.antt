-- ===== src/Trading/RandomClient.antt =====
-- trading/main.cpp: how the client reads its arguments, and the orders that it sends when its
-- algorithm is RANDOM. `rand` is a parameter, as are `atoi` and `atof`; the pauses are left out.
pub mod Arguments
pub mod Refused
use low_latency.Prelude.{
  ℕ, zero, suc, ◌+◌, ◌*◌, ◌%◌, ◌==◌, leb, List, [], ◌∷◌, ◌++◌, length, Option, none, some, update,
  if◌then◌else◌, true, false, Cmd, ok, fault, out_of_range, pure, modify, get, ◌>>=◌, ◌>>◌,
}
use low_latency.Common.Types.{Side, u64}
use low_latency.Common.Limits.{me_max_tickers}
use low_latency.Common.Messages.{ClientRequestType, MeClientRequest}
use low_latency.Trading.RiskManager.{TradeEngineConfig}
use low_latency.Common.Types.{ticker_id_invalid}

-- `argv[i]`
abbrev pub argument : {A : Type 0} → List A → ℕ → Option A
argument [] i = none
argument (a ∷ as_) zero = some a
argument (a ∷ as_) (suc i) = argument as_ i

module _ {A F : Type 0} (read_config : (a b c d e : A) → TradeEngineConfig F) where
  -- The `for` over `argv`, five arguments at a time from the first: `nextTickerId` stays 0, so each
  -- round writes the configuration of ticker 0. An argument that is not there is a null pointer or
  -- worse.
  unfoldable pub read_arguments : List A → Cmd (ℕ → TradeEngineConfig F) (Unit {0})
  read_arguments [] = pure tt
  read_arguments (a ∷ b ∷ c ∷ d ∷ e ∷ as_) = do
    modify (λ config. update config 0 (read_config a b c d e))
    read_arguments as_
  read_arguments _ = λ _. fault out_of_range

-- What `rand` gives in a round, and what `SilentSeconds` returns at its end.
pub record Draws : Type 0 where
  pub ticker : ℕ
  pub price : ℕ
  pub quantity : ℕ
  pub side : ℕ
  pub cancelled : ℕ
  pub silent_seconds : ℕ

pub record RandomClient : Type 0 where
  pub client_id : ℕ
  pub next_order_id : ℕ
  pub random_requests : List MeClientRequest
  pub sent : List MeClientRequest

-- The order of a round: its `tickerId` is never set, and so has its default.
unfoldable pub random_request : (base_price : ℕ → ℕ) → Draws → RandomClient → MeClientRequest
random_request base_price d c = record {
  type = ClientRequestType.new;
  client_id = c.client_id;
  ticker_id = ticker_id_invalid;
  order_id = c.next_order_id;
  side = if d.side % 2 == 0 then Side.sell else Side.buy;
  price = base_price (d.ticker % me_max_tickers) + d.price % 10 + 1;
  quantity = 1 + d.quantity % 100 + 1;
}

-- `randomRequests[indexToCancel]`
abbrev pub request_or : MeClientRequest → List MeClientRequest → ℕ → MeClientRequest
request_or r [] i = r
request_or r (x ∷ xs) zero = x
request_or r (x ∷ xs) (suc i) = request_or r xs i

abbrev pub to_cancel : MeClientRequest → MeClientRequest
to_cancel r = record r { type = ClientRequestType.cancel }

-- One round: an order is sent, and one of all that were sent is cancelled.
unfoldable pub random_round : (base_price : ℕ → ℕ) → Draws → RandomClient → RandomClient
unfolding random_request
random_round base_price d c =
    let r = random_request base_price d c in
    let all = c.random_requests ++ (r ∷ []) in
    record c {
      next_order_id = u64 (c.next_order_id + 1);
      random_requests = all;
      sent = c.sent ++ (r ∷ to_cancel (request_or r all (d.cancelled % length all)) ∷ []);
    }

-- The rounds, of which there are 10000 unless the market is silent for a minute.
unfoldable pub random_rounds : (base_price : ℕ → ℕ) → List Draws → RandomClient → RandomClient
unfolding random_round
random_rounds base_price [] c = c
random_rounds base_price (d ∷ ds) c =
    let rest = random_rounds base_price ds (random_round base_price d c) in
    if leb 60 d.silent_seconds then random_round base_price d c else rest
