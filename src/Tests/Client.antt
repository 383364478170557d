-- ===== src/Tests/Client.antt =====
-- Positions, limits and messages that the tests of the trading client share. The numbers of `exact`
-- are whole ones.
use low_latency.Prelude.{ℕ, ◌+◌, ◌-◌, ◌*◌, ◌==◌, ltb, leb}
use low_latency.Prelude.Int.{pos, pos_part}
use low_latency.Common.Types.{Side}
use low_latency.Common.Double.{Double}
use low_latency.Common.Messages.{
  MeClientRequest, ClientRequestType, ClientResponseType, MeClientResponse,
}
use low_latency.Trading.PositionKeeper.{PositionInfo}
use low_latency.Trading.RiskManager.{RiskConfig}

abbrev pub exact : Double ℕ
exact = record {
  of_nat = λ n. n;
  of_int = pos_part;
  plus = λ a b. a + b;
  minus = λ a b. a - b;
  times = λ a b. a * b;
  over = λ a b. a;
  half = 1;
  nan = 0;
  lt = ltb;
  le = leb;
  eq = λ a b. a == b;
}

abbrev pub long_two : PositionInfo ℕ
long_two = record {
  position = pos 2;
  realized_pnl = 0;
  unrealized_pnl = 7;
  total_pnl = 7;
  open_vwap = λ _. 200;
  volume = 2;
}

abbrev pub limits : RiskConfig ℕ
limits = record { max_order_size = 10; max_positions = 5; max_loss = 1 }

abbrev pub request : MeClientRequest
request = record {
  type = ClientRequestType.invalid;
  client_id = 0;
  ticker_id = 0;
  order_id = 0;
  side = Side.invalid;
  price = 0;
  quantity = 0;
}

abbrev pub answer : MeClientResponse
answer = record {
  type = ClientResponseType.accepted;
  client_id = 3;
  ticker_id = 1;
  client_order_id = 6;
  market_order_id = 0;
  side = Side.buy;
  price = 100;
  executed_quantity = 0;
  leaves_quantity = 3;
}
