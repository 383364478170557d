-- ===== src/Common/Messages.antt =====
-- common/MarketUpdate.h, exchange/order_server/ClientRequest.h and ClientResponse.h: the messages
-- between the exchange and its clients.
use Prim.Native.String.{String}
use low_latency.Prelude.{ℕ, Bool, true, false}
use low_latency.Common.Types.{
  Side, order_id_invalid, ticker_id_invalid, price_invalid, quantity_invalid, priority_invalid,
}

pub data MarketUpdateType : Type 0 where
  invalid add modify cancel trade clear snapshot_start snapshot_end : MarketUpdateType

unfoldable pub market_update_type_to_string : MarketUpdateType → String
market_update_type_to_string MarketUpdateType.invalid = "INVALID"
market_update_type_to_string MarketUpdateType.add = "ADD"
market_update_type_to_string MarketUpdateType.modify = "MODIFY"
market_update_type_to_string MarketUpdateType.cancel = "CANCEL"
market_update_type_to_string MarketUpdateType.trade = "TRADE"
market_update_type_to_string MarketUpdateType.clear = "CLEAR"
market_update_type_to_string MarketUpdateType.snapshot_start = "SNAPSHOT_START"
market_update_type_to_string MarketUpdateType.snapshot_end = "SNAPSHOT_END"

pub record MeMarketUpdate : Type 0 where
  pub type : MarketUpdateType
  pub order_id : ℕ
  pub ticker_id : ℕ
  pub side : Side
  pub price : ℕ
  pub priority : ℕ
  pub quantity : ℕ

-- What the member initialisers give.
abbrev pub no_market_update : MeMarketUpdate
no_market_update = record {
  type = MarketUpdateType.invalid;
  order_id = order_id_invalid;
  ticker_id = ticker_id_invalid;
  side = Side.invalid;
  price = price_invalid;
  priority = priority_invalid;
  quantity = quantity_invalid;
}

pub record MpdMarketUpdate : Type 0 where
  pub sequence_number : ℕ
  pub market_update : MeMarketUpdate

-- The two types that frame a snapshot.
abbrev pub is_snapshot_start : MarketUpdateType → Bool
is_snapshot_start MarketUpdateType.snapshot_start = true
is_snapshot_start _ = false

abbrev pub is_snapshot_end : MarketUpdateType → Bool
is_snapshot_end MarketUpdateType.snapshot_end = true
is_snapshot_end _ = false

pub data ClientRequestType : Type 0 where
  invalid new cancel : ClientRequestType

unfoldable pub client_request_type_to_string : ClientRequestType → String
client_request_type_to_string ClientRequestType.invalid = "INVALID"
client_request_type_to_string ClientRequestType.new = "NEW"
client_request_type_to_string ClientRequestType.cancel = "CANCEL"

pub record MeClientRequest : Type 0 where
  pub type : ClientRequestType
  pub client_id : ℕ
  pub ticker_id : ℕ
  pub order_id : ℕ
  pub side : Side
  pub price : ℕ
  pub quantity : ℕ

pub record OmClientRequest : Type 0 where
  pub sequence_number : ℕ
  pub client_request : MeClientRequest

pub data ClientResponseType : Type 0 where
  invalid accepted canceled filled cancel_rejected : ClientResponseType

unfoldable pub client_response_type_to_string : ClientResponseType → String
client_response_type_to_string ClientResponseType.invalid = "INVALID"
client_response_type_to_string ClientResponseType.accepted = "ACCEPTED"
client_response_type_to_string ClientResponseType.canceled = "CANCELED"
client_response_type_to_string ClientResponseType.filled = "FILLED"
client_response_type_to_string ClientResponseType.cancel_rejected = "CANCEL_REJECTED"

abbrev pub is_filled : ClientResponseType → Bool
is_filled ClientResponseType.filled = true
is_filled _ = false

pub record MeClientResponse : Type 0 where
  pub type : ClientResponseType
  pub client_id : ℕ
  pub ticker_id : ℕ
  pub client_order_id : ℕ
  pub market_order_id : ℕ
  pub side : Side
  pub price : ℕ
  pub executed_quantity : ℕ
  pub leaves_quantity : ℕ

pub record OmClientResponse : Type 0 where
  pub sequence_number : ℕ
  pub client_response : MeClientResponse
