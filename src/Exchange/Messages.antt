-- ===== src/Exchange/Messages.antt =====
-- exchange/order_server/client_request.h and client_response.h, exchange/market_data/market_update.h:
-- what the components send one another.
pub mod Printing
pub mod Reading
mod Tests
use electronic_trading_ecosy.Base.{ℕ}
use electronic_trading_ecosy.Common.Types.{
  Side, order_id_invalid, ticker_id_invalid, price_invalid, qty_invalid, priority_invalid,
}

-- The three types are bytes, and a message may hold another than the enumerators': `unnamed`, with that
-- byte.
pub data ClientRequestType : Type 0 where
  invalid new cancel : ClientRequestType
  unnamed : (byte : ℕ) → ClientRequestType

pub record MeClientRequest : Type 0 where
  pub request_type : ClientRequestType
  pub client_id : ℕ
  pub ticker_id : ℕ
  pub order_id : ℕ
  pub price : ℕ
  pub qty : ℕ
  pub side : Side

-- what the order server receives
pub record OmClientRequest : Type 0 where
  pub seq_num : ℕ
  pub me_client_request : MeClientRequest

pub data ClientResponseType : Type 0 where
  invalid accepted canceled filled partial_fill cancel_rejected : ClientResponseType
  unnamed : (byte : ℕ) → ClientResponseType

pub record MeClientResponse : Type 0 where
  pub type : ClientResponseType
  pub client_id : ℕ
  pub ticker_id : ℕ
  pub client_order_id : ℕ
  pub market_order_id : ℕ
  pub side : Side
  pub price : ℕ
  pub exec_qty : ℕ
  pub left_qty : ℕ

-- what the order gateway receives
pub record OmClientResponse : Type 0 where
  pub seq_num : ℕ
  pub me_client_response : MeClientResponse

pub data MarketUpdateType : Type 0 where
  invalid add modify cancel trade clear snapshot_start snapshot_end : MarketUpdateType
  unnamed : (byte : ℕ) → MarketUpdateType

pub record MeMarketUpdate : Type 0 where
  pub type : MarketUpdateType
  pub order_id : ℕ
  pub ticker_id : ℕ
  pub side : Side
  pub price : ℕ
  pub qty : ℕ
  pub priority : ℕ

-- the default member values, which `MEMarketUpdate me_market_update;` has
abbrev pub default_market_update : MeMarketUpdate
default_market_update = record {
  type = MarketUpdateType.invalid;
  order_id = order_id_invalid;
  ticker_id = ticker_id_invalid;
  side = Side.invalid;
  price = price_invalid;
  qty = qty_invalid;
  priority = priority_invalid;
}

pub record MdpMarketUpdate : Type 0 where
  pub seq_num : ℕ
  pub me_market_update : MeMarketUpdate
