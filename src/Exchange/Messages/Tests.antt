-- ===== src/Exchange/Messages/Tests.antt =====
-- Prints of concrete messages.
use electronic_trading_ecosy.Base.{◌≡◌, refl, some}
use electronic_trading_ecosy.Base.Text.{codes, decimal}
use electronic_trading_ecosy.Common.Types.{Side, price_invalid}
use electronic_trading_ecosy.Common.Printing.{number_to_string, side_to_string}
use electronic_trading_ecosy.Exchange.Messages.{
  ClientResponseType, MeClientResponse, MarketUpdateType, default_market_update,
}
use electronic_trading_ecosy.Exchange.Messages.Printing.{
  client_response_type_to_string, client_response_to_string, market_update_type_to_string,
  market_update_to_string,
}
use electronic_trading_ecosy.Exchange.Messages.Reading.{
  read_response, read-client_response_to_string,
}

abbrev response : MeClientResponse
response = record {
  type = ClientResponseType.accepted;
  client_id = 1;
  ticker_id = 2;
  client_order_id = 3;
  market_order_id = 40;
  side = Side.sell;
  price = price_invalid;
  exec_qty = 0;
  left_qty = 70;
}

response_text :
    client_response_to_string response
    ≡ codes
        "MEClientResponse [type:ACCEPTED client: 1 ticker: 2 client_oid: 3 market_oid: 40 side: SELL price: INVALID executed_qty: 0 left_qty: 70]"
unfolding client_response_to_string client_response_type_to_string number_to_string side_to_string
    decimal
response_text = refl

default_text :
    market_update_to_string default_market_update
    ≡ codes
        "MEMarketUpdate [type:INVALID oid:INVALID ticker:INVALID side:INVALID price:INVALID qty:INVALID priority:INVALID]"
unfolding market_update_to_string market_update_type_to_string number_to_string side_to_string
default_text = refl

-- three types print alike
unknown_types :
    (market_update_type_to_string MarketUpdateType.clear ≡ codes "UNKNOWN")
    × (market_update_type_to_string MarketUpdateType.snapshot_start ≡ codes "UNKNOWN")
    × (market_update_type_to_string MarketUpdateType.snapshot_end ≡ codes "UNKNOWN")
unfolding market_update_type_to_string
unknown_types = (refl, refl, refl)

read-client_response_to_string_example :
    read_response (client_response_to_string response) ≡ some response
read-client_response_to_string_example = read-client_response_to_string response tt tt
