-- ===== src/Exchange/Messages/Printing.antt =====
-- exchange/order_server/client_request.h and client_response.h, exchange/market_data/market_update.h:
-- the `toString` functions.
use electronic_trading_ecosy.Base.{[], ◌∷◌}
use electronic_trading_ecosy.Base.Text.{Bytes, codes, decimal, stream}
use electronic_trading_ecosy.Common.Printing.{
  order_id_to_string, ticker_id_to_string, client_id_to_string, price_to_string, qty_to_string,
  priority_to_string, side_to_string,
}
use electronic_trading_ecosy.Exchange.Messages.{
  ClientRequestType, MeClientRequest, OmClientRequest, ClientResponseType, MeClientResponse,
  OmClientResponse, MarketUpdateType, MeMarketUpdate, MdpMarketUpdate,
}

unfoldable pub client_request_type_to_string : ClientRequestType → Bytes
client_request_type_to_string ClientRequestType.invalid = codes "INVALID"
client_request_type_to_string ClientRequestType.new = codes "NEW"
client_request_type_to_string ClientRequestType.cancel = codes "CANCEL"
client_request_type_to_string (ClientRequestType.unnamed byte) = codes "UNKNOWN"

unfoldable pub client_request_to_string : MeClientRequest → Bytes
client_request_to_string r = stream (
    codes "MEClientRequest"
    ∷ codes " ["
    ∷ codes "type:"
    ∷ client_request_type_to_string r.request_type
    ∷ codes " client: "
    ∷ client_id_to_string r.client_id
    ∷ codes " ticker: "
    ∷ ticker_id_to_string r.ticker_id
    ∷ codes " oid: "
    ∷ order_id_to_string r.order_id
    ∷ codes " side: "
    ∷ side_to_string r.side
    ∷ codes " qty: "
    ∷ qty_to_string r.qty
    ∷ codes " price: "
    ∷ price_to_string r.price
    ∷ codes "]"
    ∷ [])

unfoldable pub om_client_request_to_string : OmClientRequest → Bytes
unfolding client_request_to_string
om_client_request_to_string r = stream (
    codes "OMClientRequest: "
    ∷ codes "[ "
    ∷ codes "sequence number: "
    ∷ decimal r.seq_num
    ∷ client_request_to_string r.me_client_request
    ∷ codes "]"
    ∷ [])

unfoldable pub client_response_type_to_string : ClientResponseType → Bytes
client_response_type_to_string ClientResponseType.accepted = codes "ACCEPTED"
client_response_type_to_string ClientResponseType.canceled = codes "CANCELED"
client_response_type_to_string ClientResponseType.filled = codes "FILLED"
client_response_type_to_string ClientResponseType.partial_fill = codes "PARTIAL_FILL"
client_response_type_to_string ClientResponseType.cancel_rejected = codes "CANCEL_REJECTED"
client_response_type_to_string ClientResponseType.invalid = codes "INVALID"
client_response_type_to_string (ClientResponseType.unnamed byte) = codes "UNKNOWN"

unfoldable pub client_response_to_string : MeClientResponse → Bytes
client_response_to_string r = stream (
    codes "MEClientResponse"
    ∷ codes " ["
    ∷ codes "type:"
    ∷ client_response_type_to_string r.type
    ∷ codes " client: "
    ∷ client_id_to_string r.client_id
    ∷ codes " ticker: "
    ∷ ticker_id_to_string r.ticker_id
    ∷ codes " client_oid: "
    ∷ order_id_to_string r.client_order_id
    ∷ codes " market_oid: "
    ∷ order_id_to_string r.market_order_id
    ∷ codes " side: "
    ∷ side_to_string r.side
    ∷ codes " price: "
    ∷ price_to_string r.price
    ∷ codes " executed_qty: "
    ∷ qty_to_string r.exec_qty
    ∷ codes " left_qty: "
    ∷ qty_to_string r.left_qty
    ∷ codes "]"
    ∷ [])

unfoldable pub om_client_response_to_string : OmClientResponse → Bytes
unfolding client_response_to_string
om_client_response_to_string r = stream (
    codes "OMClientResponse: "
    ∷ codes "[ "
    ∷ codes "sequence number: "
    ∷ decimal r.seq_num
    ∷ client_response_to_string r.me_client_response
    ∷ codes "]"
    ∷ [])

-- The cases of `switch`; the types without a case fall through to the last line.
unfoldable pub market_update_type_to_string : MarketUpdateType → Bytes
market_update_type_to_string MarketUpdateType.add = codes "ADD"
market_update_type_to_string MarketUpdateType.modify = codes "MODIFY"
market_update_type_to_string MarketUpdateType.cancel = codes "CANCEL"
market_update_type_to_string MarketUpdateType.trade = codes "TRADE"
market_update_type_to_string MarketUpdateType.invalid = codes "INVALID"
market_update_type_to_string _ = codes "UNKNOWN"

unfoldable pub market_update_to_string : MeMarketUpdate → Bytes
market_update_to_string u = stream (
    codes "MEMarketUpdate"
    ∷ codes " ["
    ∷ codes "type:"
    ∷ market_update_type_to_string u.type
    ∷ codes " oid:"
    ∷ order_id_to_string u.order_id
    ∷ codes " ticker:"
    ∷ ticker_id_to_string u.ticker_id
    ∷ codes " side:"
    ∷ side_to_string u.side
    ∷ codes " price:"
    ∷ price_to_string u.price
    ∷ codes " qty:"
    ∷ qty_to_string u.qty
    ∷ codes " priority:"
    ∷ priority_to_string u.priority
    ∷ codes "]"
    ∷ [])

unfoldable pub mdp_market_update_to_string : MdpMarketUpdate → Bytes
unfolding market_update_to_string
mdp_market_update_to_string u = stream (
    codes "MDPMarketUpdate: "
    ∷ codes "[ "
    ∷ codes "sequence number: "
    ∷ decimal u.seq_num
    ∷ market_update_to_string u.me_market_update
    ∷ codes "]"
    ∷ [])
