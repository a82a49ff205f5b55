-- ===== src/Trading/OrderManager/Printing.antt =====
-- trading_system/strategy/order_manager_order.h: how an order and its state print.
use electronic_trading_ecosy.Base.{[], ◌∷◌}
use electronic_trading_ecosy.Base.Text.{Bytes, codes, stream}
use electronic_trading_ecosy.Common.Printing.{
  order_id_to_string, ticker_id_to_string, price_to_string, qty_to_string, side_to_string,
}
use electronic_trading_ecosy.Trading.OrderManager.{OmOrderState, OmOrder}

unfoldable pub om_order_state_to_string : OmOrderState → Bytes
om_order_state_to_string OmOrderState.pending_new = codes "PENDING_NEW"
om_order_state_to_string OmOrderState.live = codes "LIVE"
om_order_state_to_string OmOrderState.pending_cancel = codes "PENDING_CANCEL"
om_order_state_to_string OmOrderState.dead = codes "DEAD"
om_order_state_to_string OmOrderState.invalid = codes "INVALID"

unfoldable pub om_order_to_string : OmOrder → Bytes
unfolding om_order_state_to_string
om_order_to_string o = stream (
    codes "OMOrder"
    ∷ codes "["
    ∷ codes "tid:"
    ∷ ticker_id_to_string o.ticker_id
    ∷ codes " "
    ∷ codes "oid:"
    ∷ order_id_to_string o.order_id
    ∷ codes " "
    ∷ codes "side:"
    ∷ side_to_string o.side
    ∷ codes " "
    ∷ codes "price:"
    ∷ price_to_string o.price
    ∷ codes " "
    ∷ codes "qty:"
    ∷ qty_to_string o.qty
    ∷ codes " "
    ∷ codes "state:"
    ∷ om_order_state_to_string o.order_state
    ∷ codes "]"
    ∷ [])
