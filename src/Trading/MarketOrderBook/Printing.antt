-- ===== src/Trading/MarketOrderBook/Printing.antt =====
-- trading_system/strategy/market_order.cpp: how the client's orders, levels and best prices print.
use electronic_trading_ecosy.Base.{
  ℕ, ◌%◌, ◌^◌, [], ◌∷◌, Option, none, some, Outcome, ok, deref, ◌>>=◌,
}
use electronic_trading_ecosy.Base.Text.{Bytes, codes, stream}
use electronic_trading_ecosy.Common.Types.{order_id_invalid, price_invalid}
use electronic_trading_ecosy.Common.Printing.{
  order_id_to_string, price_to_string, qty_to_string, priority_to_string, side_to_string,
}
use electronic_trading_ecosy.Trading.MarketOrderBook.{
  MarketOrder, MarketOrderPriceLevel, MarketOrderBook, order_at, level_at,
}

-- `p ? p->orderId_ : OrderId_INVALID`
abbrev id_or_invalid : MarketOrderBook → Option ℕ → ℕ
id_or_invalid b none = order_id_invalid
id_or_invalid b (some p) = (order_at b p).order_id

unfoldable pub market_order_to_string : MarketOrderBook → MarketOrder → Bytes
market_order_to_string b o = stream (
    codes "MarketOrder"
    ∷ codes "["
    ∷ codes "oid:"
    ∷ order_id_to_string o.order_id
    ∷ codes " "
    ∷ codes "side:"
    ∷ side_to_string o.side
    ∷ codes " "
    ∷ codes "price:"
    ∷ price_to_string o.price
    ∷ codes " "
    ∷ codes "qty:"
    ∷ qty_to_string o.qty
    ∷ codes " "
    ∷ codes "prio:"
    ∷ priority_to_string o.priority
    ∷ codes " "
    ∷ codes "prev:"
    ∷ order_id_to_string (id_or_invalid b o.prev_order)
    ∷ codes " "
    ∷ codes "next:"
    ∷ order_id_to_string (id_or_invalid b o.next_order)
    ∷ codes "]"
    ∷ [])

abbrev first_market_order_text : MarketOrderBook → Option ℕ → Bytes
unfolding market_order_to_string
first_market_order_text b none = codes "null"
first_market_order_text b (some p) = market_order_to_string b (order_at b p)

-- `p ? p->price_ : Price_INVALID`
abbrev price_or_invalid : MarketOrderBook → Option ℕ → ℕ
price_or_invalid b none = price_invalid
price_or_invalid b (some p) = (level_at b p).price

unfoldable pub market_level_to_string : MarketOrderBook → MarketOrderPriceLevel → Bytes
unfolding first_market_order_text
market_level_to_string b l = stream (
    codes "MarketOrdersAtPrice["
    ∷ codes "side:"
    ∷ side_to_string l.side
    ∷ codes " "
    ∷ codes "price:"
    ∷ price_to_string l.price
    ∷ codes " "
    ∷ codes "first_mkt_order:"
    ∷ first_market_order_text b l.first_order
    ∷ codes " "
    ∷ codes "prev:"
    ∷ price_to_string (price_or_invalid b l.prev_level)
    ∷ codes " "
    ∷ codes "next:"
    ∷ price_to_string (price_or_invalid b l.next_level)
    ∷ codes "]"
    ∷ [])

-- `BestBidOffer::toString`: of the ask, the quantity is printed as a price and the price, cut to 32
-- bits, as a quantity.
unfoldable pub bbo_to_string : MarketOrderBook → Outcome Bytes
bbo_to_string b = do
  bid ← deref b.best_bid
  ask ← deref b.best_ask
  let best_bid = level_at b bid
  let best_ask = level_at b ask
  ok (
      stream (
        codes "BBO{"
        ∷ qty_to_string best_bid.total_qty
        ∷ codes "@"
        ∷ price_to_string best_bid.price
        ∷ codes "X"
        ∷ price_to_string best_ask.total_qty
        ∷ codes "@"
        ∷ qty_to_string (best_ask.price % 2 ^ 32)
        ∷ codes "}"
        ∷ []))
