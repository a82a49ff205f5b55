-- ===== src/Exchange/OrderBook/Printing.antt =====
-- exchange/matcher/me_order.cpp: how an order and a price level print.
use electronic_trading_ecosy.Base.{
  ℕ, [], ◌∷◌, Option, none, some, Outcome, ok, deref, ◌>>=◌, Option,
}
use electronic_trading_ecosy.Base.Text.{Bytes, codes, stream}
use electronic_trading_ecosy.Common.Types.{order_id_invalid, price_invalid}
use electronic_trading_ecosy.Common.Printing.{
  order_id_to_string, ticker_id_to_string, client_id_to_string, price_to_string, qty_to_string,
  priority_to_string, side_to_string,
}
use electronic_trading_ecosy.Exchange.OrderBook.{Order, PriceLevel, Book, order_at, level_at}

-- `p ? p->market_orderId_ : OrderId_INVALID`
abbrev market_id_or_invalid : Book → Option ℕ → ℕ
market_id_or_invalid b none = order_id_invalid
market_id_or_invalid b (some p) = (order_at b p).market_order_id

unfoldable pub order_to_string : Book → Order → Bytes
order_to_string b o = stream (
    codes "MEOrder ["
    ∷ codes "tickerId:"
    ∷ ticker_id_to_string o.ticker_id
    ∷ codes "clientId:"
    ∷ client_id_to_string o.client_id
    ∷ codes "client oId:"
    ∷ order_id_to_string o.client_order_id
    ∷ codes "market oId:"
    ∷ order_id_to_string o.market_order_id
    ∷ codes "side:"
    ∷ side_to_string o.side
    ∷ codes "price:"
    ∷ price_to_string o.price
    ∷ codes "qty:"
    ∷ qty_to_string o.qty
    ∷ codes "priority:"
    ∷ priority_to_string o.priority
    ∷ codes "prev:"
    ∷ order_id_to_string (market_id_or_invalid b o.prev_order)
    ∷ codes "next:"
    ∷ order_id_to_string (market_id_or_invalid b o.next_order)
    ∷ codes " ]"
    ∷ [])

abbrev first_order_text : Book → Option ℕ → Bytes
unfolding order_to_string
first_order_text b none = codes "null"
first_order_text b (some p) = order_to_string b (order_at b p)

-- `p ? q->price_ : Price_INVALID`
abbrev price_if : Book → Option ℕ → Option ℕ → Outcome ℕ
price_if b none q = ok price_invalid
price_if b (some _) q = do level ← deref q; ok (level_at b level).price

-- The text behind `next lvl` reads through the previous level's pointer.
unfoldable pub level_to_string : Book → PriceLevel → Outcome Bytes
unfolding first_order_text
level_to_string b l = do
  prev_price ← price_if b l.prev_price_level l.prev_price_level
  next_price ← price_if b l.next_price_level l.prev_price_level
  ok (
      stream (
        codes "MEOrder ["
        ∷ codes "side:"
        ∷ side_to_string l.side
        ∷ codes "price:"
        ∷ price_to_string l.price
        ∷ codes "first_order:"
        ∷ first_order_text b l.first_order
        ∷ codes "prev lvl:"
        ∷ price_to_string prev_price
        ∷ codes "next lvl"
        ∷ price_to_string next_price
        ∷ codes " ]"
        ∷ []))
