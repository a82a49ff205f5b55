-- ===== src/Exchange/OrderBook/Matching.antt =====
-- `match` and `checkForMatch` of exchange/matcher/me_order_book.cpp.
use electronic_trading_ecosy.Base.{
  ℕ, zero, suc, ◌+◌, ◌-◌, min, Bool, ◌||◌, Option, none, some, Outcome, ok, fault, out_of_fuel,
  deref, ◌>>=◌, ltb, if◌then◌else◌, ◌==◌,
}
use electronic_trading_ecosy.Common.Types.{Side, same_side, order_id_invalid, priority_invalid}
use electronic_trading_ecosy.Exchange.Messages.{
  MeClientResponse, MeMarketUpdate, ClientResponseType, MarketUpdateType,
}
use electronic_trading_ecosy.Exchange.OrderBook.{
  Book, Order, Outgoing, send_client_response, send_market_update, order_at, level_at, set_order,
}
use electronic_trading_ecosy.Exchange.OrderBook.Orders.{remove_order}

-- The order that comes in, as `add` and its callees pass it on.
pub record Incoming : Type 0 where
  pub client_id : ℕ
  pub client_order_id : ℕ
  pub ticker_id : ℕ
  pub side : Side
  pub price : ℕ
  pub market_order_id : ℕ

abbrev pub filled_response : Incoming → (price fill_qty left_qty : ℕ) → MeClientResponse
filled_response i price fill_qty left_qty = record {
  type = ClientResponseType.filled;
  client_id = i.client_id;
  ticker_id = i.ticker_id;
  client_order_id = i.client_order_id;
  market_order_id = i.market_order_id;
  side = i.side;
  price = price;
  exec_qty = fill_qty;
  left_qty = left_qty;
}

-- a resting order as the second party of a fill
abbrev pub as_incoming : Order → Incoming
as_incoming o = record {
  client_id = o.client_id;
  client_order_id = o.client_order_id;
  ticker_id = o.ticker_id;
  side = o.side;
  price = o.price;
  market_order_id = o.market_order_id;
}

abbrev pub update_of :
    MarketUpdateType → (order_id ticker_id : ℕ) → Side → (price qty priority : ℕ) → MeMarketUpdate
update_of type order_id ticker_id side price qty priority = record {
  type = type;
  order_id = order_id;
  ticker_id = ticker_id;
  side = side;
  price = price;
  qty = qty;
  priority = priority;
}

-- `match`: the quantity that is left of the incoming order, the book and the queues
unfoldable pub match :
    Incoming → (itr left_qty : ℕ) → Book → Outgoing → Outcome (ℕ × Book × Outgoing)
match i itr left_qty b out =
    let order = order_at b itr in
    let fill_qty = min left_qty order.qty in
    let left = left_qty - fill_qty in
    let rest = record order { qty = order.qty - fill_qty } in
    let b1 = set_order b itr rest in
    let out1 = send_client_response (filled_response i order.price fill_qty left) out in
    let out2 =
      send_client_response (filled_response (as_incoming order) order.price fill_qty rest.qty)
        out1 in
    let out3 =
      send_market_update
        (update_of MarketUpdateType.trade order_id_invalid i.ticker_id i.side order.price fill_qty
          priority_invalid)
        out2 in
    if rest.qty == 0
    then (do
      b2 ← remove_order b1 itr
      ok (
        left,
        b2,
        send_market_update
            (update_of MarketUpdateType.cancel order.market_order_id i.ticker_id order.side
              order.price order.qty priority_invalid)
            out3,
      ))
    else ok (
      left,
      b1,
      send_market_update
          (update_of MarketUpdateType.modify order.market_order_id i.ticker_id order.side
            order.price rest.qty order.priority)
          out3,
    )

-- `bid_levels_head_` for a SELL, `ask_levels_head_` for a BUY
abbrev pub opposite_head : Side → Book → Option ℕ
opposite_head side b = if same_side side Side.buy then b.ask_levels_head else b.bid_levels_head

-- The best price of the other side is out of the order's reach.
abbrev pub beyond : Side → (price best : ℕ) → Bool
beyond side price best = if same_side side Side.buy then ltb price best else ltb best price

-- A round of the two loops of `checkForMatch`, which differ in the head and in the comparison.
unfoldable pub match_loop :
    ℕ → Incoming → (left_qty : ℕ) → Book → Outgoing → Outcome (ℕ × Book × Outgoing)
match_loop zero i left_qty b out = fault out_of_fuel
match_loop (suc fuel) i left_qty b out =
    let round = λ (level : ℕ). do
      itr ← deref (level_at b level).first_order
      if beyond i.side i.price (order_at b itr).price
          then ok (left_qty, b, out)
          else match i itr left_qty b out >>= λ (left, b', out'). match_loop fuel i left b' out'
    in elim (opposite_head i.side b) [
      | none ↦ ok (left_qty, b, out)
      | some level ↦ if left_qty == 0 then ok (left_qty, b, out) else round level
    ]

-- Neither loop runs for a side other than BUY and SELL.
unfoldable pub check_for_match :
    Incoming → (qty : ℕ) → Book → Outgoing → Outcome (ℕ × Book × Outgoing)
unfolding match_loop match
check_for_match i qty b out =
    if same_side i.side Side.buy || same_side i.side Side.sell
    then match_loop (b.order_pool.size + 1) i qty b out
    else ok (qty, b, out)
