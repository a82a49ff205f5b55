-- ===== src/Exchange/OrderBook/Requests.antt =====
-- `add` and `cancel` of exchange/matcher/me_order_book.cpp.
use electronic_trading_ecosy.Base.{
  ℕ, none, some, Outcome, ok, in_range, ◌>>=◌, ◌>>◌, ltb, if◌then◌else◌, ◌==◌,
}
use electronic_trading_ecosy.Common.MemPool
use electronic_trading_ecosy.Common.Types.{Side, order_id_invalid, price_invalid, qty_invalid}
use electronic_trading_ecosy.Exchange.Messages.{
  MeClientResponse, ClientResponseType, MarketUpdateType,
}
use electronic_trading_ecosy.Exchange.OrderBook.{
  Book, Order, Outgoing, send_client_response, send_market_update, order_at,
  generate_new_market_order_id, get_next_priority,
}
use electronic_trading_ecosy.Exchange.OrderBook.Orders.{add_order, remove_order}
use electronic_trading_ecosy.Exchange.OrderBook.Matching.{Incoming, update_of, check_for_match}

abbrev pub accepted_response : Incoming → (qty : ℕ) → MeClientResponse
accepted_response i qty = record {
  type = ClientResponseType.accepted;
  client_id = i.client_id;
  ticker_id = i.ticker_id;
  client_order_id = i.client_order_id;
  market_order_id = i.market_order_id;
  side = i.side;
  price = i.price;
  exec_qty = 0;
  left_qty = qty;
}

abbrev pub resting_order : Incoming → (left_qty priority : ℕ) → Order
resting_order i left_qty priority = record {
  ticker_id = i.ticker_id;
  client_id = i.client_id;
  client_order_id = i.client_order_id;
  market_order_id = i.market_order_id;
  side = i.side;
  price = i.price;
  qty = left_qty;
  priority = priority;
  prev_order = none;
  next_order = none;
}

-- What is left of an incoming order goes into the book.
unfoldable pub rest_order : Incoming → (left_qty : ℕ) → Book → Outgoing → Outcome (Book × Outgoing)
rest_order i left_qty b out = do
  priority ← get_next_priority b i.price
  (p, pool) ← MemPool.allocate b.order_pool (resting_order i left_qty priority)
  b' ← add_order (record b { order_pool = pool }) p
  ok (
    b',
    send_market_update
        (update_of MarketUpdateType.add i.market_order_id i.ticker_id i.side i.price left_qty
          priority)
        out,
  )

unfoldable pub add :
    (client_id client_order_id ticker_id : ℕ)
    → Side
    → (price qty : ℕ) → Book
    → Outgoing
    → Outcome (Book × Outgoing)
unfolding rest_order check_for_match generate_new_market_order_id
add client_id client_order_id ticker_id side price qty b out =
    let (market_order_id, b1) = generate_new_market_order_id b in
    let i : Incoming = record {
      client_id = client_id;
      client_order_id = client_order_id;
      ticker_id = ticker_id;
      side = side;
      price = price;
      market_order_id = market_order_id;
    } in
    do
      (left_qty, b2, out2) ←
          check_for_match i qty b1 (send_client_response (accepted_response i qty) out)
      if left_qty == 0 then ok (b2, out2) else rest_order i left_qty b2 out2

abbrev pub cancel_rejected_response : (client_id client_order_id ticker_id : ℕ) → MeClientResponse
cancel_rejected_response client_id client_order_id ticker_id = record {
  type = ClientResponseType.cancel_rejected;
  client_id = client_id;
  ticker_id = ticker_id;
  client_order_id = client_order_id;
  market_order_id = order_id_invalid;
  side = Side.invalid;
  price = price_invalid;
  exec_qty = qty_invalid;
  left_qty = qty_invalid;
}

abbrev pub canceled_response : (client_id client_order_id ticker_id : ℕ) → Order → MeClientResponse
canceled_response client_id client_order_id ticker_id order = record {
  type = ClientResponseType.canceled;
  client_id = client_id;
  ticker_id = ticker_id;
  client_order_id = client_order_id;
  market_order_id = order.market_order_id;
  side = order.side;
  price = order.price;
  exec_qty = qty_invalid;
  left_qty = order.qty;
}

-- The branch of `cancel` for an order that is there. The market update names the order by the
-- client's identifier.
unfoldable pub cancelled_order :
    (client_id client_order_id ticker_id p : ℕ) → Book → Outgoing → Outcome (Book × Outgoing)
cancelled_order client_id client_order_id ticker_id p b out =
    let order = order_at b p in
    do
      b' ← remove_order b p
      ok (
        b',
        send_client_response (canceled_response client_id client_order_id ticker_id order) (
            send_market_update
              (update_of MarketUpdateType.cancel client_order_id ticker_id order.side order.price
                order.qty order.priority)
              out),
      )

-- A client number out of bounds gets no answer.
unfoldable pub cancel :
    (client_id client_order_id ticker_id : ℕ) → Book → Outgoing → Outcome (Book × Outgoing)
cancel client_id client_order_id ticker_id b out =
    if ltb client_id b.limits.max_num_clients
    then (do
      in_range (ltb client_order_id b.limits.max_order_ids)
      elim (b.client_orders client_id client_order_id) [
        | none ↦ ok (
          b,
          send_client_response (cancel_rejected_response client_id client_order_id ticker_id) out,
        )
        | some p ↦ cancelled_order client_id client_order_id ticker_id p b out
      ])
    else ok (b, out)
