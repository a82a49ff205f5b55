-- ===== src/Exchange/OrderBook/Orders.antt =====
-- `addOrder` and `removeOrder` of exchange/matcher/me_order_book.cpp: the ring of orders of a level,
-- and the table of a client's orders.
use electronic_trading_ecosy.Base.{
  ℕ, Option, none, some, Outcome, ok, deref, in_range, ◌>>=◌, ◌>>◌, ltb, if◌then◌else◌, same_ptr,
  update,
}
use electronic_trading_ecosy.Common.MemPool
use electronic_trading_ecosy.Exchange.OrderBook.{
  Book, order_at, level_at, set_order, set_level, get_price_level,
}
use electronic_trading_ecosy.Exchange.OrderBook.Levels.{add_orders_at_price, remove_price_level}

abbrev pub set_prev_order : Book → ℕ → Option ℕ → Book
set_prev_order b p q = set_order b p (record (order_at b p) { prev_order = q })

abbrev pub set_next_order : Book → ℕ → Option ℕ → Book
set_next_order b p q = set_order b p (record (order_at b p) { next_order = q })

-- `client_orders_.at(client).at(order)`, both indices tested
abbrev pub client_slot : Book → (client order : ℕ) → Outcome (Unit {0})
client_slot b client order = do
  in_range (ltb client b.limits.max_num_clients)
  in_range (ltb order b.limits.max_order_ids)

abbrev pub set_client_order : Book → (client order : ℕ) → Option ℕ → Book
set_client_order b client order p = record b {
  client_orders = update b.client_orders client (update (b.client_orders client) order p);
}

-- The branch for a price without a level: the order is a ring of its own, under a new level.
unfoldable pub add_order_new_level : Book → ℕ → Outcome Book
add_order_new_level b p =
    let b1 = set_next_order (set_prev_order b p (some p)) p (some p) in
    let order = order_at b1 p in
    do
      (level, pool) ← MemPool.allocate b1.price_levels_pool (record {
        side = order.side;
        price = order.price;
        first_order = some p;
        prev_price_level = none;
        next_price_level = none;
      })
      add_orders_at_price (record b1 { price_levels_pool = pool }) level

-- The branch for a price with a level: the order goes behind the last one.
unfoldable pub append_order : Book → (level p : ℕ) → Outcome Book
append_order b level p = do
  first ← deref (level_at b level).first_order
  last ← deref (order_at b first).prev_order
  let b1 = set_next_order b last (some p)
  let b2 = set_prev_order b1 p (order_at b1 first).prev_order
  let b3 = set_next_order b2 p (some first)
  ok (set_prev_order b3 first (some p))

-- The first half of `addOrder`: the order gets its place at its price.
unfoldable pub place_order : Book → ℕ → Outcome Book
unfolding get_price_level
place_order b p = elim (get_price_level b (order_at b p).price) [
  | none ↦ add_order_new_level b p
  | some level ↦ append_order b level p
]

-- `client_orders_.at(order->clientId_).at(order->client_orderId_) = …`
unfoldable pub record_order : Book → ℕ → Option ℕ → Outcome Book
record_order b p entry =
    let order = order_at b p in
    do
      client_slot b order.client_id order.client_order_id
      ok (set_client_order b order.client_id order.client_order_id entry)

unfoldable pub add_order : Book → ℕ → Outcome Book
add_order b p = do b1 ← place_order b p; record_order b1 p (some p)

-- The branch of `removeOrder` for an order with neighbours.
unfoldable pub unlink_order : Book → (level : Option ℕ) → (p : ℕ) → Outcome Book
unlink_order b level p =
    let next_order = (order_at b p).next_order in
    do
      before ← deref (order_at b p).prev_order
      let b1 = set_next_order b before next_order
      after ← deref next_order
      let b2 = set_prev_order b1 after (some before)
      l ← deref level
      ok (
          if same_ptr (level_at b2 l).first_order (some p)
          then set_level b2 l (record (level_at b2 l) { first_order = next_order })
          else b2)

-- The first half of `removeOrder`: the order, or its whole level, leaves the rings.
unfoldable pub detach_order : Book → ℕ → Outcome Book
detach_order b p =
    let order = order_at b p in
    if same_ptr order.prev_order (some p)
    then remove_price_level b order.price
    else unlink_order b (get_price_level b order.price) p

unfoldable pub remove_order : Book → ℕ → Outcome Book
remove_order b p = do
  b1 ← detach_order b p
  b2 ← record_order b1 p none
  pool ← MemPool.deallocate b2.order_pool p
  ok (record b2 { order_pool = pool })
