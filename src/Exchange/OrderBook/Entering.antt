-- ===== src/Exchange/OrderBook/Entering.antt =====
-- `add` of an order that nothing is filled of: how it gets into the book.
use mathlib.Core.Path.{subst}
use electronic_trading_ecosy.Base.{
  ℕ, ◌≡◌, ◌≢◌, refl, sym, ap, ◌∙◌, Bool, true, false, none, some, ok, arith, ◌==◌, >>=-eq-ok,
  ok-injective, update, update_self, update_other, if◌then◌else◌,
}
use electronic_trading_ecosy.Common.MemPool
use electronic_trading_ecosy.Common.MemPool.{MemPool}
use electronic_trading_ecosy.Common.MemPool.Search.{allocate_lem}
use electronic_trading_ecosy.Common.Types.{Side}
use electronic_trading_ecosy.Exchange.Messages.{ClientResponseType, MarketUpdateType}
use electronic_trading_ecosy.Exchange.OrderBook.{
  Book, Order, Outgoing, send_client_response, send_market_update, order_at, get_price_level,
  get_next_priority,
}
use electronic_trading_ecosy.Exchange.OrderBook.Orders.{add_order}
use electronic_trading_ecosy.Exchange.OrderBook.Matching.{Incoming}
use electronic_trading_ecosy.Exchange.OrderBook.Requests.{
  accepted_response, resting_order, rest_order, add,
}
use electronic_trading_ecosy.Exchange.OrderBook.Heads.{HeadsNull}
use electronic_trading_ecosy.Exchange.OrderBook.Quiet.{incoming, counted, add-rest_order}
use electronic_trading_ecosy.Exchange.OrderBook.Priority.{terms}
use electronic_trading_ecosy.Exchange.OrderBook.Placing.{allocated-object, add_order-IsPlaced}

-- How a book and the messages are after an order has entered whole: the order stands in the block `p`,
-- which was free.
pub record Entered (client_id client_order_id ticker_id : ℕ) (side : Side) (price qty : ℕ)
    (b : Book) (out : Outgoing) (b' : Book) (out' : Outgoing) : Type 0 where
  pub p : ℕ
  pub was_free : b.order_pool.is_free p ≡ true
  pub in_use : b'.order_pool.is_free p ≡ false
  pub entry : b'.client_orders client_id client_order_id ≡ some p
  pub level : (l : ℕ) × (get_price_level b' price ≡ some l)
  pub priority : ℕ
  pub next_priority : get_next_priority b price ≡ ok priority
  pub order : terms (order_at b' p) ≡ record {
    ticker_id = ticker_id;
    client_id = client_id;
    client_order_id = client_order_id;
    market_order_id = b.next_market_order_id;
    side = side;
    price = price;
    qty = qty;
    priority = priority;
    prev_order = none;
    next_order = none;
  }
  pub others : (k : ℕ) → k ≢ p → terms (order_at b' k) ≡ terms (order_at b k)
  pub answered :
      out'
      ≡ send_market_update
          (record {
            type = MarketUpdateType.add;
            order_id = b.next_market_order_id;
            ticker_id = ticker_id;
            side = side;
            price = price;
            qty = qty;
            priority = priority;
          })
          (send_client_response
            (record {
              type = ClientResponseType.accepted;
              client_id = client_id;
              ticker_id = ticker_id;
              client_order_id = client_order_id;
              market_order_id = b.next_market_order_id;
              side = side;
              price = price;
              exec_qty = 0;
              left_qty = qty;
            })
            out)

rest_order-Entered :
    (c o t : ℕ) (side : Side) (price qty : ℕ) (b : Book) (out : Outgoing) {r : Book × Outgoing}
    → HeadsNull b
    → rest_order
        (incoming c o t side price b)
        qty
        (counted b)
        (send_client_response (accepted_response (incoming c o t side price b) qty) out)
      ≡ ok r
    → Entered c o t side price qty b out r.0 r.1
unfolding rest_order get_next_priority update get_price_level
rest_order-Entered c o t side price qty b out {r} h e =
    let i : Incoming = incoming c o t side price b in
    let (priority, e1, r1) = >>=-eq-ok (get_next_priority (counted b) price) _ e in
    let new : Order = resting_order i qty priority in
    let ((p, pool), e2, r2) = >>=-eq-ok (MemPool.allocate b.order_pool new) _ r1 in
    let b2 : Book = record (counted b) { order_pool = pool } in
    let (b', e3, r3) = >>=-eq-ok (add_order b2 p) _ r2 in
    let (placed, entry) = add_order-IsPlaced b2 p (record { bids = h.bids; asks = h.asks }) e3 in
    let (_, free, same, _, _, _, _) = allocate_lem b.order_pool new e2 in
    let object : order_at b2 p ≡ new = allocated-object b.order_pool new e2 in
    subst (λ x. Entered c o t side price qty b out x.0 x.1) (ok-injective r3)
      (record {
        p = p;
        was_free = free;
        in_use =
            ap (λ f. f p) placed.blocks
            ∙ ap (λ q. q.is_free p) same
            ∙ update_self b.order_pool.is_free p false;
        entry = sym (ap (λ o. b'.client_orders o.client_id o.client_order_id) object) ∙ entry;
        level =
            (placed.level.0, sym (ap (λ o. get_price_level b' o.price) object) ∙ placed.level.1);
        priority = priority;
        next_priority = e1;
        order = placed.same p ∙ ap terms object;
        others = λ k differs.
            placed.same k
            ∙ ap (λ q. terms (q.object k)) same
            ∙ ap terms (update_other b.order_pool.object p k new differs);
        answered = refl;
      })

-- An order of a quantity other than 0 that a book with null heads takes without a failure enters it
-- whole, whatever the prices that rest on the other side: it is in a block that was free, under its
-- client's entry, its price has a level, its priority is the next one of its price, it has the next
-- market identifier, no other order's terms change, and the messages are an acceptance to its client
-- and an addition to the market.
pub add-Entered :
    (client_id client_order_id ticker_id : ℕ) (side : Side) (price qty : ℕ) (b : Book)
    (out : Outgoing) {r : Book × Outgoing}
    → HeadsNull b
    → qty ≢ 0
    → add client_id client_order_id ticker_id side price qty b out ≡ ok r
    → Entered client_id client_order_id ticker_id side price qty b out r.0 r.1
add-Entered c o t side price qty b out {r} h some_qty e =
    let out1 = send_client_response (accepted_response (incoming c o t side price b) qty) out in
    let more : (qty == 0) ≡ false = ground (arith, some_qty) in
    rest_order-Entered c o t side price qty b out {r = r} h (
      sym (
        add-rest_order c o t side price qty b out h
        ∙ ap
            (λ (z : Bool).
              if z
              then ok (counted b, out1)
              else rest_order (incoming c o t side price b) qty (counted b) out1)
            more)
      ∙ e)
