-- ===== src/Trading/MarketOrderBook/Updates.antt =====
-- `addOrder`, `removeOrder`, `onMarketUpdate` and `getBBO` of
-- trading_system/strategy/market_order_book.cpp. `removeOrder` has no caller.
use electronic_trading_ecosy.Base.{
  ℕ, zero, suc, ◌+◌, ◌%◌, Option, none, some, List, [], ◌∷◌, Outcome, ok, fault, out_of_fuel, deref,
  in_range, ◌>>=◌, ◌>>◌, ltb, if◌then◌else◌, same_ptr, update,
}
use mathlib.Core.Option
use electronic_trading_ecosy.Common.MemPool
use electronic_trading_ecosy.Common.Types.{Side, same_side, u32_mod, u64_mod}
use electronic_trading_ecosy.Exchange.Messages.{MarketUpdateType, MeMarketUpdate}
use electronic_trading_ecosy.Trading.MarketOrderBook.{
  MarketOrderBook, new_level, order_at, level_at, set_order, set_level, get_price_level,
}
use electronic_trading_ecosy.Trading.MarketOrderBook.Levels.{
  add_orders_at_price_level, remove_price_level,
}
use electronic_trading_ecosy.Trading.PositionInfo.{BestPrices}

abbrev pub set_prev_order : MarketOrderBook → ℕ → Option ℕ → MarketOrderBook
set_prev_order b p q = set_order b p (record (order_at b p) { prev_order = q })

abbrev pub set_next_order : MarketOrderBook → ℕ → Option ℕ → MarketOrderBook
set_next_order b p q = set_order b p (record (order_at b p) { next_order = q })

-- The branch of `addOrder` for a price that has a level.
unfoldable pub append_order : MarketOrderBook → (level p : ℕ) → Outcome MarketOrderBook
append_order b level p = do
  first ← deref (level_at b level).first_order
  last ← deref (order_at b first).prev_order
  let b1 = set_next_order b last (some p)
  let b2 = set_prev_order b1 p (order_at b1 first).prev_order
  let b3 = set_next_order b2 p (some first)
  ok (set_prev_order b3 first (some p))

-- The branch for a price without one: the book, and the new level.
unfoldable pub add_order_new_level : MarketOrderBook → ℕ → Outcome (ℕ × MarketOrderBook)
add_order_new_level b p =
    let b1 = set_next_order (set_prev_order b p (some p)) p (some p) in
    do
      (level, pool) ←
          MemPool.allocate b1.price_level_pool
            (new_level (order_at b1 p).side (order_at b1 p).price (some p))
      b2 ← add_orders_at_price_level (record b1 { price_level_pool = pool }) level
      ok (level, b2)

unfoldable pub place_order : MarketOrderBook → ℕ → Outcome (ℕ × MarketOrderBook)
unfolding get_price_level
place_order b p = elim (get_price_level b (order_at b p).price) [
  | none ↦ add_order_new_level b p
  | some level ↦ (do b1 ← append_order b level p; ok (level, b1))
]

unfoldable pub add_order : MarketOrderBook → ℕ → Outcome MarketOrderBook
add_order b p = do
  (level, b1) ← place_order b p
  let l = level_at b1 level
  ok (
      set_level b1 level (record l {
        total_qty = (l.total_qty + (order_at b1 p).qty) % u32_mod;
        orders_count = (l.orders_count + 1) % u64_mod;
      }))

unfoldable pub remove_order : MarketOrderBook → ℕ → Outcome MarketOrderBook
remove_order b p = do
  let order = order_at b p
  let level = get_price_level b order.price
  if same_ptr order.prev_order (some p) then (deref level >>= remove_price_level b) else (do
    before ← deref order.prev_order
    let b1 = set_next_order b before order.next_order
    after ← deref order.next_order
    let b2 = set_prev_order b1 after (some before)
    l ← deref level
    ok (
        if same_ptr (level_at b2 l).first_order (some p)
        then set_level b2 l (record (level_at b2 l) { first_order = order.next_order })
        else b2))

-- The loop of CLEAR over `orderId_to_order_`, from the identifier `i` on.
unfoldable pub clear_orders : (count i : ℕ) → MarketOrderBook → Outcome MarketOrderBook
clear_orders zero i b = ok b
clear_orders (suc n) i b =
    let skipped = clear_orders n (i + 1) b in
    elim (b.order_id_to_order i) [
      | none ↦ skipped
      | some p ↦ (do
        pool ← MemPool.deallocate b.order_pool p
        clear_orders n (i + 1)
            (record b { order_pool = pool; order_id_to_order = update b.order_id_to_order i none }))
    ]

-- The loop of CLEAR over the levels of a side. It takes the level behind the head each time.
unfoldable pub clear_ring : (fuel : ℕ) → (head : ℕ) → MarketOrderBook → Outcome MarketOrderBook
clear_ring zero head b = fault out_of_fuel
clear_ring (suc fuel) head b =
    let next = (do
      level ← deref (level_at b head).next_level
      pool ← MemPool.deallocate b.price_level_pool level
      clear_ring fuel head (record b { price_level_pool = pool })) in
    if same_ptr (level_at b head).next_level (some head)
    then (do
      pool ← MemPool.deallocate b.price_level_pool head
      ok (record b { price_level_pool = pool }))
    else next

unfoldable pub clear_levels : Option ℕ → MarketOrderBook → Outcome MarketOrderBook
unfolding clear_ring
clear_levels none b = ok b
clear_levels (some head) b = clear_ring (b.price_level_pool.size + 1) head b

-- `bid_price_levels_->price_`, which the test of the ask side reads as well
unfoldable pub check_best_offer : MarketOrderBook → MeMarketUpdate → Outcome (Unit {0})
check_best_offer b u = elim b.ask_price_levels [
  | none ↦ ok tt
  | some head ↦
      if same_side u.side Side.sell then (deref b.bid_price_levels >>= λ p. ok tt) else ok tt
]

-- The switch. CANCEL reads the entry and falls through to TRADE.
unfoldable pub on_market_update_type :
    MarketUpdateType → MarketOrderBook → MeMarketUpdate → Outcome MarketOrderBook
on_market_update_type MarketUpdateType.add b u = do
  (p, pool) ← MemPool.allocate b.order_pool (record {
    order_id = u.order_id;
    side = u.side;
    price = u.price;
    qty = u.qty;
    priority = u.priority;
    next_order = none;
    prev_order = none;
  })
  add_order (record b { order_pool = pool }) p
on_market_update_type MarketUpdateType.modify b u = do
  in_range (ltb u.order_id b.limits.max_order_ids)
  p ← deref (b.order_id_to_order u.order_id)
  ok (set_order b p (record (order_at b p) { qty = u.qty }))
on_market_update_type MarketUpdateType.cancel b u = do
  in_range (ltb u.order_id b.limits.max_order_ids)
  ok b
on_market_update_type MarketUpdateType.clear b u = do
  b1 ← clear_orders b.limits.max_order_ids 0 b
  b2 ← clear_levels b1.bid_price_levels b1
  b3 ← clear_levels b2.ask_price_levels b2
  ok (record b3 { bid_price_levels = none; ask_price_levels = none })
on_market_update_type MarketUpdateType.trade b u = ok b
on_market_update_type MarketUpdateType.invalid b u = ok b
on_market_update_type MarketUpdateType.snapshot_start b u = ok b
on_market_update_type MarketUpdateType.snapshot_end b u = ok b
on_market_update_type (MarketUpdateType.unnamed byte) b u = ok b

unfoldable pub on_market_update : MarketOrderBook → MeMarketUpdate → Outcome MarketOrderBook
unfolding check_best_offer on_market_update_type
on_market_update b u = check_best_offer b u >> on_market_update_type u.type b u

-- `getBBO`, with the prices that its pointers lead to
unfoldable pub get_bbo : MarketOrderBook → BestPrices
get_bbo b = record {
  bid_price = Option.map (λ p. (level_at b p).price) b.best_bid;
  ask_price = Option.map (λ p. (level_at b p).price) b.best_ask;
}

-- the updates of a feed, one after the other
unfoldable pub run : MarketOrderBook → List MeMarketUpdate → Outcome MarketOrderBook
run b [] = ok b
run b (u ∷ us) = do b' ← on_market_update b u; run b' us
