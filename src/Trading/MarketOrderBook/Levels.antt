-- ===== src/Trading/MarketOrderBook/Levels.antt =====
-- `addOrdersAtPriceLevel` and `removePriceLevel` of trading_system/strategy/market_order_book.cpp. Both
-- copy the head pointer of their side into a local variable.
use electronic_trading_ecosy.Base.{
  ℕ, zero, suc, ◌+◌, Bool, not, ◌&&◌, Option, none, some, Outcome, ok, fault, out_of_fuel, deref,
  ◌>>=◌, ltb, if◌then◌else◌, same_ptr, update,
}
use electronic_trading_ecosy.Common.MemPool
use electronic_trading_ecosy.Common.Types.{Side, same_side}
use electronic_trading_ecosy.Trading.MarketOrderBook.{
  MarketOrderBook, level_at, set_level, price_to_index, head_of,
}

-- The first price is the better one: the higher for BUY, the lower for the rest.
abbrev pub improves : Side → ℕ → ℕ → Bool
improves side a b = if same_side side Side.buy then ltb b a else ltb a b

unfoldable pub walk : ℕ → MarketOrderBook → Side → (price head current : ℕ) → Outcome ℕ
walk zero b side price head current = fault out_of_fuel
walk (suc fuel) b side price head current =
    let go_on = deref (level_at b current).next_level >>= walk fuel b side price head in
    if improves side price (level_at b current).price
      && not (same_ptr (level_at b current).next_level (some head))
    then go_on
    else ok current

abbrev pub set_prev_level : MarketOrderBook → ℕ → Option ℕ → MarketOrderBook
set_prev_level b p q = set_level b p (record (level_at b p) { prev_level = q })

abbrev pub set_next_level : MarketOrderBook → ℕ → Option ℕ → MarketOrderBook
set_next_level b p q = set_level b p (record (level_at b p) { next_level = q })

-- the four assignments that put `level` in front of `current`
unfoldable pub link_level : MarketOrderBook → (level current : ℕ) → Outcome MarketOrderBook
link_level b level current = do
  let b1 = set_next_level b level (some current)
  let b2 = set_prev_level b1 level (level_at b1 current).prev_level
  before ← deref (level_at b2 current).prev_level
  let b3 = set_next_level b2 before (some level)
  ok (set_prev_level b3 current (some level))

abbrev pub set_head : MarketOrderBook → Side → ℕ → MarketOrderBook
set_head b side p =
    if same_side side Side.buy
    then record b { bid_price_levels = some p }
    else record b { ask_price_levels = some p }

abbrev pub best_of : MarketOrderBook → Side → Option ℕ
best_of b side = if same_side side Side.buy then b.best_bid else b.best_ask

abbrev pub set_best : MarketOrderBook → Side → ℕ → MarketOrderBook
set_best b side p =
    if same_side side Side.buy
    then record b { best_bid = some p }
    else record b { best_ask = some p }

-- `if (!best || price_level->price_ … best->price_) best = price_level;`
unfoldable pub update_best : MarketOrderBook → Side → ℕ → MarketOrderBook
update_best b side level = elim (best_of b side) [
  | none ↦ set_best b side level
  | some best ↦
      if improves side (level_at b level).price (level_at b best).price
      then set_best b side level
      else b
]

-- The branch of `addOrdersAtPriceLevel` for a side that has a head.
unfoldable pub insert_level : MarketOrderBook → (level head : ℕ) → Outcome MarketOrderBook
unfolding walk link_level update_best
insert_level b level head = do
  let side = (level_at b level).side
  let price = (level_at b level).price
  current ← walk (b.price_level_pool.size + 1) b side price head head
  b' ← link_level b level current
  let b2 = if improves side price (level_at b' head).price then set_head b' side level else b'
  ok (update_best b2 side level)

unfoldable pub add_orders_at_price_level : MarketOrderBook → ℕ → Outcome MarketOrderBook
unfolding insert_level price_to_index
add_orders_at_price_level b level =
    let i = price_to_index b (level_at b level).price in
    let b1 = record b { orders_at_price_levels = update b.orders_at_price_levels i (some level) } in
    elim (head_of b1 (level_at b level).side) [
      | none ↦ ok (set_next_level (set_prev_level b1 level (some level)) level (some level))
      | some head ↦ insert_level b1 level head
    ]

unfoldable pub unlink_level : MarketOrderBook → ℕ → Outcome MarketOrderBook
unlink_level b level = do
  before ← deref (level_at b level).prev_level
  let b1 = set_next_level b before (level_at b level).next_level
  after ← deref (level_at b1 level).next_level
  ok (set_prev_level b1 after (level_at b1 level).prev_level)

unfoldable pub remove_price_level : MarketOrderBook → ℕ → Outcome MarketOrderBook
unfolding unlink_level price_to_index
remove_price_level b level = do
  b1 ← if same_ptr (level_at b level).next_level (some level) then ok b else unlink_level b level
  let i = price_to_index b1 (level_at b1 level).price
  pool ← MemPool.deallocate b1.price_level_pool level
  ok (record b1 {
    orders_at_price_levels = update b1.orders_at_price_levels i none;
    price_level_pool = pool;
  })
