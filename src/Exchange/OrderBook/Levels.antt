-- ===== src/Exchange/OrderBook/Levels.antt =====
-- `addOrdersAtPrice` and `removePriceLevel` of exchange/matcher/me_order_book.cpp: the rings of price
-- levels. Both copy the head pointer of their side into a local variable: an assignment to that
-- variable does not reach the book.
use electronic_trading_ecosy.Base.{
  ℕ, zero, suc, ◌+◌, Bool, not, ◌&&◌, Option, none, some, Outcome, ok, fault, out_of_fuel, deref,
  ◌>>=◌, ltb, if◌then◌else◌, same_ptr, update,
}
use electronic_trading_ecosy.Common.MemPool
use electronic_trading_ecosy.Common.Types.{Side, same_side}
use electronic_trading_ecosy.Exchange.OrderBook.{
  Book, level_at, set_level, price_to_index, get_price_level,
}

abbrev pub head_of : Book → Side → Option ℕ
head_of b side = if same_side side Side.buy then b.bid_levels_head else b.ask_levels_head

-- The price of the new level lies before that of the other: above it for BUY, below it for the rest.
abbrev pub passes : Side → ℕ → ℕ → Bool
passes side new_price price =
    if same_side side Side.buy then ltb price new_price else ltb new_price price

-- `while(… && current_level->next_price_level_ != head) current_level = current_level->next_price_level_;`
unfoldable pub walk : ℕ → Book → Side → (price head current : ℕ) → Outcome ℕ
walk zero b side price head current = fault out_of_fuel
walk (suc fuel) b side price head current =
    let go_on = deref (level_at b current).next_price_level >>= walk fuel b side price head in
    if passes side price (level_at b current).price
      && not (same_ptr (level_at b current).next_price_level (some head))
    then go_on
    else ok current

abbrev pub set_prev_level : Book → ℕ → Option ℕ → Book
set_prev_level b p q = set_level b p (record (level_at b p) { prev_price_level = q })

abbrev pub set_next_level : Book → ℕ → Option ℕ → Book
set_next_level b p q = set_level b p (record (level_at b p) { next_price_level = q })

-- the four assignments that put `new_level` in front of `current`
unfoldable pub link_level : Book → (new_level current : ℕ) → Outcome Book
link_level b new_level current = do
  let b1 = set_next_level b new_level (some current)
  let b2 = set_prev_level b1 new_level (level_at b1 current).prev_price_level
  before ← deref (level_at b2 current).prev_price_level
  let b3 = set_next_level b2 before (some new_level)
  ok (set_prev_level b3 current (some new_level))

abbrev pub set_head : Book → Side → ℕ → Book
set_head b side p =
    if same_side side Side.buy
    then record b { bid_levels_head = some p }
    else record b { ask_levels_head = some p }

-- The branch of `addOrdersAtPrice` for a side that has a head.
unfoldable pub insert_level : Book → (new_level head : ℕ) → Outcome Book
unfolding walk link_level
insert_level b new_level head = do
  let side = (level_at b new_level).side
  let price = (level_at b new_level).price
  current ← walk (b.price_levels_pool.size + 1) b side price head head
  b' ← link_level b new_level current
  ok (if passes side price (level_at b' head).price then set_head b' side new_level else b')

unfoldable pub add_orders_at_price : Book → ℕ → Outcome Book
unfolding insert_level price_to_index
add_orders_at_price b new_level =
    let side = (level_at b new_level).side in
    let i = price_to_index b (level_at b new_level).price in
    let b1 = record b { price_levels = update b.price_levels i (some new_level) } in
    elim (head_of b1 side) [
      | none ↦
          ok (
            set_next_level (set_prev_level b1 new_level (some new_level)) new_level
              (some new_level))
      | some head ↦ insert_level b1 new_level head
    ]

-- The unlinking of a level that has neighbours.
unfoldable pub unlink_level : Book → ℕ → Outcome Book
unlink_level b level = do
  before ← deref (level_at b level).prev_price_level
  let b1 = set_next_level b before (level_at b level).next_price_level
  after ← deref (level_at b1 level).next_price_level
  ok (set_prev_level b1 after (level_at b1 level).prev_price_level)

unfoldable pub remove_price_level : Book → (price : ℕ) → Outcome Book
unfolding unlink_level price_to_index get_price_level
remove_price_level b price = do
  level ← deref (get_price_level b price)
  b1 ←
      if same_ptr (level_at b level).next_price_level (some level)
      then ok b
      else unlink_level b level
  let b2 = record b1 { price_levels = update b1.price_levels (price_to_index b1 price) none }
  pool ← MemPool.deallocate b2.price_levels_pool level
  ok (record b2 { price_levels_pool = pool })
