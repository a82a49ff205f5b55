-- ===== src/Trading/MarketOrderBook.antt =====
-- trading_system/strategy/market_order.h: the client's view of one instrument's orders. A pointer into
-- a pool is a block's index, and `none` is `nullptr`.
pub mod Levels
pub mod Updates
pub mod Heads
pub mod Printing
mod Tests
use electronic_trading_ecosy.Base.{ℕ, ◌%◌, Option, none, some, update, Bool, if◌then◌else◌}
use electronic_trading_ecosy.Common.MemPool
use electronic_trading_ecosy.Common.MemPool.{MemPool}
use electronic_trading_ecosy.Common.Types.{
  Side, same_side, Limits, order_id_invalid, price_invalid, qty_invalid, priority_invalid,
}

pub record MarketOrder : Type 0 where
  pub order_id : ℕ
  pub side : Side
  pub price : ℕ
  pub qty : ℕ
  pub priority : ℕ
  pub next_order : Option ℕ
  pub prev_order : Option ℕ

abbrev pub default_order : MarketOrder
default_order = record {
  order_id = order_id_invalid;
  side = Side.invalid;
  price = price_invalid;
  qty = qty_invalid;
  priority = priority_invalid;
  next_order = none;
  prev_order = none;
}

pub record MarketOrderPriceLevel : Type 0 where
  pub total_qty : ℕ
  pub orders_count : ℕ
  pub side : Side
  pub price : ℕ
  pub first_order : Option ℕ
  pub prev_level : Option ℕ
  pub next_level : Option ℕ

-- `MarketOrderPriceLevel(side, price, first_order, nullptr, nullptr)`: the quantity starts at
-- `Qty_INVALID`.
abbrev pub new_level : Side → (price : ℕ) → (first_order : Option ℕ) → MarketOrderPriceLevel
new_level side price first = record {
  total_qty = qty_invalid;
  orders_count = 0;
  side = side;
  price = price;
  first_order = first;
  prev_level = none;
  next_level = none;
}

-- `MarketOrderBook`, with `best_offer_` as two fields
pub record MarketOrderBook : Type 0 where
  pub limits : Limits
  pub order_id_to_order : ℕ → Option ℕ
  pub price_level_pool : MemPool MarketOrderPriceLevel
  pub bid_price_levels : Option ℕ
  pub ask_price_levels : Option ℕ
  pub orders_at_price_levels : ℕ → Option ℕ
  pub order_pool : MemPool MarketOrder
  pub best_bid : Option ℕ
  pub best_ask : Option ℕ

-- The constructor. It writes neither of the two arrays: `orders` and `levels` are what their memory
-- holds.
unfoldable pub new_book : Limits → (orders levels : ℕ → Option ℕ) → MarketOrderBook
new_book limits orders levels = record {
  limits = limits;
  order_id_to_order = orders;
  price_level_pool =
      MemPool.init limits.max_price_levels (new_level Side.invalid price_invalid none);
  bid_price_levels = none;
  ask_price_levels = none;
  orders_at_price_levels = levels;
  order_pool = MemPool.init limits.max_order_ids default_order;
  best_bid = none;
  best_ask = none;
}

abbrev pub order_at : MarketOrderBook → ℕ → MarketOrder
order_at b p = b.order_pool.object p

abbrev pub level_at : MarketOrderBook → ℕ → MarketOrderPriceLevel
level_at b p = b.price_level_pool.object p

-- `p->… = …`
abbrev pub set_order : MarketOrderBook → ℕ → MarketOrder → MarketOrderBook
set_order b p o = record b {
  order_pool = record b.order_pool { object = update b.order_pool.object p o };
}

abbrev pub set_level : MarketOrderBook → ℕ → MarketOrderPriceLevel → MarketOrderBook
set_level b p l = record b {
  price_level_pool = record b.price_level_pool { object = update b.price_level_pool.object p l };
}

unfoldable pub price_to_index : MarketOrderBook → ℕ → ℕ
price_to_index b price = price % b.limits.max_price_levels

unfoldable pub get_price_level : MarketOrderBook → ℕ → Option ℕ
unfolding price_to_index
get_price_level b price = b.orders_at_price_levels (price_to_index b price)

abbrev pub head_of : MarketOrderBook → Side → Option ℕ
head_of b side = if same_side side Side.buy then b.bid_price_levels else b.ask_price_levels
