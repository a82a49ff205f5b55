-- ===== src/Exchange/OrderBook.antt =====
-- exchange/matcher/me_order.h and me_order_book.h: the state of one instrument's order book, and
-- its reads. A pointer into a pool is a block's index, `none` is `nullptr`; the arrays are functions
-- on indices, with the bounds of `Limits` tested where the code uses `at`.
pub mod Levels
pub mod Orders
pub mod Matching
pub mod Requests
pub mod Heads
pub mod Quiet
pub mod Answers
mod Tests
pub mod Removal
pub mod Rings
pub mod Priority
pub mod Printing
pub mod Placing
pub mod Entering
use electronic_trading_ecosy.Base.{
  ℕ, ◌+◌, ◌%◌, ◌<◌, Option, none, some, Outcome, ok, deref, ◌>>=◌, ◌>>◌, Bool, true, false, update,
}
use electronic_trading_ecosy.Common.LfQueue
use electronic_trading_ecosy.Common.LfQueue.{LfQueue}
use electronic_trading_ecosy.Common.MemPool
use electronic_trading_ecosy.Common.MemPool.{MemPool}
use electronic_trading_ecosy.Common.Types.{Side, Limits, u64_mod, price_invalid}
use electronic_trading_ecosy.Exchange.Messages.{MeClientResponse, MeMarketUpdate}

-- `MEOrder`
pub record Order : Type 0 where
  pub ticker_id : ℕ
  pub client_id : ℕ
  pub client_order_id : ℕ
  pub market_order_id : ℕ
  pub side : Side
  pub price : ℕ
  pub qty : ℕ
  pub priority : ℕ
  pub prev_order : Option ℕ
  pub next_order : Option ℕ

-- `MEOrderAtPriceLevel`
pub record PriceLevel : Type 0 where
  pub side : Side
  pub price : ℕ
  pub first_order : Option ℕ
  pub prev_price_level : Option ℕ
  pub next_price_level : Option ℕ

-- `MEOrderBook`, without the message buffers, which each use fills anew
pub record Book : Type 0 where
  pub limits : Limits
  pub ticker_id : ℕ
  pub client_orders : ℕ → ℕ → Option ℕ
  pub bid_levels_head : Option ℕ
  pub ask_levels_head : Option ℕ
  pub price_levels : ℕ → Option ℕ
  pub price_levels_pool : MemPool PriceLevel
  pub order_pool : MemPool Order
  pub next_market_order_id : ℕ

-- the queues of the matching engine that `sendClientResponse` and `sendMarketUpdate` write to
pub record Outgoing : Type 0 where
  pub responses : LfQueue MeClientResponse
  pub updates : LfQueue MeMarketUpdate

unfoldable pub send_client_response : MeClientResponse → Outgoing → Outgoing
send_client_response r out = record out { responses = LfQueue.write out.responses r }

unfoldable pub send_market_update : MeMarketUpdate → Outgoing → Outgoing
send_market_update u out = record out { updates = LfQueue.write out.updates u }

abbrev pub order_at : Book → ℕ → Order
order_at b p = b.order_pool.object p

abbrev pub level_at : Book → ℕ → PriceLevel
level_at b p = b.price_levels_pool.object p

-- `p->… = …`
abbrev pub set_order : Book → ℕ → Order → Book
set_order b p o = record b {
  order_pool = record b.order_pool { object = update b.order_pool.object p o };
}

abbrev pub set_level : Book → ℕ → PriceLevel → Book
set_level b p l = record b {
  price_levels_pool = record b.price_levels_pool { object = update b.price_levels_pool.object p l };
}

unfoldable pub price_to_index : Book → ℕ → ℕ
price_to_index b price = price % b.limits.max_price_levels

unfoldable pub get_price_level : Book → ℕ → Option ℕ
unfolding price_to_index
get_price_level b price = b.price_levels (price_to_index b price)

-- the identifier, and the book with the counter moved on
unfoldable pub generate_new_market_order_id : Book → ℕ × Book
generate_new_market_order_id b = (
  b.next_market_order_id,
  record b { next_market_order_id = (b.next_market_order_id + 1) % u64_mod },
)

-- `first_order_->prev_order_` is the last order of the level.
unfoldable pub get_next_priority : Book → ℕ → Outcome ℕ
unfolding get_price_level
get_next_priority b price = elim (get_price_level b price) [
  | none ↦ ok 1
  | some level ↦ do
    first ← deref (level_at b level).first_order
    last ← deref (order_at b first).prev_order
    ok (((order_at b last).priority + 1) % u64_mod)
]
