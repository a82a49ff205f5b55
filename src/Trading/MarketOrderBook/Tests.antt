-- ===== src/Trading/MarketOrderBook/Tests.antt =====
-- The theorem about the client's book at a feed of two orders and a trade.
use electronic_trading_ecosy.Base.{ℕ, ◌≡◌, refl, none, some, List, [], ◌∷◌, ok, update}
use electronic_trading_ecosy.Common.MemPool
use electronic_trading_ecosy.Common.Types.{Side, Limits}
use electronic_trading_ecosy.Exchange.Messages.{MarketUpdateType, MeMarketUpdate}
use electronic_trading_ecosy.Trading.MarketOrderBook.{MarketOrderBook, new_book}
use electronic_trading_ecosy.Trading.MarketOrderBook.Levels.{add_orders_at_price_level}
use electronic_trading_ecosy.Trading.MarketOrderBook.Updates.{
  on_market_update, add_order, place_order, add_order_new_level, get_bbo, run,
}
use electronic_trading_ecosy.Trading.MarketOrderBook.Heads.{run-new_book}

abbrev small : Limits
small = record { max_tickers = 2; max_num_clients = 2; max_order_ids = 4; max_price_levels = 4 }

abbrev order : MarketUpdateType → (order_id price : ℕ) → MeMarketUpdate
order type i price = record {
  type = type;
  order_id = i;
  ticker_id = 1;
  side = Side.buy;
  price = price;
  qty = 10;
  priority = 1;
}

abbrev feed : List MeMarketUpdate
feed =
    order MarketUpdateType.add 1 5
    ∷ order MarketUpdateType.add 2 6
    ∷ order MarketUpdateType.modify 1 5
    ∷ order MarketUpdateType.trade 1 5
    ∷ []

feed_runs : (b : MarketOrderBook) × (run (new_book small (λ i. some 3) (λ i. none)) feed ≡ ok b)
unfolding run on_market_update new_book MemPool.allocate MemPool.init update add_order place_order
    add_order_new_level add_orders_at_price_level
feed_runs = (_, refl)

run-new_book_example : get_bbo feed_runs.0 ≡ record { bid_price = none; ask_price = none }
run-new_book_example =
    run-new_book small (λ i. some 3) (λ i. none) feed {b' = feed_runs.0} feed_runs.1
