-- ===== src/Trading/FeatureEngine/Tests.antt =====
-- The engine behind a book that has taken one order, and on a book with both best prices.
use electronic_trading_ecosy.Base.{◌≡◌, refl, [], ◌∷◌, none, some, ok, fault, null_pointer, update}
use electronic_trading_ecosy.Base.Int.{pos, ◌*ℤ◌}
use electronic_trading_ecosy.Common.MemPool
use electronic_trading_ecosy.Common.Types.{Side, Limits}
use electronic_trading_ecosy.Exchange.Messages.{MarketUpdateType, MeMarketUpdate}
use electronic_trading_ecosy.Trading.PositionInfo.Tests.{integers}
use electronic_trading_ecosy.Trading.MarketOrderBook.{MarketOrderBook, new_book, new_level}
use electronic_trading_ecosy.Trading.MarketOrderBook.Levels.{add_orders_at_price_level}
use electronic_trading_ecosy.Trading.MarketOrderBook.Updates.{
  on_market_update, add_order, place_order, add_order_new_level, run,
}
use electronic_trading_ecosy.Trading.FeatureEngine.{
  new_engine, weighted_price, on_order_book_update, on_trade_update,
}
use electronic_trading_ecosy.Trading.FeatureEngine.Blind.{run-on_update}

abbrev small : Limits
small = record { max_tickers = 2; max_num_clients = 2; max_order_ids = 4; max_price_levels = 4 }

abbrev order : MeMarketUpdate
order = record {
  type = MarketUpdateType.add;
  order_id = 1;
  ticker_id = 1;
  side = Side.sell;
  price = 5;
  qty = 10;
  priority = 1;
}

one_order :
    (b : MarketOrderBook) × (run (new_book small (λ i. none) (λ i. none)) (order ∷ []) ≡ ok b)
unfolding run on_market_update new_book MemPool.allocate MemPool.init update add_order place_order
    add_order_new_level add_orders_at_price_level
one_order = (_, refl)

run-on_update_example :
    (on_order_book_update integers one_order.0 (new_engine integers (pos 0)) ≡ fault null_pointer)
    × (on_trade_update integers order one_order.0 (new_engine integers (pos 0))
        ≡ fault null_pointer)
run-on_update_example =
    run-on_update integers small (λ i. none) (λ i. none) (order ∷ []) {b = one_order.0} order
      (new_engine integers (pos 0)) one_order.1

-- 30 to buy at 100 and 10 to sell at 104: the larger quantity draws the price to the other side
weighted :
    weighted_price integers
      (record (new_level Side.buy 100 (some 0)) { total_qty = 30 })
      (record (new_level Side.sell 104 (some 1)) { total_qty = 10 })
    ≡ pos 103
unfolding weighted_price ◌*ℤ◌
weighted = refl
