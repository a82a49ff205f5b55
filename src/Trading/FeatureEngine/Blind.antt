-- ===== src/Trading/FeatureEngine/Blind.antt =====
-- The feature engine on the client's book as the book is.
use electronic_trading_ecosy.Base.{ℕ, ◌≡◌, refl, Option, List, ok, fault, null_pointer}
use electronic_trading_ecosy.Common.Types.{Limits}
use electronic_trading_ecosy.Exchange.Messages.{MeMarketUpdate}
use electronic_trading_ecosy.Trading.PositionInfo.{Double}
use electronic_trading_ecosy.Trading.MarketOrderBook.{MarketOrderBook, new_book}
use electronic_trading_ecosy.Trading.MarketOrderBook.Updates.{run}
use electronic_trading_ecosy.Trading.MarketOrderBook.Heads.{run-IsBlind, new_book-IsBlind}
use electronic_trading_ecosy.Trading.FeatureEngine.{
  FeatureEngine, both_priced, on_order_book_update, on_trade_update,
}

-- After any sequence of updates that a new book takes without a failure, whatever the memory of its two
-- arrays holds at first, both of the engine's functions read through a null pointer: the book has no
-- best ask.
pub run-on_update :
    (d : Double) (limits : Limits) (orders levels : ℕ → Option ℕ) (us : List MeMarketUpdate)
    {b : MarketOrderBook} (u : MeMarketUpdate) (e : FeatureEngine d)
    → run (new_book limits orders levels) us ≡ ok b
    → (on_order_book_update d b e ≡ fault null_pointer)
      × (on_trade_update d u b e ≡ fault null_pointer)
unfolding on_order_book_update on_trade_update both_priced
run-on_update d limits orders levels us u e h =
    let start : MarketOrderBook = new_book limits orders levels in
    let blind = run-IsBlind us start (new_book-IsBlind limits orders levels) h in
    (rw blind.best_ask refl, rw blind.best_ask refl)
