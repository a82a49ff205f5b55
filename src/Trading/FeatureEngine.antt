-- ===== src/Trading/FeatureEngine.antt =====
-- trading_system/strategy/feature_engine.h and feature_engine.cpp: two figures over the best prices of
-- a client's book. `double` is a parameter; the log is left out.
pub mod Blind
mod Tests
use electronic_trading_ecosy.Base.{
  ℕ, ◌+◌, ◌*◌, ◌%◌, Bool, true, false, not, Outcome, ok, deref, ◌>>=◌, ◌==◌, if◌then◌else◌,
}
use electronic_trading_ecosy.Base.Int.{pos}
use electronic_trading_ecosy.Common.Types.{Side, same_side, u32_mod, u64_mod, price_invalid}
use electronic_trading_ecosy.Exchange.Messages.{MeMarketUpdate}
use electronic_trading_ecosy.Trading.PositionInfo.{Double}
use electronic_trading_ecosy.Trading.MarketOrderBook.{
  MarketOrderBook, MarketOrderPriceLevel, level_at,
}

module _ (d : Double) where
  pub record FeatureEngine : Type 0 where
    pub market_price : d.Value
    pub aggregated_trade_qty_ratio : d.Value

  abbrev of_ℕ : ℕ → d.Value
  of_ℕ n = d.of_ℤ (pos n)

  -- the constructor, with the value of `Feature_INVALID`
  abbrev pub new_engine : (nan : d.Value) → FeatureEngine
  new_engine nan = record { market_price = nan; aggregated_trade_qty_ratio = nan }

  -- `best_ask_->price_ != Price_INVALID && best_bid_->price_ != Price_INVALID`, through both pointers
  unfoldable pub both_priced : MarketOrderBook → Outcome Bool
  both_priced b = deref b.best_ask >>= λ ask.
      if (level_at b ask).price == price_invalid
      then ok false
      else (do bid ← deref b.best_bid; ok (not ((level_at b bid).price == price_invalid)))

  -- The products and their sum are of 64 bits, the sum of the quantities of 32.
  unfoldable pub weighted_price : (bid ask : MarketOrderPriceLevel) → d.Value
  weighted_price bid ask =
      d.div
        (of_ℕ
          ((bid.price * ask.total_qty % u64_mod + ask.price * bid.total_qty % u64_mod) % u64_mod))
        (of_ℕ ((bid.total_qty + ask.total_qty) % u32_mod))

  unfoldable pub on_order_book_update : MarketOrderBook → FeatureEngine → Outcome FeatureEngine
  unfolding both_priced weighted_price
  on_order_book_update b e = both_priced b >>= λ priced.
      if priced
      then (do
        bid ← deref b.best_bid
        ask ← deref b.best_ask
        ok (record e { market_price = weighted_price (level_at b bid) (level_at b ask) }))
      else ok e

  unfoldable pub on_trade_update :
      MeMarketUpdate → MarketOrderBook → FeatureEngine → Outcome FeatureEngine
  unfolding both_priced
  on_trade_update u b e = both_priced b >>= λ priced.
      if priced
      then (do
        level ← deref (if same_side u.side Side.buy then b.best_ask else b.best_bid)
        ok (record e {
          aggregated_trade_qty_ratio = d.div (of_ℕ u.qty) (of_ℕ (level_at b level).total_qty);
        }))
      else ok e
