-- ===== src/Exchange/SnapshotSynthesizer/Numbering.antt =====
-- The order and the numbers of a snapshot's messages.
use electronic_trading_ecosy.Base.{ℕ, zero, suc, ◌+◌, none, some, List, [], ◌∷◌, ◌++◌}
use electronic_trading_ecosy.Exchange.Messages.{MarketUpdateType, MeMarketUpdate, MdpMarketUpdate}
use electronic_trading_ecosy.Exchange.SnapshotSynthesizer.{
  Synthesizer, Publishing, send, clear_update, marker,
}

-- messages under consecutive numbers
unfoldable pub numbered : ℕ → List MeMarketUpdate → List MdpMarketUpdate
numbered n [] = []
numbered n (u ∷ us) = record { seq_num = n; me_market_update = u } ∷ numbered (n + 1) us

-- the live orders of a ticker, from the order `i` on
unfoldable pub live_orders : (count : ℕ) → Synthesizer → (ticker i : ℕ) → List MeMarketUpdate
live_orders zero s t i = []
live_orders (suc n) s t i =
    let rest = live_orders n s t (i + 1) in
    elim (s.orders_per_ticker t i) [ none ↦ rest | some o ↦ s.order_pool.object o ∷ rest ]

-- a CLEAR and the live orders of each ticker, from the ticker `t` on
unfoldable pub ticker_updates : (count : ℕ) → Synthesizer → (t : ℕ) → List MeMarketUpdate
ticker_updates zero s t = []
ticker_updates (suc n) s t =
    clear_update t ∷ live_orders s.limits.max_order_ids s t 0 ++ ticker_updates n s (t + 1)

abbrev pub snapshot_of : Synthesizer → List MeMarketUpdate
snapshot_of s =
    marker MarketUpdateType.snapshot_start s ∷ ticker_updates s.limits.max_tickers s 0
    ++ marker MarketUpdateType.snapshot_end s ∷ []

unfoldable pub send_all : List MeMarketUpdate → Publishing → Publishing
send_all [] p = p
send_all (u ∷ us) p = send_all us (send u p)
