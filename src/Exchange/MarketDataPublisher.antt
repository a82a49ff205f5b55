-- ===== src/Exchange/MarketDataPublisher.antt =====
-- exchange/market_data/market_data_publisher.h and market_data_publisher.cpp: the incremental
-- updates, numbered and sent. The updates are not passed to the snapshot synthesizer, since the lines
-- that would do so are commented out. Logging is left out.
pub mod Incremental
mod Tests
use electronic_trading_ecosy.Base.{
  ℕ, zero, suc, ◌+◌, ◌%◌, Option, none, some, List, [], ◌∷◌, ◌++◌, Outcome, ok, fault, out_of_fuel,
  ◌>>=◌, ◌>>◌,
}
use electronic_trading_ecosy.Common.LfQueue
use electronic_trading_ecosy.Common.LfQueue.{LfQueue}
use electronic_trading_ecosy.Common.Types.{u64_mod}
use electronic_trading_ecosy.Exchange.Messages.{MeMarketUpdate, MdpMarketUpdate}

-- `sent` is what the socket was given: each number with the update that follows it.
pub record MarketDataPublisher : Type 0 where
  pub outgoing_md_updates : LfQueue MeMarketUpdate
  pub next_inc_seq_num : ℕ
  pub sent : List MdpMarketUpdate

-- The loop of `run` over the updates on the queue.
unfoldable pub publish_updates : (fuel : ℕ) → MarketDataPublisher → Outcome MarketDataPublisher
publish_updates zero p = fault out_of_fuel
publish_updates (suc fuel) p = do
  (next, updates) ← LfQueue.poll p.outgoing_md_updates
  elim next [
    | none ↦ ok p
    | some u ↦ publish_updates fuel (record p {
      sent = p.sent ++ record { seq_num = p.next_inc_seq_num; me_market_update = u } ∷ [];
      outgoing_md_updates = updates;
      next_inc_seq_num = (p.next_inc_seq_num + 1) % u64_mod;
    })
  ]
