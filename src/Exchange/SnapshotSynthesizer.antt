-- ===== src/Exchange/SnapshotSynthesizer.antt =====
-- exchange/market_data/snapshot_synthesizer.h and snapshot_synthesizer.cpp: the orders that are live
-- according to the incremental updates, and the snapshot of them. Logging, the clock and the sockets
-- are left out: what is sent is a list.
pub mod Numbering
pub mod View
pub mod Updates
pub mod Feed
mod Tests
use electronic_trading_ecosy.Base.{
  ℕ, zero, suc, ◌+◌, ◌%◌, Bool, true, false, Option, none, some, List, [], ◌∷◌, ◌++◌, Outcome, ok,
  fault, out_of_fuel, assert_failed, deref, assert, in_range, ◌>>=◌, ◌>>◌, ltb, ◌==◌, if◌then◌else◌,
  update,
}
use electronic_trading_ecosy.Common.LfQueue
use electronic_trading_ecosy.Common.LfQueue.{LfQueue}
use electronic_trading_ecosy.Common.MemPool
use electronic_trading_ecosy.Common.MemPool.{MemPool}
use electronic_trading_ecosy.Common.Types.{Limits, same_side, u64_mod}
use electronic_trading_ecosy.Exchange.Messages.{
  MarketUpdateType, MeMarketUpdate, MdpMarketUpdate, default_market_update,
}

pub record Synthesizer : Type 0 where
  pub limits : Limits
  pub market_updates : LfQueue MdpMarketUpdate
  pub orders_per_ticker : ℕ → ℕ → Option ℕ
  pub last_inc_seq_num : ℕ
  pub order_pool : MemPool MeMarketUpdate

abbrev pub set_entry : (ticker order : ℕ) → Option ℕ → Synthesizer → Synthesizer
set_entry t o p s = record s {
  orders_per_ticker = update s.orders_per_ticker t (update (s.orders_per_ticker t) o p);
}

-- `orders->at(order_id)`
abbrev pub entry : (ticker order : ℕ) → Synthesizer → Outcome (Option ℕ)
entry t o s = in_range (ltb o s.limits.max_order_ids) >> ok (s.orders_per_ticker t o)

-- the assertions that an update of an order makes, and the order
unfoldable pub existing : MeMarketUpdate → Synthesizer → Outcome ℕ
existing u s = do
  order ← entry u.ticker_id u.order_id s
  elim order [
    | none ↦ fault assert_failed
    | some p ↦ (do
      assert ((s.order_pool.object p).order_id == u.order_id)
      assert (same_side (s.order_pool.object p).side u.side)
      ok p)
  ]

-- the cases of the switch
unfoldable pub add_order : MeMarketUpdate → Synthesizer → Outcome Synthesizer
add_order u s = do
  order ← entry u.ticker_id u.order_id s
  elim order [
    | none ↦ (do
      (p, pool) ← MemPool.allocate s.order_pool u
      ok (set_entry u.ticker_id u.order_id (some p) (record s { order_pool = pool })))
    | some p ↦ fault assert_failed
  ]

unfoldable pub modify_order : MeMarketUpdate → Synthesizer → Outcome Synthesizer
unfolding existing
modify_order u s = do
  p ← existing u s
  ok (record s {
    order_pool =
        MemPool.store s.order_pool p
          (record (s.order_pool.object p) { qty = u.qty; price = u.price });
  })

unfoldable pub cancel_order : MeMarketUpdate → Synthesizer → Outcome Synthesizer
unfolding existing
cancel_order u s = do
  p ← existing u s
  pool ← MemPool.deallocate s.order_pool p
  ok (set_entry u.ticker_id u.order_id none (record s { order_pool = pool }))

-- the switch
unfoldable pub update_orders : MarketUpdateType → MeMarketUpdate → Synthesizer → Outcome Synthesizer
unfolding add_order modify_order cancel_order
update_orders MarketUpdateType.add u s = add_order u s
update_orders MarketUpdateType.modify u s = modify_order u s
update_orders MarketUpdateType.cancel u s = cancel_order u s
update_orders MarketUpdateType.clear u s = ok s
update_orders MarketUpdateType.trade u s = ok s
update_orders MarketUpdateType.invalid u s = ok s
update_orders MarketUpdateType.snapshot_start u s = ok s
update_orders MarketUpdateType.snapshot_end u s = ok s
update_orders (MarketUpdateType.unnamed byte) u s = ok s

unfoldable pub add_to_snapshot : MdpMarketUpdate → Synthesizer → Outcome Synthesizer
unfolding update_orders
add_to_snapshot r s = do
  in_range (ltb r.me_market_update.ticker_id s.limits.max_tickers)
  s' ← update_orders r.me_market_update.type r.me_market_update s
  assert (r.seq_num == (s'.last_inc_seq_num + 1) % u64_mod)
  ok (record s' { last_inc_seq_num = r.seq_num })

-- What a snapshot has sent so far, and its counter.
pub record Publishing : Type 0 where
  pub sent : List MdpMarketUpdate
  pub snapshot_size : ℕ

unfoldable pub send : MeMarketUpdate → Publishing → Publishing
send u p = record {
  sent = p.sent ++ record { seq_num = p.snapshot_size; me_market_update = u } ∷ [];
  snapshot_size = (p.snapshot_size + 1) % u64_mod;
}

-- the loop over the orders of a ticker, from the order `i` on
unfoldable pub send_orders : (count : ℕ) → Synthesizer → (ticker i : ℕ) → Publishing → Publishing
send_orders zero s t i p = p
send_orders (suc n) s t i p =
    let skipped = send_orders n s t (i + 1) p in
    elim (s.orders_per_ticker t i) [
      | none ↦ skipped
      | some o ↦ send_orders n s t (i + 1) (send (s.order_pool.object o) p)
    ]

abbrev pub clear_update : (ticker : ℕ) → MeMarketUpdate
clear_update t = record default_market_update { type = MarketUpdateType.clear; ticker_id = t }

-- `{SNAPSHOT_START, last_inc_seq_num_}`: the number stands as the order's identifier.
abbrev pub marker : MarketUpdateType → Synthesizer → MeMarketUpdate
marker type s = record default_market_update { type = type; order_id = s.last_inc_seq_num }

-- the loop over the tickers, from the ticker `t` on
unfoldable pub send_tickers : (count : ℕ) → Synthesizer → (t : ℕ) → Publishing → Publishing
unfolding send_orders
send_tickers zero s t p = p
send_tickers (suc n) s t p =
    send_tickers n s (t + 1) (send_orders s.limits.max_order_ids s t 0 (send (clear_update t) p))

unfoldable pub publish_snapshot : Synthesizer → List MdpMarketUpdate
unfolding send_tickers
publish_snapshot s =
    let p =
      send (marker MarketUpdateType.snapshot_start s) (record { sent = []; snapshot_size = 0 }) in
    (send (marker MarketUpdateType.snapshot_end s) (send_tickers s.limits.max_tickers s 0 p)).sent

-- The loop of `run` over the updates on the queue.
unfoldable pub take_updates : (fuel : ℕ) → Synthesizer → Outcome Synthesizer
unfolding add_to_snapshot
take_updates zero s = fault out_of_fuel
take_updates (suc fuel) s = do
  (next, updates) ← LfQueue.poll s.market_updates
  elim next [
    | none ↦ ok s
    | some r ↦ (do
      s' ← add_to_snapshot r s
      take_updates fuel (record s' { market_updates = updates }))
  ]
