-- ===== src/Exchange/SnapshotSynthesizer/Tests.antt =====
-- The theorems about the synthesizer at two tickers of three orders each.
use electronic_trading_ecosy.Base.{
  List, [], ◌∷◌, ℕ, ◌+◌, ◌%◌, ◌^◌, ◌≡◌, refl, true, false, none, some, ok, arith, update,
}
use electronic_trading_ecosy.Common.LfQueue
use electronic_trading_ecosy.Common.MemPool
use electronic_trading_ecosy.Common.Types.{Side}
use electronic_trading_ecosy.Exchange.Messages.{
  MarketUpdateType, MeMarketUpdate, MdpMarketUpdate, default_market_update,
}
use electronic_trading_ecosy.Exchange.SnapshotSynthesizer.{
  Synthesizer, add_to_snapshot, update_orders, cancel_order, add_order, existing,
}
use electronic_trading_ecosy.Exchange.SnapshotSynthesizer.Feed.{
  add_all, apply_all, add_all-Implements,
}
use electronic_trading_ecosy.Exchange.SnapshotSynthesizer.View.{
  view, apply_update, IsOwned, Implements,
}
use electronic_trading_ecosy.Exchange.SnapshotSynthesizer.Updates.{add_to_snapshot-Implements}

abbrev order : MarketUpdateType → (order_id : ℕ) → MeMarketUpdate
order type i = record {
  type = type;
  order_id = i;
  ticker_id = 1;
  side = Side.buy;
  price = 5;
  qty = 10;
  priority = 1;
}

-- order 2 of ticker 1 is live, in block 0, and four updates are counted
abbrev one_live : Synthesizer
one_live = record {
  limits = record { max_tickers = 2; max_num_clients = 2; max_order_ids = 3; max_price_levels = 8 };
  market_updates =
      LfQueue.init 4 (record { seq_num = 0; me_market_update = default_market_update });
  orders_per_ticker = update (λ t i. none) 1 (update (λ i. none) 2 (some 0));
  last_inc_seq_num = 4;
  order_pool = record {
    object = λ b. order MarketUpdateType.add 2;
    is_free = update (λ b. true) 0 false;
    size = 3;
    next_free_index = 1;
  };
}

one_live-IsOwned : IsOwned one_live
unfolding update
one_live-IsOwned = record {
  in_use = λ t i p e. ground arith;
  owner = λ t i t' i' p e f. ground arith;
}

abbrev cancel_it : MdpMarketUpdate
cancel_it = record { seq_num = 5; me_market_update = order MarketUpdateType.cancel 2 }

-- The cancellation is accepted.
cancel_accepted : (s : Synthesizer) × (add_to_snapshot cancel_it one_live ≡ ok s)
unfolding add_to_snapshot update_orders cancel_order existing update MemPool.deallocate
cancel_accepted = (_, refl)

add_to_snapshot-Implements_example :
    Implements
      (apply_update MarketUpdateType.cancel (order MarketUpdateType.cancel 2) (view one_live))
      5
      cancel_accepted.0
    × (5 ≡ (4 + 1) % 2 ^ 64)
add_to_snapshot-Implements_example =
    add_to_snapshot-Implements cancel_it one_live cancel_accepted.0 one_live-IsOwned
      cancel_accepted.1

-- the cancellation, and the order once more
abbrev again : List MdpMarketUpdate
again = cancel_it ∷ record { seq_num = 6; me_market_update = order MarketUpdateType.add 2 } ∷ []

again_accepted : (s : Synthesizer) × (add_all again one_live ≡ ok s)
unfolding add_all add_to_snapshot update_orders cancel_order add_order existing update
    MemPool.deallocate MemPool.allocate
again_accepted = (_, refl)

add_all-Implements_example : Implements (apply_all again (view one_live)) 6 again_accepted.0
add_all-Implements_example =
    add_all-Implements again one_live again_accepted.0 one_live-IsOwned (omega arith)
      again_accepted.1
