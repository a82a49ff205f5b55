-- ===== src/Trading/MarketDataConsumer/Tests.antt =====
-- The theorems about the consumer at short feeds.
use electronic_trading_ecosy.Base.{ℕ, ◌≡◌, refl, true, false, List, [], ◌∷◌, ok, arith}
use electronic_trading_ecosy.Common.LfQueue
use electronic_trading_ecosy.Common.LfQueue.Fifo.{contents}
use electronic_trading_ecosy.Exchange.Messages.{
  MarketUpdateType, MeMarketUpdate, MdpMarketUpdate, default_market_update,
}
use electronic_trading_ecosy.Trading.MarketDataConsumer.{
  Consumer, handle_update, check_snapshot_sync, assign, contains, collect_snapshot, last_of,
}
use electronic_trading_ecosy.Trading.MarketDataConsumer.Recovery.{
  Recovers, Arrival, run, run-Recovers,
}
use electronic_trading_ecosy.Trading.MarketDataConsumer.Delivery.{
  incremental, in_sequence, run-in_sequence,
}

abbrev order : (order_id : ℕ) → MeMarketUpdate
order i = record default_market_update { type = MarketUpdateType.add; order_id = i }

abbrev message : (seq_num : ℕ) → MdpMarketUpdate
message n = record { seq_num = n; me_market_update = order n }

abbrev fresh : Consumer
fresh = record {
  incoming_updates = LfQueue.init 4 default_market_update;
  next_update_seq_num = 0;
  incremental_queued = [];
  in_recovery_mode = false;
  snapshot_queued = [];
  snapshot_joined = false;
}

abbrev lost : Consumer
lost = record fresh { in_recovery_mode = true }

abbrev marker : MarketUpdateType → (seq_num : ℕ) → MdpMarketUpdate
marker type n = record {
  seq_num = n;
  me_market_update = record default_market_update { type = type; order_id = 0 };
}

abbrev on_snapshot : MdpMarketUpdate → Arrival
on_snapshot r = record { joins = true; is_snapshot = true; update = r }

-- an empty snapshot, whole and in order
abbrev snapshot : List Arrival
snapshot =
    on_snapshot (marker MarketUpdateType.snapshot_start 0)
    ∷ on_snapshot (marker MarketUpdateType.snapshot_end 1)
    ∷ []

snapshot_runs : (c : Consumer) × (run lost snapshot ≡ ok c)
unfolding run handle_update check_snapshot_sync assign contains collect_snapshot last_of
snapshot_runs = (_, refl)

-- Even a whole snapshot does not end the recovery.
run-Recovers_example : Recovers lost snapshot_runs.0
run-Recovers_example =
    run-Recovers snapshot lost {c' = snapshot_runs.0} (record { mode = refl; keys = tt })
      snapshot_runs.1

-- the updates 0 and 1, and then the update 3
abbrev gap : List MdpMarketUpdate
gap = message 0 ∷ message 1 ∷ message 3 ∷ []

gap_runs : (c : Consumer) × (run fresh (incremental gap) ≡ ok c)
unfolding run incremental handle_update
gap_runs = (_, refl)

run-in_sequence_example : contents gap_runs.0.incoming_updates ≡ order 0 ∷ order 1 ∷ []
unfolding in_sequence LfQueue.init
run-in_sequence_example =
    run-in_sequence gap fresh {c' = gap_runs.0} refl refl (omega arith) (omega arith) (omega arith)
      gap_runs.1
