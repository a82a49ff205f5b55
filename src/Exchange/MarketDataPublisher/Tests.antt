-- ===== src/Exchange/MarketDataPublisher/Tests.antt =====
-- The theorem about the publisher at a queue of two updates.
use electronic_trading_ecosy.Base.{ℕ, ◌≡◌, [], ◌∷◌, ok, arith}
use electronic_trading_ecosy.Exchange.Messages.{MeMarketUpdate, default_market_update}
use electronic_trading_ecosy.Exchange.MarketDataPublisher.{MarketDataPublisher, publish_updates}
use electronic_trading_ecosy.Exchange.MarketDataPublisher.Incremental.{HasSent, publish_updates_lem}

abbrev order : (order_id : ℕ) → MeMarketUpdate
order i = record default_market_update { order_id = i }

abbrev waiting : MarketDataPublisher
waiting = record {
  outgoing_md_updates = record {
    store = order;
    capacity = 4;
    next_write_index = 2;
    next_read_index = 0;
    store_size = 2;
  };
  next_inc_seq_num = 1;
  sent = [];
}

publish_updates_lem_example :
    (p : MarketDataPublisher) × (publish_updates 3 waiting ≡ ok p)
    × HasSent (order 0 ∷ order 1 ∷ []) waiting p
publish_updates_lem_example = publish_updates_lem waiting (omega arith) (omega arith) (omega arith)
