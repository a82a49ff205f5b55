-- ===== src/Exchange/OrderBook/Priority/Tests.antt =====
-- A level with two orders; a third is put behind them, or the first leaves.
use electronic_trading_ecosy.Base.{
  ℕ, zero, suc, ◌≡◌, ◌≢◌, refl, true, false, leb, update, arith, none, some, [], ◌∷◌, ok,
}
use electronic_trading_ecosy.Common.Types.{Side}
use electronic_trading_ecosy.Exchange.OrderBook.{
  Book, Order, Outgoing, order_at, send_market_update, get_price_level,
}
use electronic_trading_ecosy.Exchange.OrderBook.Orders.{remove_order}
use electronic_trading_ecosy.Exchange.OrderBook.Priority.{terms, Holds, HoldsAll, SameTerms}
use electronic_trading_ecosy.Exchange.OrderBook.Priority.Leaving.{remove_order-HoldsAll}
use electronic_trading_ecosy.Exchange.OrderBook.Priority.Resting.{InTurn, rest_order-InTurn}
use electronic_trading_ecosy.Exchange.OrderBook.Requests.{resting_order, rest_order}
use electronic_trading_ecosy.Exchange.OrderBook.Matching.{Incoming, update_of}
use electronic_trading_ecosy.Exchange.Messages.{
  MarketUpdateType, ClientResponseType, default_market_update,
}
use electronic_trading_ecosy.Common.LfQueue
use electronic_trading_ecosy.Common.MemPool
use electronic_trading_ecosy.Common.MemPool.{MemPool}

abbrev buy : (priority prev next : ℕ) → Order
buy priority prev next = record {
  ticker_id = 1;
  client_id = 0;
  client_order_id = priority;
  market_order_id = priority;
  side = Side.buy;
  price = 5;
  qty = 10;
  priority = priority;
  prev_order = some prev;
  next_order = some next;
}

-- blocks 0 and 1 are the level's, and block 2 is the new order's
abbrev blocks : ℕ → Order
blocks zero = buy 1 1 1
blocks (suc zero) = buy 2 0 0
blocks (suc (suc _)) = record (buy 3 0 0) { prev_order = none; next_order = none }

abbrev two_orders : Book
two_orders = record {
  limits = record { max_tickers = 2; max_num_clients = 2; max_order_ids = 8; max_price_levels = 8 };
  ticker_id = 1;
  client_orders = λ c i. none;
  bid_levels_head = none;
  ask_levels_head = none;
  price_levels = λ i. some 0;
  price_levels_pool = record {
    object = λ b. record {
      side = Side.buy;
      price = 5;
      first_order = some 0;
      prev_price_level = some 0;
      next_price_level = some 0;
    };
    is_free = λ b. false;
    size = 8;
    next_free_index = 1;
  };
  order_pool = record { object = blocks; is_free = λ b. leb 2 b; size = 8; next_free_index = 2 };
  next_market_order_id = 4;
}

two_orders-Holds : Holds two_orders 0 0 (1 ∷ [])
two_orders-Holds = record {
  first_order = refl;
  ring = ((refl, refl, (refl, refl)), (refl, (refl, tt)));
}

abbrev incoming : Incoming
incoming = record {
  client_id = 1;
  client_order_id = 7;
  ticker_id = 1;
  side = Side.buy;
  price = 5;
  market_order_id = 3;
}

abbrev nothing_sent : Outgoing
nothing_sent = record {
  responses = LfQueue.init 4 (record {
    type = ClientResponseType.invalid;
    client_id = 0;
    ticker_id = 0;
    client_order_id = 0;
    market_order_id = 0;
    side = Side.invalid;
    price = 0;
    exec_qty = 0;
    left_qty = 0;
  });
  updates = LfQueue.init 4 default_market_update;
}

allocated :
    (q : ℕ × MemPool Order) × (MemPool.allocate two_orders.order_pool (resting_order incoming 10 3)
      ≡ ok q)
unfolding MemPool.allocate MemPool.search_free MemPool.update_next_free_index update
allocated = (_, refl)

two_orders-InTurn : InTurn two_orders 0 0 (1 ∷ [])
two_orders-InTurn = record {
  holds = two_orders-Holds;
  in_use = λ k there. ground (arith, there);
  rising = (omega arith, tt);
}

rest_order-InTurn_example :
    (b' : Book) × (rest_order incoming 10 two_orders nothing_sent
      ≡ ok (
        b',
        send_market_update (update_of MarketUpdateType.add 3 1 Side.buy 5 10 3) nothing_sent,
      ))
    × InTurn b' 0 0 (1 ∷ allocated.0.0 ∷ [])
    × (b'.client_orders 1 7 ≡ some allocated.0.0)
    × (terms (order_at b' allocated.0.0) ≡ resting_order incoming 10 3)
    × ((k : ℕ) → k ≢ allocated.0.0 → terms (order_at b' k) ≡ terms (order_at two_orders k))
unfolding get_price_level
rest_order-InTurn_example =
    rest_order-InTurn incoming 10 two_orders nothing_sent 0 0 (1 ∷ []) allocated.0.0 allocated.0.1
      two_orders-InTurn refl (omega arith) (omega arith) (omega arith) allocated.1

remove_order-HoldsAll_example :
    (b' : Book) × (remove_order two_orders 0 ≡ ok b')
    × HoldsAll b' 0 (1 ∷ [])
    × (b'.client_orders 0 1 ≡ none)
    × (b'.order_pool.is_free 0 ≡ true)
    × SameTerms two_orders b'
unfolding get_price_level
remove_order-HoldsAll_example =
    remove_order-HoldsAll two_orders 0 [] 0 (1 ∷ []) two_orders-Holds (λ e. cc) refl (omega arith)
      (omega arith) (omega arith) refl
