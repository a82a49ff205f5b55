-- ===== src/Exchange/OrderBook/Tests.antt =====
-- The theorems about matches and cancellations in a book with one order.
use electronic_trading_ecosy.Base.{
  ℕ, ◌≡◌, refl, true, false, none, some, [], ◌∷◌, ok, arith, update,
}
use electronic_trading_ecosy.Common.LfQueue
use electronic_trading_ecosy.Common.LfQueue.Fifo.{IsValid, contents}
use electronic_trading_ecosy.Common.MemPool
use electronic_trading_ecosy.Common.Types.{Side}
use electronic_trading_ecosy.Exchange.Messages.{
  ClientResponseType, MeClientResponse, default_market_update,
}
use electronic_trading_ecosy.Exchange.OrderBook.{Book, Order, Outgoing}
use electronic_trading_ecosy.Exchange.OrderBook.Levels.{remove_price_level}
use electronic_trading_ecosy.Exchange.OrderBook.Orders.{remove_order, detach_order, record_order}
use electronic_trading_ecosy.Exchange.OrderBook.Matching.{
  Incoming, filled_response, as_incoming, match,
}
use electronic_trading_ecosy.Exchange.OrderBook.Requests.{
  cancel, cancelled_order, canceled_response,
}
use electronic_trading_ecosy.Exchange.OrderBook.Answers.{match_lem, cancel_lem}
use electronic_trading_ecosy.Exchange.OrderBook.Removal.{cancel-removes}

abbrev blank_response : MeClientResponse
blank_response = record {
  type = ClientResponseType.invalid;
  client_id = 0;
  ticker_id = 0;
  client_order_id = 0;
  market_order_id = 0;
  side = Side.invalid;
  price = 0;
  exec_qty = 0;
  left_qty = 0;
}

abbrev queues : Outgoing
queues = record {
  responses = LfQueue.init 8 blank_response;
  updates = LfQueue.init 8 default_market_update;
}

queues-IsValid : IsValid queues.responses
unfolding LfQueue.init
queues-IsValid = omega arith

-- client 0 sells 10 at 5 under its identifier 3, in block 0
abbrev resting : Order
resting = record {
  ticker_id = 1;
  client_id = 0;
  client_order_id = 3;
  market_order_id = 1;
  side = Side.sell;
  price = 5;
  qty = 10;
  priority = 1;
  prev_order = some 0;
  next_order = some 0;
}

abbrev one_order : Book
one_order = record {
  limits = record { max_tickers = 2; max_num_clients = 2; max_order_ids = 8; max_price_levels = 8 };
  ticker_id = 1;
  client_orders = update (λ c i. none) 0 (update (λ i. none) 3 (some 0));
  bid_levels_head = none;
  ask_levels_head = none;
  price_levels = update (λ i. none) 5 (some 0);
  price_levels_pool = record {
    object = λ b. record {
      side = Side.sell;
      price = 5;
      first_order = some 0;
      prev_price_level = some 0;
      next_price_level = some 0;
    };
    is_free = update (λ b. true) 0 false;
    size = 8;
    next_free_index = 1;
  };
  order_pool = record {
    object = λ b. resting;
    is_free = update (λ b. true) 0 false;
    size = 8;
    next_free_index = 1;
  };
  next_market_order_id = 2;
}

abbrev buyer : Incoming
buyer = record {
  client_id = 1;
  client_order_id = 4;
  ticker_id = 1;
  side = Side.buy;
  price = 7;
  market_order_id = 2;
}

-- The buyer of 4 takes them from the resting order.
four_matched : (r : ℕ × Book × Outgoing) × (match buyer 0 4 one_order queues ≡ ok r)
unfolding match
four_matched = (_, refl)

match_lem_example :
    (four_matched.0.0 ≡ 0)
    × (contents four_matched.0.2.responses
        ≡ filled_response buyer 5 4 0 ∷ filled_response (as_incoming resting) 5 4 6 ∷ [])
unfolding LfQueue.init
match_lem_example =
    match_lem buyer 0 4 one_order queues {r = four_matched.0} queues-IsValid (omega arith)
      four_matched.1

-- The order's client cancels it.
order_cancelled : (r : Book × Outgoing) × (cancel 0 3 1 one_order queues ≡ ok r)
unfolding cancel update cancelled_order remove_order detach_order remove_price_level
    MemPool.deallocate record_order
order_cancelled = (_, refl)

cancel_lem_example : contents order_cancelled.0.1.responses ≡ canceled_response 0 3 1 resting ∷ []
unfolding LfQueue.init update
cancel_lem_example =
    cancel_lem 0 3 1 one_order queues {r = order_cancelled.0} queues-IsValid (omega arith)
      (omega arith) order_cancelled.1

cancel-removes_example :
    (order_cancelled.0.0.client_orders 0 3 ≡ none)
    × (order_cancelled.0.0.order_pool.is_free 0 ≡ true)
unfolding update
cancel-removes_example =
    cancel-removes 0 3 1 0 one_order queues {r = order_cancelled.0} (omega arith) refl refl refl
      order_cancelled.1
