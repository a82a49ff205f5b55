-- ===== src/Exchange/MatchingEngine/Tests.antt =====
-- The theorems about the engine at an exchange of two tickers.
use electronic_trading_ecosy.Base.{ℕ, ◌≡◌, refl, none, List, [], ◌∷◌, ok, update, arith}
use electronic_trading_ecosy.Common.LfQueue
use electronic_trading_ecosy.Common.MemPool
use electronic_trading_ecosy.Common.Types.{Side, Limits}
use electronic_trading_ecosy.Exchange.Messages.{
  ClientRequestType, MeClientRequest, MeClientResponse, ClientResponseType, default_market_update,
}
use electronic_trading_ecosy.Exchange.OrderBook.{Book, Outgoing, get_next_priority}
use electronic_trading_ecosy.Exchange.OrderBook.Requests.{add, rest_order}
use electronic_trading_ecosy.Exchange.OrderBook.Levels.{add_orders_at_price}
use electronic_trading_ecosy.Exchange.OrderBook.Orders.{
  add_order, place_order, add_order_new_level, record_order,
}
use electronic_trading_ecosy.Exchange.MatchingEngine.{
  Engine, new_book, new_engine, round, process_client_request, Event, request, turn, run,
}
use electronic_trading_ecosy.Exchange.OrderBook.Entering.{Entered, add-Entered}

abbrev small : Limits
small = record { max_tickers = 2; max_num_clients = 2; max_order_ids = 8; max_price_levels = 8 }

-- what the queues' slots hold before the first write
abbrev blank_response : MeClientResponse
blank_response = record {
  type = ClientResponseType.invalid;
  client_id = 0;
  ticker_id = 0;
  client_order_id = 0;
  market_order_id = 0;
  side = Side.invalid;
  price = 0;
  exec_qty = 0;
  left_qty = 0;
}

abbrev order : (client_id order_id price : ℕ) → Side → MeClientRequest
order client_id order_id price side = record {
  request_type = ClientRequestType.new;
  client_id = client_id;
  ticker_id = 1;
  order_id = order_id;
  price = price;
  qty = 10;
  side = side;
}

abbrev queues : Outgoing
queues = record {
  responses = LfQueue.init 8 blank_response;
  updates = LfQueue.init 8 default_market_update;
}

abbrev start : Engine
start =
    new_engine small (λ t c i. none) (λ t i. none) (LfQueue.init 8 (order 0 0 0 Side.buy)) queues

-- a SELL at 5 and a BUY at 7, which would cross
abbrev crossing : List Event
crossing = request (order 0 3 5 Side.sell) ∷ turn ∷ request (order 1 4 7 Side.buy) ∷ turn ∷ []

-- The run with the two orders goes through.
crossing_runs : (m : Engine) × (run start crossing ≡ ok m)
unfolding run new_engine round LfQueue.get_next_to_read LfQueue.write LfQueue.init
    process_client_request update add MemPool.init get_next_priority MemPool.allocate add_order
    place_order add_order_new_level add_orders_at_price record_order LfQueue.update_read_index
crossing_runs = (_, refl)

abbrev empty_book : Book
empty_book = new_book small 1 (λ c i. none) (λ i. none)

first_order : (r : Book × Outgoing) × (add 0 3 1 Side.buy 5 10 empty_book queues ≡ ok r)
unfolding add rest_order new_book update MemPool.init get_next_priority MemPool.allocate add_order
    place_order add_order_new_level add_orders_at_price record_order
first_order = (_, refl)

add-Entered_example : Entered 0 3 1 Side.buy 5 10 empty_book queues first_order.0.0 first_order.0.1
unfolding new_book
add-Entered_example =
    add-Entered 0 3 1 Side.buy 5 10 empty_book queues {r = first_order.0}
      (record { bids = refl; asks = refl }) (omega arith) first_order.1
