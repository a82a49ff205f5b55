-- ===== src/Exchange/System/Tests.antt =====
-- Two orders that cross, through the whole exchange, and the answers back to their clients.
use electronic_trading_ecosy.Base.{ℕ, zero, suc, refl, none, List, [], ◌∷◌, arith, All, update}
use electronic_trading_ecosy.Common.LfQueue
use electronic_trading_ecosy.Common.MemPool
use electronic_trading_ecosy.Common.Types.{Side, Limits}
use electronic_trading_ecosy.Common.Wire.{Wire}
use electronic_trading_ecosy.Exchange.Messages.{ClientRequestType, OmClientRequest}
use electronic_trading_ecosy.Exchange.OrderBook.{
  get_next_priority, send_market_update, send_client_response,
}
use electronic_trading_ecosy.Exchange.OrderBook.Levels.{add_orders_at_price}
use electronic_trading_ecosy.Exchange.OrderBook.Heads.{HeadsNull}
use electronic_trading_ecosy.Exchange.OrderBook.Orders.{
  add_order, place_order, add_order_new_level, record_order,
}
use electronic_trading_ecosy.Exchange.OrderBook.Requests.{add}
use electronic_trading_ecosy.Exchange.MatchingEngine.{new_engine, round, process_client_request}
use electronic_trading_ecosy.Exchange.Sequencer.{add_client_request, sequence_and_publish}
use electronic_trading_ecosy.Exchange.Sequencer.Tests.{by_insertion, insertion_sort, insert}
use electronic_trading_ecosy.Exchange.OrderServer.{
  handle_request, recv_loop, recv_callback, recv_finished_callback, send_response, new_server,
}
use electronic_trading_ecosy.Exchange.MarketDataPublisher.{publish_updates}
use electronic_trading_ecosy.Exchange.System.{
  System, new_system, receives, sequences, responds, processes, publishes, Steps, no_step,
  then_step,
}
use electronic_trading_ecosy.Exchange.System.Ends.{IsNoFill, IsNoTrade}
use electronic_trading_ecosy.Exchange.System.Unfilled.{Steps-new_system}

abbrev small : Limits
small = record { max_tickers = 2; max_num_clients = 2; max_order_ids = 8; max_price_levels = 8 }

abbrev order : Side → (client_id price : ℕ) → OmClientRequest
order side client_id price = record {
  seq_num = 1;
  me_client_request = record {
    request_type = ClientRequestType.new;
    client_id = client_id;
    ticker_id = 1;
    order_id = 3;
    price = price;
    qty = 10;
    side = side;
  };
}

-- the first byte says whose order it is
abbrev decode : List ℕ → OmClientRequest
decode [] = order Side.sell 0 5
decode (zero ∷ bytes) = order Side.sell 0 5
decode (suc _ ∷ bytes) = order Side.buy 1 7

abbrev wire : Wire OmClientRequest
wire = record { size_of = 1; positive = omega arith; decode = decode }

abbrev start : System
start = new_system small (λ t c i. none) (λ t i. none)

abbrev Ran : System → Type 0
Ran = Steps wire by_insertion start

received : (s : System) × Ran s
unfolding new_system new_server LfQueue.init new_engine recv_callback recv_loop handle_request
    add_client_request update
received = (_, then_step no_step (receives 6 100 (0 ∷ 1 ∷ []) [] _ refl))

sequenced : (s : System) × Ran s
unfolding received
sequenced = (_, then_step received.1 sequences)

first_processed : (s : System) × Ran s
unfolding sequenced received new_system new_server LfQueue.init new_engine recv_callback recv_loop
    handle_request add_client_request update round LfQueue.get_next_to_read recv_finished_callback
    sequence_and_publish insertion_sort insert LfQueue.write process_client_request add MemPool.init
    get_next_priority MemPool.allocate add_order place_order add_order_new_level add_orders_at_price
    record_order LfQueue.update_read_index
first_processed = (_, then_step sequenced.1 (processes _ refl))

second_processed : (s : System) × Ran s
unfolding first_processed sequenced received new_system new_server LfQueue.init new_engine
    recv_callback recv_loop handle_request add_client_request update round LfQueue.get_next_to_read
    recv_finished_callback sequence_and_publish insertion_sort insert LfQueue.write
    process_client_request add MemPool.init get_next_priority MemPool.allocate add_order place_order
    add_order_new_level add_orders_at_price record_order LfQueue.update_read_index
second_processed = (_, then_step first_processed.1 (processes _ refl))

first_answered : (s : System) × Ran s
unfolding second_processed first_processed sequenced received new_system new_server LfQueue.init
    new_engine recv_callback recv_loop handle_request add_client_request update round
    LfQueue.get_next_to_read recv_finished_callback sequence_and_publish insertion_sort insert
    LfQueue.write process_client_request add MemPool.init get_next_priority MemPool.allocate
    add_order place_order add_order_new_level add_orders_at_price record_order
    LfQueue.update_read_index LfQueue.size send_response send_market_update send_client_response
first_answered = (_, then_step second_processed.1 (responds _ _ refl (λ e. omega arith) refl))

updates_published : (s : System) × Ran s
unfolding first_answered second_processed first_processed sequenced received new_system new_server
    LfQueue.init new_engine recv_callback recv_loop handle_request add_client_request update round
    LfQueue.get_next_to_read recv_finished_callback sequence_and_publish insertion_sort insert
    LfQueue.write process_client_request add MemPool.init get_next_priority MemPool.allocate
    add_order place_order add_order_new_level add_orders_at_price record_order
    LfQueue.update_read_index LfQueue.size send_response send_market_update send_client_response
    publish_updates LfQueue.poll LfQueue.read
updates_published = (_, then_step first_answered.1 (publishes 3 _ refl))

Steps-new_system_example :
    ((socket : ℕ) → All IsNoFill (updates_published.0.server.sent socket))
    × All IsNoTrade updates_published.0.publisher.sent
    × ((t : ℕ) → HeadsNull (updates_published.0.engine.books t))
Steps-new_system_example =
    Steps-new_system wire by_insertion small (λ t c i. none) (λ t i. none) updates_published.1
