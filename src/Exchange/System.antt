-- ===== src/Exchange/System.antt =====
-- exchange_main.cpp: the exchange put together from its parts, which share three queues, and the steps
-- of its threads. The engine holds the queues; the other parts see them as they are at their step. The
-- start of the threads, the wait and the signal handler are left out.
pub mod Queues
pub mod Ends
pub mod Unfilled
mod Tests
use electronic_trading_ecosy.Base.{ℕ, ◌*◌, ◌≡◌, ◌≢◌, Option, some, List, [], Outcome, ok}
use electronic_trading_ecosy.Common.LfQueue
use electronic_trading_ecosy.Common.LfQueue.{LfQueue}
use electronic_trading_ecosy.Common.Types.{
  Side, Limits, order_id_invalid, ticker_id_invalid, client_id_invalid, price_invalid, qty_invalid,
}
use electronic_trading_ecosy.Common.Wire.{Wire}
use electronic_trading_ecosy.Exchange.Messages.{
  ClientRequestType, MeClientRequest, OmClientRequest, ClientResponseType, MeClientResponse,
  default_market_update,
}
use electronic_trading_ecosy.Exchange.MatchingEngine
use electronic_trading_ecosy.Exchange.MatchingEngine.{Engine}
use electronic_trading_ecosy.Exchange.Sequencer.{Sort, max_pending_requests}
use electronic_trading_ecosy.Exchange.OrderServer
use electronic_trading_ecosy.Exchange.OrderServer.{
  OrderServer, recv_callback, recv_finished_callback, send_response,
}
use electronic_trading_ecosy.Exchange.MarketDataPublisher.{MarketDataPublisher, publish_updates}

abbrev pub max_client_updates : ℕ
max_client_updates = 256 * 1024

abbrev pub max_market_updates : ℕ
max_market_updates = 256 * 1024

-- what fills the queues' vectors
abbrev pub default_request : MeClientRequest
default_request = record {
  request_type = ClientRequestType.invalid;
  client_id = client_id_invalid;
  ticker_id = ticker_id_invalid;
  order_id = order_id_invalid;
  price = price_invalid;
  qty = qty_invalid;
  side = Side.invalid;
}

abbrev pub default_response : MeClientResponse
default_response = record {
  type = ClientResponseType.invalid;
  client_id = client_id_invalid;
  ticker_id = ticker_id_invalid;
  client_order_id = order_id_invalid;
  market_order_id = order_id_invalid;
  side = Side.invalid;
  price = price_invalid;
  exec_qty = qty_invalid;
  left_qty = qty_invalid;
}

pub record System : Type 0 where
  pub engine : Engine
  pub server : OrderServer
  pub publisher : MarketDataPublisher

-- `main`, up to the starts; `clients` and `levels` are what the memory of the books' arrays holds.
unfoldable pub new_system :
    Limits → (clients : ℕ → ℕ → ℕ → Option ℕ) (levels : ℕ → ℕ → Option ℕ) → System
unfolding LfQueue.init MatchingEngine.new_engine OrderServer.new_server
new_system limits clients levels =
    let client_requests = LfQueue.init max_client_updates default_request in
    let client_responses = LfQueue.init max_client_updates default_response in
    let market_updates = LfQueue.init max_market_updates default_market_update in
    record {
      engine =
          MatchingEngine.new_engine limits clients levels client_requests
            (record { responses = client_responses; updates = market_updates });
      server =
          OrderServer.new_server limits
            (record {
              incoming_requests = client_requests;
              pending = [];
              capacity = max_pending_requests;
            })
            client_responses;
      publisher = record { outgoing_md_updates = market_updates; next_inc_seq_num = 1; sent = [] };
    }

-- the server, with the queues as they are
abbrev pub server_view : System → OrderServer
server_view s = record (s.server) {
  sequencer = record (s.server.sequencer) { incoming_requests = s.engine.incoming_requests };
  client_responses = s.engine.outgoing.responses;
}

abbrev pub publisher_view : System → MarketDataPublisher
publisher_view s = record (s.publisher) { outgoing_md_updates = s.engine.outgoing.updates }

-- the system after a step of the server, which may have changed two of the queues
abbrev pub with_server : System → OrderServer → System
with_server s server = record s {
  engine = record (s.engine) {
    incoming_requests = server.sequencer.incoming_requests;
    outgoing = record (s.engine.outgoing) { responses = server.client_responses };
  };
  server = server;
}

abbrev pub with_publisher : System → MarketDataPublisher → System
with_publisher s publisher = record s {
  engine = record (s.engine) {
    outgoing = record (s.engine.outgoing) { updates = publisher.outgoing_md_updates };
  };
  publisher = publisher;
}

-- A step of one of the threads that goes through: the order server takes what a socket has received,
-- writes the sequenced requests, or sends the next response; the engine does a round; the publisher
-- sends the updates that are there.
pub data Step (wire : Wire OmClientRequest) (std : Sort) (s : System) : System → Type 0 where
  receives :
      (socket rx_time : ℕ) (bytes rest : List ℕ) (server : OrderServer)
      → recv_callback wire socket rx_time bytes (server_view s) ≡ ok (rest, server)
      → Step wire std s (with_server s server)
  sequences : Step wire std s (with_server s (recv_finished_callback std (server_view s)))
  responds :
      (r : MeClientResponse) (server : OrderServer)
      → LfQueue.get_next_to_read s.engine.outgoing.responses ≡ some r
      → LfQueue.size s.engine.outgoing.responses ≢ 0
      → send_response r (server_view s) ≡ ok server
      → Step wire std s (with_server s server)
  processes :
      (engine : Engine)
      → MatchingEngine.round s.engine ≡ ok engine
      → Step wire std s (record s { engine = engine })
  publishes :
      (fuel : ℕ) (publisher : MarketDataPublisher)
      → publish_updates fuel (publisher_view s) ≡ ok publisher
      → Step wire std s (with_publisher s publisher)

-- any number of steps, of the threads in any order
pub data Steps (wire : Wire OmClientRequest) (std : Sort) (start : System) : System → Type 0 where
  no_step : Steps wire std start start
  then_step :
      {s s' : System} → Steps wire std start s → Step wire std s s' → Steps wire std start s'
