-- ===== src/Exchange/OrderServer/Tests.antt =====
-- The theorems about the server with two clients.
use electronic_trading_ecosy.Base.{
  ℕ, ◌<◌, ◌≡◌, ◌≢◌, inl, inr, refl, none, some, List, [], ◌∷◌, ok, fault, out_of_fuel, arith,
  update, length,
}
use electronic_trading_ecosy.Common.LfQueue
use electronic_trading_ecosy.Common.Types.{Side}
use electronic_trading_ecosy.Common.Wire.{Wire}
use electronic_trading_ecosy.Exchange.Messages.{
  ClientRequestType, MeClientRequest, OmClientRequest, ClientResponseType, MeClientResponse,
}
use electronic_trading_ecosy.Exchange.Sequencer.{add_client_request}
use electronic_trading_ecosy.Exchange.OrderServer.{
  OrderServer, seq_num, response, new_server, handle_request, recv_callback, send_response,
  send_responses,
}
use electronic_trading_ecosy.Exchange.OrderServer.Requests.{
  handle_request-Expects, handle_request-ignored, recv_callback-rest,
}
use electronic_trading_ecosy.Exchange.OrderServer.Numbering.{request_after_response}
use electronic_trading_ecosy.Exchange.OrderServer.Delivery.{HasDelivered, send_responses_lem}
use electronic_trading_ecosy.Common.LfQueue.Fifo.{IsValid}

abbrev order : (client_id : ℕ) → MeClientRequest
order client_id = record {
  request_type = ClientRequestType.new;
  client_id = client_id;
  ticker_id = 1;
  order_id = 3;
  price = 5;
  qty = 10;
  side = Side.buy;
}

abbrev answer : MeClientResponse
answer = record {
  type = ClientResponseType.accepted;
  client_id = 1;
  ticker_id = 1;
  client_order_id = 3;
  market_order_id = 1;
  side = Side.buy;
  price = 5;
  exec_qty = 0;
  left_qty = 10;
}

abbrev start : OrderServer
start =
    new_server
      (record { max_tickers = 2; max_num_clients = 2; max_order_ids = 8; max_price_levels = 8 })
      (record { incoming_requests = LfQueue.init 4 (order 0); pending = []; capacity = 8 })
      (LfQueue.init 4 answer)

abbrev message : (seq_num client_id : ℕ) → OmClientRequest
message n c = record { seq_num = n; me_client_request = order c }

-- The server takes the first request of client 1 from socket 6, and then has one request pending.
first_request : (s : OrderServer) × (handle_request 6 100 (message 1 1) start ≡ ok s)
unfolding handle_request new_server add_client_request update
first_request = (_, refl)

handle_request-Expects_example :
    (first_request.0.sequencer.pending ≡ record { recv_time = 100; request = order 1 } ∷ [])
    × (first_request.0.outgoing_seq_num ≡ update (λ c. 1) 1 2)
    × (first_request.0.client_socket 1 ≡ some 6)
unfolding new_server
handle_request-Expects_example =
    handle_request-Expects 6 100 (message 1 1) start {s' = first_request.0} (inl refl, refl)
      first_request.1

-- A request with another number than the expected one.
skipped_request : (s : OrderServer) × (handle_request 6 100 (message 5 1) start ≡ ok s)
unfolding handle_request new_server add_client_request update
skipped_request = (_, refl)

handle_request-ignored_example :
    (skipped_request.0.sequencer ≡ start.sequencer)
    × (skipped_request.0.outgoing_seq_num ≡ start.outgoing_seq_num)
unfolding new_server
handle_request-ignored_example =
    handle_request-ignored 6 100 (message 5 1) start {s' = skipped_request.0}
      (λ (_, n). omega (arith, n)) skipped_request.1

-- requests of two bytes, the number and the client
abbrev two_bytes : Wire OmClientRequest
two_bytes = record {
  size_of = 2;
  positive = omega arith;
  decode = λ bytes. elim bytes [ n ∷ c ∷ rest ↦ message n c | _ ↦ message 0 0 ];
}

recv_callback-rest_example :
    (recv_callback two_bytes 6 100 (1 ∷ 1 ∷ 2 ∷ []) start ≢ fault out_of_fuel)
    × ((rest : List ℕ) (s' : OrderServer)
        → recv_callback two_bytes 6 100 (1 ∷ 1 ∷ 2 ∷ []) start ≡ ok (rest, s')
        → length rest < 2)
recv_callback-rest_example = recv_callback-rest two_bytes 6 100 (1 ∷ 1 ∷ 2 ∷ []) start

-- client 1 is known by socket 6, and a response to it waits
abbrev serving : OrderServer
serving = record start {
  client_socket = update (λ c. none) 1 (some 6);
  client_responses = LfQueue.write (LfQueue.init 4 answer) answer;
}

-- the server after that response
abbrev served : OrderServer
served = record serving {
  sent = update (λ s. []) 6 (seq_num 1 8 ∷ response answer 8 ∷ []);
  client_responses = record serving.client_responses { next_read_index = 1; store_size = 0 };
  outgoing_seq_num = update (λ c. 1) 1 2;
}

serving_sends : send_response answer serving ≡ ok served
unfolding send_response new_server LfQueue.write LfQueue.init LfQueue.update_read_index update
serving_sends = refl

serving-IsValid : IsValid serving.client_responses
unfolding LfQueue.init LfQueue.write
serving-IsValid = record {
  addressable = omega arith;
  read_in = omega arith;
  write_in = omega arith;
  fits = omega arith;
  apart = inl (omega arith);
}

send_responses_lem_example :
    (s' : OrderServer) × (send_responses 2 serving ≡ ok s')
    × HasDelivered serving.outgoing_seq_num [] (answer ∷ []) serving s'
unfolding new_server LfQueue.init LfQueue.write update
send_responses_lem_example =
    send_responses_lem serving serving-IsValid (omega arith) ((omega arith, 6, refl), tt)
      (λ c. omega arith)

-- The client's first request is no longer the expected one.
served_drops : handle_request 6 100 (message 1 1) served ≡ ok served
unfolding handle_request new_server update
served_drops = refl

request_after_response_example :
    (served.sequencer ≡ serving.sequencer) × (served.outgoing_seq_num ≡ served.outgoing_seq_num)
unfolding new_server update
request_after_response_example =
    request_after_response answer (message 1 1) serving served served 6 100 refl (omega arith) refl
      (inr refl, refl) serving_sends served_drops
