-- ===== src/Trading/OrderGateway/Tests.antt =====
-- The theorems about the gateway of client 1.
use electronic_trading_ecosy.Base.{ℕ, ◌≡◌, [], ◌∷◌, ok, fault, out_of_fuel, arith}
use electronic_trading_ecosy.Common.LfQueue
use electronic_trading_ecosy.Common.LfQueue.Fifo.{contents}
use electronic_trading_ecosy.Common.Types.{Side}
use electronic_trading_ecosy.Common.Wire.{Wire}
use electronic_trading_ecosy.Exchange.Messages.{
  ClientRequestType, MeClientRequest, ClientResponseType, MeClientResponse, OmClientResponse,
}
use electronic_trading_ecosy.Trading.OrderGateway.{OrderGateway, recv_callback, send_requests}
use electronic_trading_ecosy.Trading.OrderGateway.Receiving.{recv_callback-endless}
use electronic_trading_ecosy.Trading.OrderGateway.Sending.{numbered, send_requests_lem}

abbrev order : (order_id : ℕ) → MeClientRequest
order i = record {
  request_type = ClientRequestType.new;
  client_id = 1;
  ticker_id = 1;
  order_id = i;
  price = 5;
  qty = 10;
  side = Side.buy;
}

abbrev answer : MeClientResponse
answer = record {
  type = ClientResponseType.accepted;
  client_id = 1;
  ticker_id = 1;
  client_order_id = 3;
  market_order_id = 1;
  side = Side.buy;
  price = 5;
  exec_qty = 0;
  left_qty = 10;
}

-- two requests wait to be sent
abbrev waiting : OrderGateway
waiting = record {
  client_id = 1;
  outgoing_requests = record {
    store = order;
    capacity = 4;
    next_write_index = 2;
    next_read_index = 0;
    store_size = 2;
  };
  incoming_responses = LfQueue.init 4 answer;
  next_outgoing_seq_num = 1;
  next_exp_response_seq_num = 1;
  sent = [];
}

send_requests_lem_example :
    (g : OrderGateway) × (send_requests 3 waiting ≡ ok g)
    × (g.sent ≡ (1, order 0) ∷ (2, order 1) ∷ [])
    × (g.next_outgoing_seq_num ≡ 3)
    × (contents g.outgoing_requests ≡ [])
unfolding numbered
send_requests_lem_example = send_requests_lem waiting (omega arith) (omega arith) (omega arith)

abbrev first_response : OmClientResponse
first_response = record { seq_num = 1; me_client_response = answer }

-- responses of one byte, their number
abbrev one_byte : Wire OmClientResponse
one_byte = record {
  size_of = 1;
  positive = omega arith;
  decode = λ bytes. elim bytes [
    | n ∷ rest ↦ record { seq_num = n; me_client_response = answer }
    | _ ↦ first_response
  ];
}

recv_callback-endless_example : recv_callback one_byte 50 (1 ∷ []) waiting ≡ fault out_of_fuel
recv_callback-endless_example = recv_callback-endless one_byte (1 ∷ []) 50 waiting (omega arith)
