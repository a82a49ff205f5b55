-- ===== src/Exchange/OrderServer.antt =====
-- exchange/order_server/order_server.h and order_server.cpp: requests of the connected clients on
-- their way to the sequencer, and responses on their way back. Sockets are numbers; the bytes that a
-- socket has received are a list. Logging is left out.
pub mod Requests
mod Tests
pub mod Numbering
pub mod Delivery
use electronic_trading_ecosy.Base.{
  ℕ, zero, suc, ◌+◌, ◌-◌, ◌<◌, ◌%◌, Bool, true, false, not, Option, none, some, List, [], ◌∷◌, ◌++◌,
  Outcome, ok, fault, out_of_fuel, undefined, assert_failed, ◌>>=◌, ◌>>◌, assert, ltb, leb, ◌==◌,
  if◌then◌else◌, same_ptr, update, length, drop,
}
use electronic_trading_ecosy.Common.LfQueue
use electronic_trading_ecosy.Common.LfQueue.{LfQueue}
use electronic_trading_ecosy.Common.Types.{Limits, u64_mod}
use electronic_trading_ecosy.Common.Wire.{Wire}
use electronic_trading_ecosy.Exchange.Messages.{MeClientResponse, OmClientRequest}
use electronic_trading_ecosy.Exchange.Sequencer.{
  Sort, FifoSequencer, add_client_request, sequence_and_publish,
}

-- What `TCPSocket::send` was given: the value behind the pointer, and the number of bytes.
pub data Sent : Type 0 where
  seq_num : (value len : ℕ) → Sent
  response : (value : MeClientResponse) (len : ℕ) → Sent

pub record OrderServer : Type 0 where
  pub limits : Limits
  pub client_socket : ℕ → Option ℕ
  pub outgoing_seq_num : ℕ → ℕ
  pub incoming_seq_num : ℕ → ℕ
  pub sequencer : FifoSequencer
  pub client_responses : LfQueue MeClientResponse
  pub sent : ℕ → List Sent

unfoldable pub new_server : Limits → FifoSequencer → LfQueue MeClientResponse → OrderServer
new_server limits sequencer responses = record {
  limits = limits;
  client_socket = λ c. none;
  outgoing_seq_num = λ c. 1;
  incoming_seq_num = λ c. 1;
  sequencer = sequencer;
  client_responses = responses;
  sent = λ s. [];
}

-- `if (clientId_socket_[c] == nullptr) clientId_socket_[c] = socket;`
abbrev pub register : OrderServer → (client socket : ℕ) → OrderServer
register s client socket = elim (s.client_socket client) [
  | none ↦ record s { client_socket = update s.client_socket client (some socket) }
  | some other ↦ s
]

-- A round of the loop of `recvCallback`: a request from another socket than the client's first one,
-- or with another number than the expected one, is passed over. The arrays are not bounds-checked.
unfoldable pub handle_request :
    (socket rx_time : ℕ) → OmClientRequest → OrderServer → Outcome OrderServer
handle_request socket rx_time r s =
    let client = r.me_client_request.client_id in
    let s1 = register s client socket in
    let next_seq_num = s1.outgoing_seq_num client in
    if ltb client s.limits.max_num_clients
    then (if same_ptr (s1.client_socket client) (some socket)
        then (if r.seq_num == next_seq_num
            then (do
              sequencer ← add_client_request rx_time r.me_client_request s1.sequencer
              ok (record s1 {
                outgoing_seq_num = update s1.outgoing_seq_num client ((next_seq_num + 1) % u64_mod);
                sequencer = sequencer;
              }))
            else ok s1)
        else ok s1)
    else fault undefined

module _ (wire : Wire OmClientRequest) where
  -- the loop of `recvCallback`, with the number of bytes that it has read
  unfoldable pub recv_loop :
      (fuel socket rx_time : ℕ) → List ℕ → (i : ℕ) → OrderServer → Outcome (ℕ × OrderServer)
  recv_loop zero socket rx_time bytes i s = fault out_of_fuel
  recv_loop (suc fuel) socket rx_time bytes i s =
      let next =
        handle_request socket rx_time (wire.decode (drop i bytes)) s
        >>= recv_loop fuel socket rx_time bytes (i + wire.size_of) in
      if leb (i + wire.size_of) (length bytes) then next else ok (i, s)

  -- The server, and the bytes that stay in the socket's buffer.
  unfoldable pub recv_callback :
      (socket rx_time : ℕ) → List ℕ → OrderServer → Outcome (List ℕ × OrderServer)
  unfolding recv_loop
  recv_callback socket rx_time bytes s =
      if leb wire.size_of (length bytes)
      then (do
        (i, s') ← recv_loop (length bytes + 1) socket rx_time bytes 0 s
        ok (drop i bytes, s'))
      else ok (bytes, s)

unfoldable pub recv_finished_callback : Sort → OrderServer → OrderServer
recv_finished_callback std s = record s { sequencer = sequence_and_publish std s.sequencer }

-- `sizeof(next_out_seq_num)` and `sizeof(client_response)`, which is the size of a pointer.
abbrev pub size_of_seq_num : ℕ
size_of_seq_num = 8

abbrev pub size_of_pointer : ℕ
size_of_pointer = 8

-- `sizeof(MEClientResponse)`, packed
abbrev pub size_of_response : ℕ
size_of_response = 42

-- A round of the loop in `run` that sends the responses.
unfoldable pub send_response : MeClientResponse → OrderServer → Outcome OrderServer
send_response r s =
    if ltb r.client_id s.limits.max_num_clients
    then (elim (s.client_socket r.client_id) [
      | none ↦ fault assert_failed
      | some socket ↦ do
        responses ← LfQueue.update_read_index s.client_responses
        ok (record s {
          sent = update s.sent socket (
              s.sent socket
              ++ seq_num (s.outgoing_seq_num r.client_id) size_of_seq_num
                ∷ response r size_of_pointer
                ∷ []);
          client_responses = responses;
          outgoing_seq_num =
              update s.outgoing_seq_num r.client_id
                ((s.outgoing_seq_num r.client_id + 1) % u64_mod);
        })
    ])
    else fault undefined

-- The loop, as long as the queue has a response to read.
unfoldable pub send_responses : ℕ → OrderServer → Outcome OrderServer
send_responses zero s = fault out_of_fuel
send_responses (suc fuel) s = elim (LfQueue.get_next_to_read s.client_responses) [
  | none ↦ ok s
  | some r ↦
      if LfQueue.size s.client_responses == 0
      then ok s
      else send_response r s >>= send_responses fuel
]
