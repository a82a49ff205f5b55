-- ===== src/Exchange/OrderServer/Numbering.antt =====
-- The numbers of requests and responses. One array serves both directions.
use electronic_trading_ecosy.Base.{
  ℕ, ◌+◌, ◌%◌, ◌<◌, ◌≡◌, some, ok, ◌∷◌, ◌++◌, [], ◌∙◌, ap, arith, update_self,
}
use electronic_trading_ecosy.Common.Types.{u64_mod}
use electronic_trading_ecosy.Exchange.Messages.{MeClientResponse, OmClientRequest}
use electronic_trading_ecosy.Exchange.OrderServer.{
  OrderServer, seq_num, response, handle_request, send_response,
}
use electronic_trading_ecosy.Exchange.OrderServer.Requests.{Expects, handle_request-ignored}

-- A response to a client with a known socket.
send_response_lem :
    (r : MeClientResponse) (s : OrderServer) {s' : OrderServer} (socket : ℕ)
    → s.client_socket r.client_id ≡ some socket
    → send_response r s ≡ ok s'
    → (s'.sent socket
        ≡ s.sent socket ++ seq_num (s.outgoing_seq_num r.client_id) 8 ∷ response r 8 ∷ [])
      × (s'.outgoing_seq_num r.client_id ≡ (s.outgoing_seq_num r.client_id + 1) % u64_mod)
      × (s'.client_socket ≡ s.client_socket)
      × (s'.sequencer ≡ s.sequencer)
unfolding send_response
send_response_lem r s socket known e = ground (
  arith,
  update_self s.outgoing_seq_num r.client_id ((s.outgoing_seq_num r.client_id + 1) % u64_mod),
  update_self s.sent socket
      (s.sent socket ++ seq_num (s.outgoing_seq_num r.client_id) 8 ∷ response r 8 ∷ []),
)

-- Once a response has gone out to a client with a known socket, the handling of the request that
-- the server expected from the client before, if it goes through, drops it: its number is the
-- number of the response.
pub request_after_response :
    (r : MeClientResponse) (q : OmClientRequest) (s s' s'' : OrderServer) (socket rx_time : ℕ)
    → s.client_socket r.client_id ≡ some socket
    → s.outgoing_seq_num r.client_id < u64_mod
    → q.me_client_request.client_id ≡ r.client_id
    → Expects s socket q
    → send_response r s ≡ ok s'
    → handle_request socket rx_time q s' ≡ ok s''
    → (s''.sequencer ≡ s.sequencer) × (s''.outgoing_seq_num ≡ s'.outgoing_seq_num)
request_after_response r q s s' s'' socket rx_time known small same (_, num) sends handles =
    let (_, moved, _, kept) = send_response_lem r s socket known sends in
    let unexpected : ¬ Expects s' socket q = λ (_, again).
      ground (arith, moved, ap s'.outgoing_seq_num same, ap s.outgoing_seq_num same) in
    let (a, b) = handle_request-ignored socket rx_time q s' unexpected handles in (a ∙ kept, b)
