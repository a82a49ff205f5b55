-- ===== src/Trading/OrderGateway.antt =====
-- trading_system/order_gw/order_gateway.h and order_gateway.cpp: the client's end of the connection.
-- Logging is left out.
pub mod Receiving
pub mod Sending
mod Tests
use electronic_trading_ecosy.Base.{
  ℕ, zero, suc, ◌+◌, ◌%◌, Bool, true, false, Option, none, some, List, [], ◌∷◌, ◌++◌, Outcome, ok,
  fault, out_of_fuel, ◌>>=◌, ◌>>◌, leb, ◌==◌, if◌then◌else◌, length, drop,
}
use electronic_trading_ecosy.Common.LfQueue
use electronic_trading_ecosy.Common.LfQueue.{LfQueue}
use electronic_trading_ecosy.Common.Types.{u64_mod}
use electronic_trading_ecosy.Common.Wire.{Wire}
use electronic_trading_ecosy.Exchange.Messages.{MeClientRequest, MeClientResponse, OmClientResponse}

-- `sent` is what `send` was given: the number, and the request behind it, each whole.
pub record OrderGateway : Type 0 where
  pub client_id : ℕ
  pub outgoing_requests : LfQueue MeClientRequest
  pub incoming_responses : LfQueue MeClientResponse
  pub next_outgoing_seq_num : ℕ
  pub next_exp_response_seq_num : ℕ
  pub sent : List (ℕ × MeClientRequest)

-- The body of the loop of `recvCallback`.
unfoldable pub handle_response : OmClientResponse → OrderGateway → OrderGateway
handle_response r g =
    if r.me_client_response.client_id == g.client_id
    then (if r.seq_num == g.next_exp_response_seq_num
        then record g {
          next_exp_response_seq_num = (g.next_exp_response_seq_num + 1) % u64_mod;
          incoming_responses = LfQueue.write g.incoming_responses r.me_client_response;
        }
        else g)
    else g

module _ (wire : Wire OmClientResponse) where
  -- The loop. Its last part is `i + sizeof(…)`, which does not change `i`.
  unfoldable pub recv_loop :
      (fuel : ℕ) → List ℕ → (i : ℕ) → OrderGateway → Outcome (ℕ × OrderGateway)
  recv_loop zero bytes i g = fault out_of_fuel
  recv_loop (suc fuel) bytes i g =
      let next = recv_loop fuel bytes i (handle_response (wire.decode (drop i bytes)) g) in
      if leb (i + wire.size_of) (length bytes) then next else ok (i, g)

  -- The gateway, and the bytes that stay in the buffer.
  unfoldable pub recv_callback :
      (fuel : ℕ) → List ℕ → OrderGateway → Outcome (List ℕ × OrderGateway)
  unfolding recv_loop
  recv_callback fuel bytes g =
      if leb wire.size_of (length bytes)
      then (do (i, g') ← recv_loop fuel bytes 0 g; ok (drop i bytes, g'))
      else ok (bytes, g)

-- The loop of `run` that sends the requests on the queue.
unfoldable pub send_requests : (fuel : ℕ) → OrderGateway → Outcome OrderGateway
send_requests zero g = fault out_of_fuel
send_requests (suc fuel) g = do
  (next, requests) ← LfQueue.read g.outgoing_requests
  elim next [
    | none ↦ ok g
    | some r ↦ send_requests fuel (record g {
      sent = g.sent ++ (g.next_outgoing_seq_num, r) ∷ [];
      outgoing_requests = requests;
      next_outgoing_seq_num = (g.next_outgoing_seq_num + 1) % u64_mod;
    })
  ]
