-- ===== src/Trading/OrderGateway/Receiving.antt =====
-- What becomes of the responses that the gateway receives.
use electronic_trading_ecosy.Base.{
  ℕ, zero, suc, ◌≤◌, ◌<◌, ◌≡◌, refl, ◌∙◌, List, fault, out_of_fuel, arith, length,
}
use electronic_trading_ecosy.Common.Types.{u64_mod}
use electronic_trading_ecosy.Common.Wire.{Wire}
use electronic_trading_ecosy.Exchange.Messages.{OmClientResponse}
use electronic_trading_ecosy.Trading.OrderGateway.{
  OrderGateway, handle_response, recv_loop, recv_callback,
}

-- the gateway after `n` rounds of the loop over one response
unfoldable pub rounds : ℕ → OmClientResponse → OrderGateway → OrderGateway
rounds zero r g = g
rounds (suc n) r g = rounds n r (handle_response r g)

handle_response-twice :
    (r : OmClientResponse) (g : OrderGateway)
    → g.next_exp_response_seq_num < u64_mod
    → handle_response r (handle_response r g) ≡ handle_response r g
unfolding handle_response
handle_response-twice r g h = ground arith

number-lt :
    (r : OmClientResponse) (g : OrderGateway)
    → g.next_exp_response_seq_num < u64_mod
    → (handle_response r g).next_exp_response_seq_num < u64_mod
unfolding handle_response
number-lt r g h = ground arith

-- Handling one response again and again, the next expected number being a `size_t`, changes the
-- gateway at most once.
pub rounds-once :
    (n : ℕ) (r : OmClientResponse) (g : OrderGateway)
    → g.next_exp_response_seq_num < u64_mod
    → rounds (suc n) r g ≡ handle_response r g
unfolding rounds
rounds-once zero r g h = refl
rounds-once (suc n) r g h =
    rounds-once n r (handle_response r g) (number-lt r g h) ∙ handle_response-twice r g h

module _ (wire : Wire OmClientResponse) (bytes : List ℕ) where
  recv_loop-endless :
      (fuel : ℕ) (g : OrderGateway)
      → wire.size_of ≤ length bytes
      → recv_loop wire fuel bytes 0 g ≡ fault out_of_fuel
  unfolding recv_loop
  recv_loop-endless zero g h = refl
  recv_loop-endless (suc fuel) g h =
      ground (arith, recv_loop-endless fuel (handle_response (wire.decode bytes) g))

  -- As soon as the buffer holds a whole response, `recvCallback` does not come to an end, whatever
  -- the number of rounds that it is given.
  pub recv_callback-endless :
      (fuel : ℕ) (g : OrderGateway)
      → wire.size_of ≤ length bytes
      → recv_callback wire fuel bytes g ≡ fault out_of_fuel
  unfolding recv_callback
  recv_callback-endless fuel g h = ground (arith, recv_loop-endless fuel g)
