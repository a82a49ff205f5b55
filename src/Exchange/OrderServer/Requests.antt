-- ===== src/Exchange/OrderServer/Requests.antt =====
-- Which requests reach the sequencer.
use electronic_trading_ecosy.Base.{
  ℕ, zero, suc, ◌+◌, ◌%◌, ◌≤◌, ◌<◌, ◌≡◌, ◌≢◌, ◌⊎◌, inl, inr, none, some, List, [], ◌∷◌, ◌++◌, ok,
  fault, out_of_fuel, arith, update, update_self, length, drop, length-drop, leb, Bool-cases,
  Outcome-cases, ◌∙◌, ap, fault-injective,
}
use electronic_trading_ecosy.Common.Types.{u64_mod}
use electronic_trading_ecosy.Common.Wire.{Wire}
use electronic_trading_ecosy.Exchange.Messages.{OmClientRequest}
use electronic_trading_ecosy.Exchange.Sequencer.{add_client_request}
use electronic_trading_ecosy.Exchange.OrderServer.{
  OrderServer, handle_request, recv_loop, recv_callback,
}

-- The server takes a request from this socket under this number.
abbrev pub Expects : OrderServer → (socket : ℕ) → OmClientRequest → Type 0
Expects s socket r =
    let client = r.me_client_request.client_id in
    ((s.client_socket client ≡ none) ⊎ (s.client_socket client ≡ some socket))
    × (r.seq_num ≡ s.outgoing_seq_num client)

module _ (socket rx_time : ℕ) (r : OmClientRequest) (s : OrderServer) {s' : OrderServer} where
  -- A request that the server expects, if its handling goes through, stands behind the pending ones
  -- with its time, the client's number has moved on and no other, and the socket is the client's.
  pub handle_request-Expects :
      Expects s socket r
      → handle_request socket rx_time r s ≡ ok s'
      → (s'.sequencer.pending
          ≡ s.sequencer.pending
            ++ record { recv_time = rx_time; request = r.me_client_request } ∷ [])
        × (s'.outgoing_seq_num
            ≡ update s.outgoing_seq_num r.me_client_request.client_id ((r.seq_num + 1) % u64_mod))
        × (s'.client_socket r.me_client_request.client_id ≡ some socket)
  unfolding handle_request add_client_request
  handle_request-Expects (inl new, num) e =
      ground (arith, update_self s.client_socket r.me_client_request.client_id (some socket))
  handle_request-Expects (inr old, num) e =
      ground (arith, update_self s.client_socket r.me_client_request.client_id (some socket))

  -- Any other request whose handling goes through leaves the sequencer and every number as they
  -- were.
  pub handle_request-ignored :
      ¬ Expects s socket r
      → handle_request socket rx_time r s ≡ ok s'
      → (s'.sequencer ≡ s.sequencer) × (s'.outgoing_seq_num ≡ s.outgoing_seq_num)
  unfolding handle_request add_client_request
  handle_request-ignored n e =
      ground (arith, update_self s.client_socket r.me_client_request.client_id (some socket))

handle_request-ne-fuel :
    (socket rx_time : ℕ) (r : OmClientRequest) (s : OrderServer)
    → handle_request socket rx_time r s ≢ fault out_of_fuel
unfolding handle_request add_client_request
handle_request-ne-fuel socket rx_time r s = ground arith

module _ (wire : Wire OmClientRequest) (socket rx_time : ℕ) (bytes : List ℕ) where
  recv_loop-ne-fuel :
      (fuel i : ℕ) (s : OrderServer)
      → i ≤ length bytes
      → length bytes < fuel + i
      → recv_loop wire fuel socket rx_time bytes i s ≢ fault out_of_fuel
  unfolding recv_loop
  recv_loop-ne-fuel zero i s inside enough = absurd (omega arith)
  recv_loop-ne-fuel (suc fuel) i s inside enough =
      elim (Bool-cases (leb (i + wire.size_of) (length bytes))) [
        | inr short ↦ rw short (λ e. cc)
        | inl whole ↦
            elim (Outcome-cases (handle_request socket rx_time (wire.decode (drop i bytes)) s)) [
              | inr (f, bad) ↦
                  rw (whole, bad)
                    (λ e.
                      handle_request-ne-fuel socket rx_time (wire.decode (drop i bytes)) s
                        (bad ∙ ap fault (fault-injective e)))
              | inl (s1, good) ↦
                  rw (whole, good)
                    (recv_loop-ne-fuel fuel (i + wire.size_of) s1 (ground arith)
                      (omega (arith, wire.positive)))
            ]
      ]

  recv_loop-rest :
      (fuel i : ℕ) (s : OrderServer) {j : ℕ} {s' : OrderServer}
      → i ≤ length bytes
      → recv_loop wire fuel socket rx_time bytes i s ≡ ok (j, s')
      → (j ≤ length bytes) × (length bytes < j + wire.size_of)
  unfolding recv_loop
  recv_loop-rest zero i s inside e = cc
  recv_loop-rest (suc fuel) i s {j} {s'} inside e =
      elim (Bool-cases (leb (i + wire.size_of) (length bytes))) [
        | inr short ↦ ground arith
        | inl whole ↦
            elim (Outcome-cases (handle_request socket rx_time (wire.decode (drop i bytes)) s)) [
              | inr (f, bad) ↦ absurd (ground arith)
              | inl (s1, good) ↦
                  recv_loop-rest fuel (i + wire.size_of) s1 {j = j} {s' = s'} (ground arith)
                    (ground arith)
            ]
      ]

  -- For messages of a positive size, a call of `recvCallback` comes to an end, and if it goes
  -- through less than one request stays in the buffer.
  pub recv_callback-rest :
      (s : OrderServer)
      → (recv_callback wire socket rx_time bytes s ≢ fault out_of_fuel)
        × ((rest : List ℕ) (s' : OrderServer)
            → recv_callback wire socket rx_time bytes s ≡ ok (rest, s')
            → length rest < wire.size_of)
  unfolding recv_callback
  recv_callback-rest s = elim (Bool-cases (leb wire.size_of (length bytes))) [
    | inr short ↦ (rw (short) (λ e. cc), λ rest s' e. ground arith)
    | inl long ↦ elim (Outcome-cases (recv_loop wire (length bytes + 1) socket rx_time bytes 0 s)) [
      | inr (f, bad) ↦ (
        rw (long, bad) (λ e. enough (bad ∙ ap fault (fault-injective e))),
        λ rest s' e. absurd (ground arith),
      )
      | inl ((i, s1), good) ↦ (
        rw (long, good) (λ e. cc),
        λ rest s' e.
            let (inside, few) = recv_loop-rest (length bytes + 1) 0 s (omega arith) good in
            ground (arith, length-drop i bytes),
      )
    ]
  ]
    where
      enough : recv_loop wire (length bytes + 1) socket rx_time bytes 0 s ≢ fault out_of_fuel
      enough = recv_loop-ne-fuel (length bytes + 1) 0 s (omega arith) (omega arith)
