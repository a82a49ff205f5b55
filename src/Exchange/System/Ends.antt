-- ===== src/Exchange/System/Ends.antt =====
-- The ends of the exchange: what the order server sends, and what the publisher sends.
use mathlib.Core.Path.{subst}
use electronic_trading_ecosy.Base.{
  ℕ, zero, suc, ◌+◌, ◌%◌, ◌≡◌, ◌≢◌, sym, ap, ◌∙◌, some, List, [], ◌∷◌, ◌++◌, ok, arith, >>=-eq-ok,
  ok-injective, All, Bool-cases, Option-cases, inl, inr, ltb, leb, ◌==◌, update, length, drop,
}
use electronic_trading_ecosy.Common.LfQueue
use electronic_trading_ecosy.Common.LfQueue.{LfQueue, size_mod}
use electronic_trading_ecosy.Common.Types.{u64_mod}
use electronic_trading_ecosy.Common.Wire.{Wire}
use electronic_trading_ecosy.Exchange.Messages.{
  OmClientRequest, ClientResponseType, MeClientResponse, MarketUpdateType, MdpMarketUpdate,
}
use electronic_trading_ecosy.Exchange.Sequencer.{add_client_request}
use electronic_trading_ecosy.Exchange.OrderServer
use electronic_trading_ecosy.Exchange.OrderServer.{
  OrderServer, Sent, handle_request, recv_loop, recv_callback, recv_finished_callback,
  send_response,
}
use electronic_trading_ecosy.Exchange.MarketDataPublisher.{MarketDataPublisher, publish_updates}
use electronic_trading_ecosy.Exchange.System.Queues.{
  Slots, NoFill, NoTrade, update_read_index-store, poll-store, poll-Slots,
}

-- what was sent through a socket is no report of a fill
abbrev pub IsNoFill : Sent → Type 0
IsNoFill (Sent.seq_num value len) = Unit
IsNoFill (Sent.response value len) = value.type ≢ ClientResponseType.filled

abbrev pub IsNoTrade : MdpMarketUpdate → Type 0
IsNoTrade u = u.me_market_update.type ≢ MarketUpdateType.trade

-- The server's receiving leaves what it has sent and what waits to be sent.
abbrev pub SameSending : OrderServer → OrderServer → Type 0
SameSending s s' = (s'.sent ≡ s.sent) × (s'.client_responses ≡ s.client_responses)

handle_request-SameSending :
    (socket rx_time : ℕ) (r : OmClientRequest) (s : OrderServer) {s' : OrderServer}
    → handle_request socket rx_time r s ≡ ok s'
    → SameSending s s'
unfolding handle_request add_client_request
handle_request-SameSending socket rx_time r s e = ground (arith, e)

module _ (wire : Wire OmClientRequest) (socket rx_time : ℕ) (bytes : List ℕ) where
  recv_loop-SameSending :
      (fuel i : ℕ) (s : OrderServer) {j : ℕ} {s' : OrderServer}
      → recv_loop wire fuel socket rx_time bytes i s ≡ ok (j, s')
      → SameSending s s'
  unfolding recv_loop
  recv_loop-SameSending zero i s e = cc
  recv_loop-SameSending (suc fuel) i s {j} {s'} e =
      elim (Bool-cases (leb (i + wire.size_of) (length bytes))) [
        | inr short ↦
            let done : ok (i, s) ≡ ok (j, s') = rw (short, recv_loop) at e in
            let same : s ≡ s' = ap (λ q. q.1) (ok-injective done) in
            (ap (λ q. q.sent) (sym same), ap (λ q. q.client_responses) (sym same))
        | inl whole ↦
            let (s1, first, others) =
              >>=-eq-ok (handle_request socket rx_time (wire.decode (drop i bytes)) s)
                (recv_loop wire fuel socket rx_time bytes (i + wire.size_of))
                (rw (whole, recv_loop) at e) in
            let (sent1, responses1) = handle_request-SameSending socket rx_time _ s first in
            let (sent2, responses2) = recv_loop-SameSending fuel (i + wire.size_of) s1 others in
            (sent2 ∙ sent1, responses2 ∙ responses1)
      ]

  pub recv_callback-SameSending :
      (s : OrderServer) {rest : List ℕ} {s' : OrderServer}
      → recv_callback wire socket rx_time bytes s ≡ ok (rest, s')
      → SameSending s s'
  unfolding recv_callback
  recv_callback-SameSending s {rest} {s'} e = elim (Bool-cases (leb wire.size_of (length bytes))) [
    | inr short ↦
        let done : ok (bytes, s) ≡ ok (rest, s') = rw (short, recv_callback) at e in
        let same : s ≡ s' = ap (λ q. q.1) (ok-injective done) in
        (ap (λ q. q.sent) (sym same), ap (λ q. q.client_responses) (sym same))
    | inl whole ↦
        let ((i, s1), loops, e1) =
          >>=-eq-ok (recv_loop wire (length bytes + 1) socket rx_time bytes 0 s) _
            (rw (whole, recv_callback) at e) in
        let same : s1 ≡ s' = ap (λ q. q.1) (ok-injective e1) in
        let (sent1, responses1) = recv_loop-SameSending (length bytes + 1) 0 s loops in
        (ap (λ q. q.sent) (sym same) ∙ sent1, ap (λ q. q.client_responses) (sym same) ∙ responses1)
  ]

All-append : {A : Type 0} (P : A → Type 0) (xs ys : List A) → All P xs → All P ys → All P (xs ++ ys)
All-append P [] ys h k = k
All-append P (x ∷ xs) ys (hx, hs) k = (hx, All-append P xs ys hs k)

abbrev pub AllNoFill : OrderServer → Type 0
AllNoFill s = (socket : ℕ) → All IsNoFill (s.sent socket)

pub send_response-NoFill :
    (r : MeClientResponse) (s : OrderServer) {s' : OrderServer}
    → send_response r s ≡ ok s'
    → NoFill r
    → AllNoFill s
    → AllNoFill s' × (s'.client_responses.store ≡ s.client_responses.store)
unfolding send_response update
send_response-NoFill r s {s'} e other sent =
    elim (Bool-cases (ltb r.client_id s.limits.max_num_clients)) [
      | inr out_of ↦ absurd (ground (arith, out_of, e))
      | inl known ↦ elim (Option-cases (s.client_socket r.client_id)) [
        | inl no_socket ↦ absurd (ground (arith, known, no_socket, e))
        | inr (socket, has) ↦
            let (responses, read, e1) =
              >>=-eq-ok (LfQueue.update_read_index s.client_responses) _
                (rw (known, has, send_response) at e) in
            let more : List Sent =
              OrderServer.seq_num (s.outgoing_seq_num r.client_id) OrderServer.size_of_seq_num
              ∷ OrderServer.response r OrderServer.size_of_pointer
              ∷ [] in
            let after : OrderServer = record s {
              sent = update s.sent socket (s.sent socket ++ more);
              client_responses = responses;
              outgoing_seq_num =
                  update s.outgoing_seq_num r.client_id
                    ((s.outgoing_seq_num r.client_id + 1) % u64_mod);
            } in
            let clean : AllNoFill after = λ other_socket.
              elim (Bool-cases (other_socket == socket)) [
                | inl same ↦
                    rw same
                      (All-append IsNoFill (s.sent socket) more (sent socket) (tt, (other, tt)))
                | inr differs ↦ rw differs (sent other_socket)
              ] in
            subst (λ q. AllNoFill q × (q.client_responses.store ≡ s.client_responses.store))
              (ok-injective e1) (clean, update_read_index-store s.client_responses read)
      ]
    ]

pub publish_updates-NoTrade :
    (fuel : ℕ) (p : MarketDataPublisher) {p' : MarketDataPublisher}
    → publish_updates fuel p ≡ ok p'
    → Slots NoTrade p.outgoing_md_updates
    → All IsNoTrade p.sent
    → Slots NoTrade p'.outgoing_md_updates × All IsNoTrade p'.sent
unfolding publish_updates
publish_updates-NoTrade zero p e slots sent = cc
publish_updates-NoTrade (suc fuel) p {p'} e slots sent =
    let ((next, updates), polled, e1) = >>=-eq-ok (LfQueue.poll p.outgoing_md_updates) _ e in
    elim (Option-cases next) [
      | inl none_left ↦
          let done : ok p ≡ ok p' = rw none_left at e1 in
          subst (λ q. Slots NoTrade q.outgoing_md_updates × All IsNoTrade q.sent)
            (ok-injective done) (slots, sent)
      | inr (u, some_left) ↦
          let polled_some : LfQueue.poll p.outgoing_md_updates ≡ ok (some u, updates) =
            polled ∙ ap (λ n. ok (n, updates)) some_left in
          let one : MdpMarketUpdate = record {
            seq_num = p.next_inc_seq_num;
            me_market_update = u;
          } in
          let p1 : MarketDataPublisher = record p {
            sent = p.sent ++ one ∷ [];
            outgoing_md_updates = updates;
            next_inc_seq_num = (p.next_inc_seq_num + 1) % u64_mod;
          } in
          let others : publish_updates fuel p1 ≡ ok p' = rw some_left at e1 in
          let same : updates.store ≡ p.outgoing_md_updates.store =
            poll-store p.outgoing_md_updates polled in
          let slots1 : Slots NoTrade updates = λ i. rw same (slots i) in
          publish_updates-NoTrade fuel p1 others slots1 (
            All-append IsNoTrade p.sent (one ∷ []) sent
              (poll-Slots NoTrade p.outgoing_md_updates polled_some slots, tt))
    ]
