-- ===== src/Trading/OrderGateway/Sending.antt =====
-- The numbers under which the gateway sends its requests.
use electronic_trading_ecosy.Base.{
  ℕ, zero, suc, ◌+◌, ◌%◌, ◌<◌, ◌≡◌, refl, ◌∙◌, sym, ap, List, [], ◌∷◌, ◌++◌, ok, arith, length,
}
use mathlib.Core.List.{append_assoc, append-nil}
use electronic_trading_ecosy.Common.LfQueue.Fifo.{
  IsValid, contents, contents-read, read-empty, length-contents,
}
use electronic_trading_ecosy.Common.Types.{u64_mod}
use electronic_trading_ecosy.Exchange.Messages.{MeClientRequest}
use electronic_trading_ecosy.Trading.OrderGateway.{OrderGateway, send_requests}

-- the requests under consecutive numbers
unfoldable pub numbered : ℕ → List MeClientRequest → List (ℕ × MeClientRequest)
numbered n [] = []
numbered n (r ∷ rs) = (n, r) ∷ numbered (n + 1) rs

send_requests-numbered :
    (rs : List MeClientRequest) (fuel : ℕ) (g : OrderGateway)
    → IsValid g.outgoing_requests
    → contents g.outgoing_requests ≡ rs
    → length rs < g.outgoing_requests.capacity
    → length rs < fuel
    → g.next_outgoing_seq_num + length rs < u64_mod
    → (g' : OrderGateway) × (send_requests fuel g ≡ ok g')
      × (g'.sent ≡ g.sent ++ numbered g.next_outgoing_seq_num rs)
      × (g'.next_outgoing_seq_num ≡ g.next_outgoing_seq_num + length rs)
      × (contents g'.outgoing_requests ≡ [])
unfolding send_requests numbered
send_requests-numbered rs zero g inv e room enough small = absurd (omega arith)
send_requests-numbered [] (suc fuel) g inv e room enough small =
    rw (read-empty g.outgoing_requests inv e) (g, refl, sym (append-nil g.sent), omega arith, e)
send_requests-numbered (r ∷ rs) (suc fuel) g inv e room enough small =
    let (q, took, inv', left, same) =
      contents-read g.outgoing_requests inv r rs e
        (omega (arith, length-contents g.outgoing_requests, ap length e)) in
    let next : (g.next_outgoing_seq_num + 1) % u64_mod ≡ g.next_outgoing_seq_num + 1 =
      omega arith in
    let (g', sends, sent, moved, done) =
      send_requests-numbered rs fuel
        (record g {
          sent = g.sent ++ (g.next_outgoing_seq_num, r) ∷ [];
          outgoing_requests = q;
          next_outgoing_seq_num = (g.next_outgoing_seq_num + 1) % u64_mod;
        })
        inv' left (omega arith) (omega arith) (omega arith) in
    (
      g',
      rw took sends,
      sent
          ∙ ap (λ k. (g.sent ++ (g.next_outgoing_seq_num, r) ∷ []) ++ numbered k rs) next
          ∙ append_assoc g.sent _ _,
      omega arith,
      done,
    )

-- With one round more than there are requests, `run` sends all requests on a queue that is valid
-- and not full, in order and under consecutive numbers as long as a `size_t` has them, and leaves
-- the queue empty.
pub send_requests_lem :
    (g : OrderGateway)
    → IsValid g.outgoing_requests
    → g.outgoing_requests.store_size < g.outgoing_requests.capacity
    → g.next_outgoing_seq_num + g.outgoing_requests.store_size < u64_mod
    → (g' : OrderGateway) × (send_requests (g.outgoing_requests.store_size + 1) g ≡ ok g')
      × (g'.sent ≡ g.sent ++ numbered g.next_outgoing_seq_num (contents g.outgoing_requests))
      × (g'.next_outgoing_seq_num ≡ g.next_outgoing_seq_num + g.outgoing_requests.store_size)
      × (contents g'.outgoing_requests ≡ [])
send_requests_lem g inv room small =
    let n = length-contents g.outgoing_requests in
    let (g', a, b, c, d) =
      send_requests-numbered (contents g.outgoing_requests) (g.outgoing_requests.store_size + 1) g
        inv refl (omega arith) (omega arith) (omega arith) in
    (g', a, b, omega arith, d)
