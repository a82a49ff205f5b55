-- ===== src/Exchange/OrderBook/Quiet.antt =====
-- Requests on books whose heads are null, from which the loops of `checkForMatch` start.
use electronic_trading_ecosy.Base.{
  ℕ, suc, ◌+◌, ◌%◌, ◌≡◌, ◌≢◌, refl, sym, ap, ◌∙◌, ok, >>=-eq-ok, ok-injective, arith, inl, inr,
  Option-cases, Bool-cases, Bool, ltb, if◌then◌else◌, ◌==◌,
}
use mathlib.Core.Path.{subst}
use native.Mathlib.Numerals.{add-one}
use electronic_trading_ecosy.Common.MemPool
use electronic_trading_ecosy.Common.Types.{Side, u64_mod}
use electronic_trading_ecosy.Exchange.Messages.{
  MeClientResponse, MeMarketUpdate, ClientResponseType, MarketUpdateType,
}
use electronic_trading_ecosy.Exchange.OrderBook.{
  Book, Outgoing, send_client_response, send_market_update, generate_new_market_order_id,
  get_next_priority,
}
use electronic_trading_ecosy.Exchange.OrderBook.Orders.{add_order, remove_order}
use electronic_trading_ecosy.Exchange.OrderBook.Matching.{Incoming, match_loop, check_for_match}
use electronic_trading_ecosy.Exchange.OrderBook.Requests.{
  accepted_response, cancel_rejected_response, resting_order, rest_order, add, cancelled_order,
  cancel,
}
use electronic_trading_ecosy.Exchange.OrderBook.Heads.{
  HeadsNull, HeadsNull-same, add_order-SameHeads, remove_order-SameHeads,
}

match_loop-null :
    (fuel : ℕ) (i : Incoming) (qty : ℕ) (b : Book) (out : Outgoing)
    → HeadsNull b
    → match_loop (suc fuel) i qty b out ≡ ok (qty, b, out)
unfolding match_loop
match_loop-null fuel i qty b out h = ground arith

check_for_match-null :
    (i : Incoming) (qty : ℕ) (b : Book) (out : Outgoing)
    → HeadsNull b
    → check_for_match i qty b out ≡ ok (qty, b, out)
unfolding check_for_match
check_for_match-null i qty b out h =
    rw (add-one b.order_pool.size) (ground (arith, match_loop-null b.order_pool.size i qty b out))

abbrev pub incoming :
    (client_id client_order_id ticker_id : ℕ) → Side → (price : ℕ) → Book → Incoming
incoming client_id client_order_id ticker_id side price b = record {
  client_id = client_id;
  client_order_id = client_order_id;
  ticker_id = ticker_id;
  side = side;
  price = price;
  market_order_id = b.next_market_order_id;
}

abbrev pub counted : Book → Book
counted b = record b { next_market_order_id = (b.next_market_order_id + 1) % u64_mod }

-- In a book with null heads `checkForMatch` fills nothing.
pub add-rest_order :
    (client_id client_order_id ticker_id : ℕ) (side : Side) (price qty : ℕ) (b : Book)
    (out : Outgoing)
    → HeadsNull b
    → let i : Incoming = incoming client_id client_order_id ticker_id side price b in
      let out1 = send_client_response (accepted_response i qty) out in
      add client_id client_order_id ticker_id side price qty b out
      ≡ (if qty == 0 then ok (counted b, out1) else rest_order i qty (counted b) out1)
unfolding add generate_new_market_order_id
add-rest_order c o t side price qty b out h = rw (
    check_for_match-null (incoming c o t side price b) qty (counted b)
      (send_client_response (accepted_response (incoming c o t side price b) qty) out)
      (record { bids = h.bids; asks = h.asks }))

-- `out'` is `out` with messages sent of which none reports a fill or a trade.
pub data SendsNoFill (out : Outgoing) : Outgoing → Type 0 where
  nothing : SendsNoFill out out
  response :
      {o o' : Outgoing} (r : MeClientResponse)
      → r.type ≢ ClientResponseType.filled
      → SendsNoFill out o
      → o' ≡ send_client_response r o
      → SendsNoFill out o'
  update_sent :
      {o o' : Outgoing} (u : MeMarketUpdate)
      → u.type ≢ MarketUpdateType.trade
      → SendsNoFill out o
      → o' ≡ send_market_update u o
      → SendsNoFill out o'

add_ne_trade : MarketUpdateType.add ≢ MarketUpdateType.trade
add_ne_trade q = cc

rest_order-SendsNoFill :
    (i : Incoming) (qty : ℕ) (b : Book) (out : Outgoing) {r : Book × Outgoing}
    → HeadsNull b
    → rest_order i qty b out ≡ ok r
    → HeadsNull r.0 × SendsNoFill out r.1
unfolding rest_order
rest_order-SendsNoFill i qty b out {r} h e =
    let (priority, e1, r1) = >>=-eq-ok (get_next_priority b i.price) _ e in
    let ((p, pool), e2, r2) =
      >>=-eq-ok (MemPool.allocate b.order_pool (resting_order i qty priority)) _ r1 in
    let (b', e3, r3) = >>=-eq-ok (add_order (record b { order_pool = pool }) p) _ r2 in
    let kept =
      add_order-SameHeads (record b { order_pool = pool }) p
        (record { bids = h.bids; asks = h.asks }) e3 in
    subst (λ q. HeadsNull q.0 × SendsNoFill out q.1) (ok-injective r3)
      (
        record { bids = kept.bids ∙ h.bids; asks = kept.asks ∙ h.asks },
        update_sent _ add_ne_trade nothing refl,
      )

pub SendsNoFill-trans : {a b c : Outgoing} → SendsNoFill a b → SendsNoFill b c → SendsNoFill a c
SendsNoFill-trans p nothing = p
SendsNoFill-trans p (response r n q e) = response r n (SendsNoFill-trans p q) e
SendsNoFill-trans p (update_sent u n q e) = update_sent u n (SendsNoFill-trans p q) e

abbrev pub Quiet : Outgoing → Book × Outgoing → Type 0
Quiet out r = HeadsNull r.0 × SendsNoFill out r.1

pub add-Quiet :
    (c o t : ℕ) (side : Side) (price qty : ℕ) (b : Book) (out : Outgoing) {r : Book × Outgoing}
    → HeadsNull b
    → add c o t side price qty b out ≡ ok r
    → Quiet out r
add-Quiet c o t side price qty b out {r} h e = elim (Bool-cases (qty == 0)) [
  | inl z ↦
      let same : ◌≡◌ {A = Book × Outgoing} (counted b, out1) r = ok-injective (
        sym (
          rests
          ∙ ap (λ (t : Bool). if t then ok (counted b, out1) else rest_order i qty (counted b) out1)
              z)
        ∙ e) in
      subst (Quiet out) same (record { bids = h.bids; asks = h.asks }, accepted)
  | inr nz ↦
      let (heads, sent) =
        rest_order-SendsNoFill i qty (counted b) out1 {r = r}
          (record { bids = h.bids; asks = h.asks })
          (sym (
              rests
              ∙ ap
                  (λ (t : Bool).
                    if t then ok (counted b, out1) else rest_order i qty (counted b) out1)
                  nz)
            ∙ e) in
      (heads, SendsNoFill-trans accepted sent)
]
  where
    i : Incoming
    i = incoming c o t side price b

    out1 : Outgoing
    out1 = send_client_response (accepted_response i qty) out

    accepted : SendsNoFill out out1
    accepted = response (accepted_response i qty) (λ q. cc) nothing refl

    rests :
        add c o t side price qty b out
        ≡ (if qty == 0 then ok (counted b, out1) else rest_order i qty (counted b) out1)
    rests = add-rest_order c o t side price qty b out h

cancelled-Quiet :
    (c o t p : ℕ) (b : Book) (out : Outgoing) {r : Book × Outgoing}
    → HeadsNull b
    → cancelled_order c o t p b out ≡ ok r
    → Quiet out r
unfolding cancelled_order
cancelled-Quiet c o t p b out {r} h e =
    let (b', e1, r1) = >>=-eq-ok (remove_order b p) _ e in
    subst (Quiet out) (ok-injective r1) (
      HeadsNull-same (remove_order-SameHeads b p e1) h,
      response _ (λ q. cc) (update_sent _ (λ q. cc) nothing refl) refl,
    )

pub cancel-Quiet :
    (c o t : ℕ) (b : Book) (out : Outgoing) {r : Book × Outgoing}
    → HeadsNull b
    → cancel c o t b out ≡ ok r
    → Quiet out r
unfolding cancel
cancel-Quiet c o t b out {r} h e = elim (Bool-cases (ltb c b.limits.max_num_clients)) [
  | inr out_of ↦ subst (Quiet out) (ground arith) (h, nothing)
  | inl known ↦ elim (Option-cases (b.client_orders c o)) [
    | inl missing ↦
        subst (Quiet out) (ground arith)
          (h, response (cancel_rejected_response c o t) (λ q. cc) nothing refl)
    | inr (p, found) ↦ cancelled-Quiet c o t p b out h (ground arith)
  ]
]
