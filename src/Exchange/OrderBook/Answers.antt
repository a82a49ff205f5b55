-- ===== src/Exchange/OrderBook/Answers.antt =====
-- What clients are told of a match and of a cancellation, in books of any state.
use mathlib.Core.Path.{subst}
use mathlib.Core.List.{append_assoc}
use electronic_trading_ecosy.Base.{
  ℕ, ◌+◌, ◌-◌, min, ◌≤◌, ◌<◌, ◌≡◌, refl, sym, ap, ◌∙◌, Option, none, some, [], ◌∷◌, ◌++◌, ok,
  >>=-eq-ok, ok-injective, Bool-cases, Option-cases, inl, inr, arith, ltb, lt→ltb, ◌==◌, in_range,
}
use electronic_trading_ecosy.Common.LfQueue.Fifo.{IsValid, contents, contents-write, write-sizes}
use electronic_trading_ecosy.Exchange.Messages.{ClientResponseType, MeClientResponse}
use electronic_trading_ecosy.Common.Types.{Side, order_id_invalid, price_invalid, qty_invalid}
use electronic_trading_ecosy.Exchange.OrderBook.{
  Book, Outgoing, order_at, set_order, send_client_response, send_market_update,
}
use electronic_trading_ecosy.Exchange.OrderBook.Orders.{remove_order}
use electronic_trading_ecosy.Exchange.OrderBook.Matching.{
  Incoming, filled_response, as_incoming, match,
}
use electronic_trading_ecosy.Exchange.OrderBook.Requests.{cancelled_order, cancel}

sent :
    (r : MeClientResponse) (out : Outgoing)
    → IsValid out.responses
    → out.responses.store_size < out.responses.capacity
    → IsValid (send_client_response r out).responses
      × (contents (send_client_response r out).responses ≡ contents out.responses ++ r ∷ [])
      × ((send_client_response r out).responses.store_size ≡ out.responses.store_size + 1)
      × ((send_client_response r out).responses.capacity ≡ out.responses.capacity)
unfolding send_client_response
sent r out inv room =
    let (inv', e) = contents-write out.responses inv r room in
    let (more, same) = write-sizes out.responses r inv room in (inv', e, more, same)

module _ (i : Incoming) (itr left : ℕ) (b : Book) (out : Outgoing) where
  -- the two responses of a match
  abbrev pub answered : Outgoing
  answered =
      let o = order_at b itr in
      let fill_qty = min left o.qty in
      send_client_response (filled_response (as_incoming o) o.price fill_qty (o.qty - fill_qty))
        (send_client_response (filled_response i o.price fill_qty (left - fill_qty)) out)

  match-answered :
      {r : ℕ × Book × Outgoing}
      → match i itr left b out ≡ ok r
      → (r.0 + min left (order_at b itr).qty ≡ left) × (r.2.responses ≡ answered.responses)
  unfolding match send_market_update
  match-answered {r} h =
      let o = order_at b itr in
      let fill_qty = min left o.qty in
      elim (Bool-cases ((o.qty - fill_qty) == 0)) [
        | inl all ↦
            let (b2, _, h1) =
              >>=-eq-ok (remove_order (set_order b itr (record o { qty = o.qty - fill_qty })) itr) _
                (rw all at h) in
            subst
              (λ (x : ℕ × Book × Outgoing).
                (x.0 + fill_qty ≡ left) × (x.2.responses ≡ answered.responses))
              (ok-injective h1) (omega arith, refl)
        | inr some_left ↦
            let h1 : ok _ ≡ ok r = rw some_left at h in
            subst
              (λ (x : ℕ × Book × Outgoing).
                (x.0 + fill_qty ≡ left) × (x.2.responses ≡ answered.responses))
              (ok-injective h1) (omega arith, refl)
      ]

  -- What the incoming order's client is told of a fill.
  abbrev pub told_incoming : MeClientResponse
  told_incoming =
      let o = order_at b itr in
      record {
        type = ClientResponseType.filled;
        client_id = i.client_id;
        ticker_id = i.ticker_id;
        client_order_id = i.client_order_id;
        market_order_id = i.market_order_id;
        side = i.side;
        price = o.price;
        exec_qty = min left o.qty;
        left_qty = left - o.qty;
      }

  -- What the resting order's client is told.
  abbrev pub told_resting : MeClientResponse
  told_resting =
      let o = order_at b itr in
      record {
        type = ClientResponseType.filled;
        client_id = o.client_id;
        ticker_id = o.ticker_id;
        client_order_id = o.client_order_id;
        market_order_id = o.market_order_id;
        side = o.side;
        price = o.price;
        exec_qty = min left o.qty;
        left_qty = o.qty - left;
      }

  told-answered :
      (filled_response i
          (order_at b itr).price
          (min left (order_at b itr).qty)
          (left - min left (order_at b itr).qty)
        ≡ told_incoming)
      × (filled_response
            (as_incoming (order_at b itr))
            (order_at b itr).price
            (min left (order_at b itr).qty)
            ((order_at b itr).qty - min left (order_at b itr).qty)
          ≡ told_resting)
  told-answered =
      let o = order_at b itr in
      let incoming : left - min left o.qty ≡ left - o.qty = omega arith in
      let resting : o.qty - min left o.qty ≡ o.qty - left = omega arith in
      (rw incoming refl, rw resting refl)

  -- A match that goes through leaves the incoming order its quantity less the resting order's, and
  -- tells both parties of one fill, first the incoming one: each under its own client, identifiers
  -- and side, at the resting order's price, with the smaller of the two quantities as executed and
  -- with its own quantity less the other's as left, as long as the queue of responses is valid and
  -- has room for two.
  pub match_lem :
      {r : ℕ × Book × Outgoing}
      → IsValid out.responses
      → out.responses.store_size + 2 ≤ out.responses.capacity
      → match i itr left b out ≡ ok r
      → (r.0 ≡ left - (order_at b itr).qty)
        × (contents r.2.responses ≡ contents out.responses ++ told_incoming ∷ told_resting ∷ [])
  match_lem {r} inv room h =
      let o = order_at b itr in
      let fill_qty = min left o.qty in
      let r1 = filled_response i o.price fill_qty (left - fill_qty) in
      let r2 = filled_response (as_incoming o) o.price fill_qty (o.qty - fill_qty) in
      let (left_qty, same) = match-answered {r = r} h in
      let (inv1, e1, n1, c1) = sent r1 out inv (omega arith) in
      let (inv2, e2, n2, c2) = sent r2 (send_client_response r1 out) inv1 (omega (arith, n1, c1)) in
      let (first, second) = told-answered in
      (
        omega (arith, left_qty),
        ap contents same
            ∙ e2
            ∙ ap (λ xs. xs ++ r2 ∷ []) e1
            ∙ append_assoc (contents out.responses) (r1 ∷ []) (r2 ∷ [])
            ∙ rw (first, second) refl,
      )

module _ (client_id client_order_id ticker_id : ℕ) (b : Book) (out : Outgoing) where
  -- the answer to a cancellation, by the client's entry
  abbrev pub answer_to : Option ℕ → MeClientResponse
  answer_to none = record {
    type = ClientResponseType.cancel_rejected;
    client_id = client_id;
    ticker_id = ticker_id;
    client_order_id = client_order_id;
    market_order_id = order_id_invalid;
    side = Side.invalid;
    price = price_invalid;
    exec_qty = qty_invalid;
    left_qty = qty_invalid;
  }
  answer_to (some p) =
      let o = order_at b p in
      record {
        type = ClientResponseType.canceled;
        client_id = client_id;
        ticker_id = ticker_id;
        client_order_id = client_order_id;
        market_order_id = o.market_order_id;
        side = o.side;
        price = o.price;
        exec_qty = qty_invalid;
        left_qty = o.qty;
      }

  cancel-answered :
      {r : Book × Outgoing}
      → client_id < b.limits.max_num_clients
      → cancel client_id client_order_id ticker_id b out ≡ ok r
      → r.1.responses
        ≡ (send_client_response
            (answer_to (b.client_orders client_id client_order_id))
            out).responses
  unfolding cancel cancelled_order send_market_update send_client_response
  cancel-answered {r} inside h =
      let h0 = rw (lt→ltb client_id b.limits.max_num_clients inside) at h in
      let (_, _, h1) = >>=-eq-ok (in_range (ltb client_order_id b.limits.max_order_ids)) _ h0 in
      elim (Option-cases (b.client_orders client_id client_order_id)) [
        | inl none_there ↦
            let h2 : ok _ ≡ ok r = rw none_there at h1 in
            rw none_there (ap (λ (x : Book × Outgoing). x.1.responses) (sym (ok-injective h2)))
        | inr (p, there) ↦
            let h2 : cancelled_order client_id client_order_id ticker_id p b out ≡ ok r =
              rw there at h1 in
            let (b', _, h3) = >>=-eq-ok (remove_order b p) _ h2 in
            rw there (ap (λ (x : Book × Outgoing). x.1.responses) (sym (ok-injective h3)))
      ]

  -- A cancellation by a client within bounds, if it goes through, gets exactly one answer, as long as
  -- the queue of responses is valid and has room: a rejection where the client has no such order,
  -- and else a confirmation with the quantity that was left.
  pub cancel_lem :
      {r : Book × Outgoing}
      → IsValid out.responses
      → out.responses.store_size < out.responses.capacity
      → client_id < b.limits.max_num_clients
      → cancel client_id client_order_id ticker_id b out ≡ ok r
      → contents r.1.responses
        ≡ contents out.responses ++ answer_to (b.client_orders client_id client_order_id) ∷ []
  cancel_lem {r} inv room inside h =
      ap contents (cancel-answered {r = r} inside h)
      ∙ (sent (answer_to (b.client_orders client_id client_order_id)) out inv room).1
