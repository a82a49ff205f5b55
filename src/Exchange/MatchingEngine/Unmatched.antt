-- ===== src/Exchange/MatchingEngine/Unmatched.antt =====
-- Runs of the engine: the heads of its books, and what it sends.
use electronic_trading_ecosy.Base.{
  ℕ, ◌≡◌, refl, Option, ok, >>=-eq-ok, ok-injective, arith, inl, inr, Option-cases, Bool-cases, ltb,
  ◌==◌, update, List, [], ◌∷◌,
}
use mathlib.Core.Path.{subst}
use electronic_trading_ecosy.Common.LfQueue
use electronic_trading_ecosy.Common.LfQueue.{LfQueue}
use electronic_trading_ecosy.Common.Types.{Limits}
use electronic_trading_ecosy.Exchange.Messages.{MeClientRequest, ClientRequestType}
use electronic_trading_ecosy.Exchange.OrderBook.{Book, Outgoing}
use electronic_trading_ecosy.Exchange.OrderBook.Heads.{HeadsNull}
use electronic_trading_ecosy.Exchange.MatchingEngine.{
  Engine, Event, request, turn, new_engine, dispatch, process_client_request, round, run,
}
use electronic_trading_ecosy.Exchange.OrderBook.Quiet.{
  SendsNoFill, nothing, SendsNoFill-trans, Quiet, add-Quiet, cancel-Quiet,
}

dispatch-Quiet :
    (t : ClientRequestType) (q : MeClientRequest) (b : Book) (out : Outgoing) {r : Book × Outgoing}
    → HeadsNull b
    → dispatch t q b out ≡ ok r
    → Quiet out r
unfolding dispatch
dispatch-Quiet ClientRequestType.new q b out h e =
    add-Quiet q.client_id q.order_id q.ticker_id q.side q.price q.qty b out h (unfold dispatch in e)
dispatch-Quiet ClientRequestType.cancel q b out h e =
    cancel-Quiet q.client_id q.order_id q.ticker_id b out h e
dispatch-Quiet ClientRequestType.invalid q b out h e = cc
dispatch-Quiet (ClientRequestType.unnamed byte) q b out h e = cc

-- What every engine keeps.
pub record Unmatched (start m : Engine) : Type 0 where
  pub heads : (t : ℕ) → HeadsNull (m.books t)
  pub sends : SendsNoFill start.outgoing m.outgoing

process-Unmatched :
    (q : MeClientRequest) (start m : Engine) {m' : Engine}
    → Unmatched start m
    → process_client_request q m ≡ ok m'
    → Unmatched start m'
unfolding process_client_request update
process-Unmatched q start m {m'} u e = elim (Bool-cases (ltb q.ticker_id m.limits.max_tickers)) [
  | inr out_of ↦ absurd (ground arith)
  | inl known ↦
      let ((b, out), e1, r1) =
        >>=-eq-ok (dispatch q.request_type q (m.books q.ticker_id) m.outgoing) _
          (rw (known, process_client_request) at e) in
      let (heads, sent) =
        dispatch-Quiet q.request_type q _ _ {r = (b, out)} (u.heads q.ticker_id) e1 in
      subst (Unmatched start) (ok-injective r1) (record {
        heads = λ t. elim (Bool-cases (t == q.ticker_id)) [
          | inl same ↦ rw (update, same) heads
          | inr other ↦ rw (update, other) (u.heads t)
        ];
        sends = SendsNoFill-trans u.sends sent;
      })
]

pub round-Unmatched :
    (start m : Engine) {m' : Engine} → Unmatched start m → round m ≡ ok m' → Unmatched start m'
unfolding round
round-Unmatched start m u e = elim (Option-cases (LfQueue.get_next_to_read m.incoming_requests)) [
  | inl idle ↦ subst (Unmatched start) (ok-injective (rw (idle, round) at e)) u
  | inr (q, next) ↦
      let (m1, e1, r1) = >>=-eq-ok (process_client_request q m) _ (rw (next, round) at e) in
      let (requests, e2, r2) = >>=-eq-ok (LfQueue.update_read_index m1.incoming_requests) _ r1 in
      let kept = process-Unmatched q start m u e1 in
      subst (Unmatched start) (ok-injective r2) (record { heads = kept.heads; sends = kept.sends })
]

run-Unmatched :
    (es : List Event) (start m : Engine) {m' : Engine}
    → Unmatched start m
    → run m es ≡ ok m'
    → Unmatched start m'
unfolding run
run-Unmatched [] start m u e = subst (Unmatched start) (ok-injective e) u
run-Unmatched (request q ∷ es) start m u e =
    run-Unmatched es start _ (record { heads = u.heads; sends = u.sends }) e
run-Unmatched (turn ∷ es) start m u e =
    let (m1, e1, r1) = >>=-eq-ok (round m) _ e in
    run-Unmatched es start m1 (round-Unmatched start m u e1) r1

-- However requests and rounds follow one another, an engine that starts with new books and whose
-- run goes through has sent no response of type FILLED and no update of type TRADE, and the heads
-- of all its books are still null.
pub run-new_engine :
    (limits : Limits) (clients : ℕ → ℕ → ℕ → Option ℕ) (levels : ℕ → ℕ → Option ℕ)
    (requests : LfQueue MeClientRequest) (out : Outgoing) (es : List Event) {m' : Engine}
    → run (new_engine limits clients levels requests out) es ≡ ok m'
    → SendsNoFill out m'.outgoing × ((t : ℕ) → HeadsNull (m'.books t))
unfolding new_engine
run-new_engine limits clients levels requests out es e =
    let u =
      run-Unmatched es (new_engine limits clients levels requests out) _
        (record { heads = λ t. record { bids = refl; asks = refl }; sends = nothing }) e in
    (u.sends, u.heads)
