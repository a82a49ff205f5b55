-- ===== src/Exchange/System/Unfilled.antt =====
-- What the exchange as a whole tells its clients and the market.
use electronic_trading_ecosy.Base.{ℕ, refl, Option, All}
use electronic_trading_ecosy.Common.LfQueue
use electronic_trading_ecosy.Common.LfQueue.{LfQueue, size_mod}
use electronic_trading_ecosy.Common.Types.{Limits}
use electronic_trading_ecosy.Common.Wire.{Wire}
use electronic_trading_ecosy.Exchange.Messages.{OmClientRequest}
use electronic_trading_ecosy.Exchange.OrderBook.Heads.{HeadsNull}
use electronic_trading_ecosy.Exchange.OrderBook.Quiet.{nothing}
use electronic_trading_ecosy.Exchange.MatchingEngine
use electronic_trading_ecosy.Exchange.MatchingEngine.{Engine}
use electronic_trading_ecosy.Exchange.MatchingEngine.Unmatched.{Unmatched, round-Unmatched}
use electronic_trading_ecosy.Exchange.Sequencer.{Sort}
use electronic_trading_ecosy.Exchange.OrderServer
use electronic_trading_ecosy.Exchange.OrderServer.{
  OrderServer, Sent, handle_request, recv_loop, recv_callback, recv_finished_callback,
  send_response,
}
use electronic_trading_ecosy.Exchange.System.{
  System, new_system, server_view, publisher_view, Step, receives, sequences, responds, processes,
  publishes, Steps, no_step, then_step,
}
use electronic_trading_ecosy.Exchange.System.Queues.{
  Slots, NoFill, NoTrade, SendsNoFill-keeps, get_next_to_read-Slots,
}
use electronic_trading_ecosy.Exchange.System.Ends.{
  IsNoFill, IsNoTrade, recv_callback-SameSending, send_response-NoFill, publish_updates-NoTrade,
}

-- what every reachable state of the exchange has
pub record Unfilled (s : System) : Type 0 where
  pub heads : (t : ℕ) → HeadsNull (s.engine.books t)
  pub responses : Slots NoFill s.engine.outgoing.responses
  pub updates : Slots NoTrade s.engine.outgoing.updates
  pub sent : (socket : ℕ) → All IsNoFill (s.server.sent socket)
  pub published : All IsNoTrade s.publisher.sent

new_system-Unfilled :
    (limits : Limits) (clients : ℕ → ℕ → ℕ → Option ℕ) (levels : ℕ → ℕ → Option ℕ)
    → Unfilled (new_system limits clients levels)
unfolding new_system LfQueue.init MatchingEngine.new_engine MatchingEngine.new_book
    OrderServer.new_server
new_system-Unfilled limits clients levels = record {
  heads = λ t. record { bids = refl; asks = refl };
  responses = λ i e. cc;
  updates = λ i e. cc;
  sent = λ socket. tt;
  published = tt;
}

module _ (wire : Wire OmClientRequest) (std : Sort) where
  Step-Unfilled : {s s' : System} → Step wire std s s' → Unfilled s → Unfilled s'
  unfolding recv_finished_callback
  Step-Unfilled {s} (receives socket rx_time bytes rest server e) u =
      let (sent, responses) =
        recv_callback-SameSending wire socket rx_time bytes (server_view s) e in
      record {
        heads = u.heads;
        responses = rw responses u.responses;
        updates = u.updates;
        sent = rw sent u.sent;
        published = u.published;
      }
  Step-Unfilled sequences u = record {
    heads = u.heads;
    responses = u.responses;
    updates = u.updates;
    sent = u.sent;
    published = u.published;
  }
  Step-Unfilled {s} (responds r server next waits e) u =
      let other : NoFill r =
        get_next_to_read-Slots NoFill s.engine.outgoing.responses next u.responses in
      let (sent, store) = send_response-NoFill r (server_view s) e other u.sent in
      record {
        heads = u.heads;
        responses = λ i. rw store (u.responses i);
        updates = u.updates;
        sent = sent;
        published = u.published;
      }
  Step-Unfilled {s} (processes engine e) u =
      let m : Unmatched s.engine engine =
        round-Unmatched s.engine s.engine (record { heads = u.heads; sends = nothing }) e in
      let (no_fill, no_trade) = SendsNoFill-keeps m.sends (u.responses, u.updates) in
      record {
        heads = m.heads;
        responses = no_fill;
        updates = no_trade;
        sent = u.sent;
        published = u.published;
      }
  Step-Unfilled {s} (publishes fuel publisher e) u =
      let (slots, published) =
        publish_updates-NoTrade fuel (publisher_view s) e u.updates u.published in
      record {
        heads = u.heads;
        responses = u.responses;
        updates = slots;
        sent = u.sent;
        published = published;
      }

  Steps-Unfilled : {s s' : System} → Steps wire std s s' → Unfilled s → Unfilled s'
  Steps-Unfilled no_step u = u
  Steps-Unfilled (then_step before step) u = Step-Unfilled step (Steps-Unfilled before u)

  -- Whatever the exchange's clients send, and however the steps of its threads follow one another, no
  -- client is ever sent a response of type FILLED, no update of type TRADE is ever published, and no
  -- book ever has a best level.
  pub Steps-new_system :
      (limits : Limits) (clients : ℕ → ℕ → ℕ → Option ℕ) (levels : ℕ → ℕ → Option ℕ) {s : System}
      → Steps wire std (new_system limits clients levels) s
      → ((socket : ℕ) → All IsNoFill (s.server.sent socket))
        × All IsNoTrade s.publisher.sent
        × ((t : ℕ) → HeadsNull (s.engine.books t))
  Steps-new_system limits clients levels steps =
      let u = Steps-Unfilled steps (new_system-Unfilled limits clients levels) in
      (u.sent, u.published, u.heads)
