-- ===== src/Exchange/MatchingEngine.antt =====
-- exchange/matcher/matching_engine.h and matching_engine.cpp: the books, their queues, and a round of
-- the engine's thread. Logging is left out.
pub mod Unmatched
mod Tests
use electronic_trading_ecosy.Base.{
  ℕ, Bool, true, false, Option, none, some, Outcome, ok, fault, fatal, undefined, ◌>>=◌, ◌>>◌, ltb,
  if◌then◌else◌, update, List, [], ◌∷◌, zero, suc,
}
use electronic_trading_ecosy.Common.LfQueue
use electronic_trading_ecosy.Common.LfQueue.{LfQueue}
use electronic_trading_ecosy.Common.MemPool
use electronic_trading_ecosy.Common.Types.{
  Side, Limits, order_id_invalid, ticker_id_invalid, client_id_invalid, price_invalid, qty_invalid,
  priority_invalid,
}
use electronic_trading_ecosy.Exchange.Messages.{MeClientRequest, ClientRequestType}
use electronic_trading_ecosy.Exchange.OrderBook.{Book, Order, PriceLevel, Outgoing}
use electronic_trading_ecosy.Exchange.OrderBook.Requests.{add, cancel}

pub record Engine : Type 0 where
  pub limits : Limits
  pub books : ℕ → Book
  pub incoming_requests : LfQueue MeClientRequest
  pub outgoing : Outgoing

abbrev pub default_order : Order
default_order = record {
  ticker_id = ticker_id_invalid;
  client_id = client_id_invalid;
  client_order_id = order_id_invalid;
  market_order_id = order_id_invalid;
  side = Side.invalid;
  price = price_invalid;
  qty = qty_invalid;
  priority = priority_invalid;
  prev_order = none;
  next_order = none;
}

abbrev pub default_level : PriceLevel
default_level = record {
  side = Side.invalid;
  price = price_invalid;
  first_order = none;
  prev_price_level = none;
  next_price_level = none;
}

-- `MEOrderBook(tickerId, …)`. The constructor leaves both arrays unwritten: `clients` and `levels`
-- are what the memory holds.
unfoldable pub new_book :
    Limits → (ticker_id : ℕ) → (clients : ℕ → ℕ → Option ℕ) → (levels : ℕ → Option ℕ) → Book
new_book limits ticker_id clients levels = record {
  limits = limits;
  ticker_id = ticker_id;
  client_orders = clients;
  bid_levels_head = none;
  ask_levels_head = none;
  price_levels = levels;
  price_levels_pool = MemPool.init limits.max_price_levels default_level;
  order_pool = MemPool.init limits.max_order_ids default_order;
  next_market_order_id = 1;
}

-- the constructor: a book for each ticker
unfoldable pub new_engine :
    Limits
    → (clients : ℕ → ℕ → ℕ → Option ℕ) (levels : ℕ → ℕ → Option ℕ) → LfQueue MeClientRequest
    → Outgoing
    → Engine
unfolding new_book
new_engine limits clients levels requests outgoing = record {
  limits = limits;
  books = λ i. new_book limits i (clients i) (levels i);
  incoming_requests = requests;
  outgoing = outgoing;
}

-- The call of the book that a request asks for.
unfoldable pub dispatch :
    ClientRequestType → MeClientRequest → Book → Outgoing → Outcome (Book × Outgoing)
dispatch ClientRequestType.new r = add r.client_id r.order_id r.ticker_id r.side r.price r.qty
dispatch ClientRequestType.cancel r = cancel r.client_id r.order_id r.ticker_id
dispatch ClientRequestType.invalid r = λ b out. fault fatal
dispatch (ClientRequestType.unnamed byte) r = λ b out. fault fatal

-- `ticker_order_book_[…]` does not test its index.
unfoldable pub process_client_request : MeClientRequest → Engine → Outcome Engine
unfolding dispatch
process_client_request r m =
    if ltb r.ticker_id m.limits.max_tickers
    then (do
      (b, out) ← dispatch r.request_type r (m.books r.ticker_id) m.outgoing
      ok (record m { books = update m.books r.ticker_id b; outgoing = out }))
    else fault undefined

-- A round of `run`: the next request, if there is one, is processed and then taken off the queue.
unfoldable pub round : Engine → Outcome Engine
round m = elim (LfQueue.get_next_to_read m.incoming_requests) [
  | none ↦ ok m
  | some r ↦ do
    m' ← process_client_request r m
    requests ← LfQueue.update_read_index m'.incoming_requests
    ok (record m' { incoming_requests = requests })
]

-- The order server's thread puts requests on the queue between the rounds.
pub data Event : Type 0 where
  request : MeClientRequest → Event
  turn : Event

unfoldable pub run : Engine → List Event → Outcome Engine
run m [] = ok m
run m (request r ∷ es) =
    run (record m { incoming_requests = LfQueue.write m.incoming_requests r }) es
run m (turn ∷ es) = do m' ← round m; run m' es
