-- ===== src/Trading/MarketOrderBook/Heads.antt =====
-- The heads, the best prices and the entries of the client's book.
use mathlib.Core.Path.{subst}
use electronic_trading_ecosy.Base.{
  ℕ, zero, suc, ◌+◌, ◌≡◌, refl, ◌∙◌, none, List, [], ◌∷◌, ok, ◌>>=◌, >>=-eq-ok, ok-injective, arith,
  in_range, ltb, Option, deref, update, Option-cases, inl, inr,
}
use electronic_trading_ecosy.Common.MemPool
use electronic_trading_ecosy.Common.Types.{Limits}
use electronic_trading_ecosy.Exchange.Messages.{MarketUpdateType, MeMarketUpdate}
use electronic_trading_ecosy.Trading.MarketOrderBook.{
  MarketOrderBook, new_book, order_at, get_price_level,
}
use electronic_trading_ecosy.Trading.MarketOrderBook.Levels.{add_orders_at_price_level}
use electronic_trading_ecosy.Trading.MarketOrderBook.Updates.{
  add_order_new_level, append_order, place_order, add_order, clear_orders, clear_levels,
  check_best_offer, on_market_update_type, on_market_update, get_bbo, run,
}

-- Neither a head nor a best price is set.
pub record IsBlind (b : MarketOrderBook) : Type 0 where
  pub bids : b.bid_price_levels ≡ none
  pub asks : b.ask_price_levels ≡ none
  pub best_bid : b.best_bid ≡ none
  pub best_ask : b.best_ask ≡ none

pub new_book-IsBlind :
    (limits : Limits) (orders levels : ℕ → Option ℕ) → IsBlind (new_book limits orders levels)
unfolding new_book
new_book-IsBlind limits orders levels = record {
  bids = refl;
  asks = refl;
  best_bid = refl;
  best_ask = refl;
}

add_orders_at_price_level-IsBlind :
    (b : MarketOrderBook) (level : ℕ) {b' : MarketOrderBook}
    → IsBlind b
    → add_orders_at_price_level b level ≡ ok b'
    → IsBlind b'
unfolding add_orders_at_price_level
add_orders_at_price_level-IsBlind b level h e = record {
  bids = ground (arith, h.bids, h.asks);
  asks = ground (arith, h.bids, h.asks);
  best_bid = ground (arith, h.bids, h.asks, h.best_bid);
  best_ask = ground (arith, h.bids, h.asks, h.best_ask);
}

append_order-IsBlind :
    (b : MarketOrderBook) (level p : ℕ) {b' : MarketOrderBook}
    → IsBlind b
    → append_order b level p ≡ ok b'
    → IsBlind b'
unfolding append_order
append_order-IsBlind b level p h e = record {
  bids = ground (arith, h.bids);
  asks = ground (arith, h.asks);
  best_bid = ground (arith, h.best_bid);
  best_ask = ground (arith, h.best_ask);
}

-- `b'` differs from `b` in its pools only.
IsBlind-pools :
    (b b' : MarketOrderBook)
    → IsBlind b
    → b'.bid_price_levels ≡ b.bid_price_levels
    → b'.ask_price_levels ≡ b.ask_price_levels
    → b'.best_bid ≡ b.best_bid
    → b'.best_ask ≡ b.best_ask
    → IsBlind b'
IsBlind-pools b b' h bids asks bid ask = record {
  bids = bids ∙ h.bids;
  asks = asks ∙ h.asks;
  best_bid = bid ∙ h.best_bid;
  best_ask = ask ∙ h.best_ask;
}

add_order_new_level-IsBlind :
    (b : MarketOrderBook) (p : ℕ) {r : ℕ × MarketOrderBook}
    → IsBlind b
    → add_order_new_level b p ≡ ok r
    → IsBlind r.1
unfolding add_order_new_level
add_order_new_level-IsBlind b p h e =
    let ((level, pool), e1, r1) = >>=-eq-ok (MemPool.allocate _ _) _ e in
    let (b2, e2, r2) = >>=-eq-ok (add_orders_at_price_level _ level) _ r1 in
    subst (λ x. IsBlind x.1) (ok-injective r2)
      (add_orders_at_price_level-IsBlind _ level (IsBlind-pools b _ h refl refl refl refl) e2)

place_order-IsBlind :
    (b : MarketOrderBook) (p : ℕ) {r : ℕ × MarketOrderBook}
    → IsBlind b
    → place_order b p ≡ ok r
    → IsBlind r.1
unfolding place_order
place_order-IsBlind b p h e = elim (Option-cases (get_price_level b (order_at b p).price)) [
  | inl free ↦ add_order_new_level-IsBlind b p h (rw (free, place_order) at e)
  | inr (level, taken) ↦
      let r : (append_order b level p >>= λ b1. ok (level, b1)) ≡ ok _ =
        rw (taken, place_order) at e in
      let (b1, e1, r1) = >>=-eq-ok (append_order b level p) _ r in
      subst (λ x. IsBlind x.1) (ok-injective r1) (append_order-IsBlind b level p h e1)
]

add_order-IsBlind :
    (b : MarketOrderBook) (p : ℕ) {b' : MarketOrderBook}
    → IsBlind b
    → add_order b p ≡ ok b'
    → IsBlind b'
unfolding add_order
add_order-IsBlind b p h e =
    let ((level, b1), e1, r1) = >>=-eq-ok (place_order b p) _ e in
    subst IsBlind (ok-injective r1)
      (IsBlind-pools b1 _ (place_order-IsBlind b p h e1) refl refl refl refl)

-- CLEAR frees orders and empties their entries.
clear_orders-IsBlind :
    (n i : ℕ) (b : MarketOrderBook) {b' : MarketOrderBook}
    → IsBlind b
    → clear_orders n i b ≡ ok b'
    → IsBlind b'
unfolding clear_orders
clear_orders-IsBlind zero i b h e = subst IsBlind (ok-injective e) h
clear_orders-IsBlind (suc n) i b h e = elim (Option-cases (b.order_id_to_order i)) [
  | inl empty ↦ clear_orders-IsBlind n (i + 1) b h (rw (empty, clear_orders) at e)
  | inr (p, there) ↦
      let r : (MemPool.deallocate b.order_pool p >>= λ pool.
      clear_orders n (i + 1)
        (record b { order_pool = pool; order_id_to_order = update b.order_id_to_order i none }))
          ≡ ok _ =
        rw (there, clear_orders) at e in
      let (pool, _, r1) = >>=-eq-ok (MemPool.deallocate b.order_pool p) _ r in
      clear_orders-IsBlind n (i + 1) _ (IsBlind-pools b _ h refl refl refl refl) r1
]

-- Without a head there are no levels that CLEAR would free.
clear-IsBlind :
    (b : MarketOrderBook) (u : MeMarketUpdate) {b' : MarketOrderBook}
    → IsBlind b
    → on_market_update_type MarketUpdateType.clear b u ≡ ok b'
    → IsBlind b'
unfolding on_market_update_type clear_levels
clear-IsBlind b u h e =
    let (b1, e1, r1) = >>=-eq-ok (clear_orders b.limits.max_order_ids 0 b) _ e in
    let h1 = clear_orders-IsBlind b.limits.max_order_ids 0 b h e1 in
    let r2 : ok (record b1 { bid_price_levels = none; ask_price_levels = none }) ≡ ok _ =
      rw (h1.bids, h1.asks) at r1 in
    subst IsBlind (ok-injective r2)
      (record { bids = refl; asks = refl; best_bid = h1.best_bid; best_ask = h1.best_ask })

on_market_update_type-IsBlind :
    (type : MarketUpdateType) (b : MarketOrderBook) (u : MeMarketUpdate) {b' : MarketOrderBook}
    → IsBlind b
    → on_market_update_type type b u ≡ ok b'
    → IsBlind b'
unfolding on_market_update_type
on_market_update_type-IsBlind MarketUpdateType.add b u h e =
    let ((p, pool), e1, r1) = >>=-eq-ok (MemPool.allocate b.order_pool _) _ e in
    add_order-IsBlind _ p (IsBlind-pools b _ h refl refl refl refl) r1
on_market_update_type-IsBlind MarketUpdateType.modify b u h e =
    let (_, _, r) = >>=-eq-ok (in_range (ltb u.order_id b.limits.max_order_ids)) _ e in
    let (p, _, r1) = >>=-eq-ok (deref (b.order_id_to_order u.order_id)) _ r in
    subst IsBlind (ok-injective r1) (IsBlind-pools b _ h refl refl refl refl)
on_market_update_type-IsBlind MarketUpdateType.cancel b u h e =
    let (_, _, r) = >>=-eq-ok (in_range (ltb u.order_id b.limits.max_order_ids)) _ e in
    subst IsBlind (ok-injective r) h
on_market_update_type-IsBlind MarketUpdateType.clear b u h e = clear-IsBlind b u h e
on_market_update_type-IsBlind MarketUpdateType.trade b u h e = subst IsBlind (ok-injective e) h
on_market_update_type-IsBlind MarketUpdateType.invalid b u h e = subst IsBlind (ok-injective e) h
on_market_update_type-IsBlind MarketUpdateType.snapshot_start b u h e =
    subst IsBlind (ok-injective e) h
on_market_update_type-IsBlind MarketUpdateType.snapshot_end b u h e =
    subst IsBlind (ok-injective e) h
on_market_update_type-IsBlind (MarketUpdateType.unnamed byte) b u h e =
    subst IsBlind (ok-injective e) h

pub run-IsBlind :
    (us : List MeMarketUpdate) (b : MarketOrderBook) {b' : MarketOrderBook}
    → IsBlind b
    → run b us ≡ ok b'
    → IsBlind b'
unfolding run on_market_update
run-IsBlind [] b h e = subst IsBlind (ok-injective e) h
run-IsBlind (u ∷ us) b h e =
    let (b1, e1, r1) = >>=-eq-ok (on_market_update b u) _ e in
    let (_, _, e2) = >>=-eq-ok (check_best_offer b u) _ e1 in
    run-IsBlind us b1 (on_market_update_type-IsBlind u.type b u h e2) r1

-- Whatever the memory of its two arrays holds at first, a book that is new has no best bid and no
-- best ask after any sequence of updates that it takes without a failure.
pub run-new_book :
    (limits : Limits) (orders levels : ℕ → Option ℕ) (us : List MeMarketUpdate)
    {b' : MarketOrderBook}
    → run (new_book limits orders levels) us ≡ ok b'
    → get_bbo b' ≡ record { bid_price = none; ask_price = none }
unfolding get_bbo
run-new_book limits orders levels us e =
    let start : MarketOrderBook = new_book limits orders levels in
    let h = run-IsBlind us start (new_book-IsBlind limits orders levels) e in
    rw (h.best_bid, h.best_ask) refl
