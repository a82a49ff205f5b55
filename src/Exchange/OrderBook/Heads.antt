-- ===== src/Exchange/OrderBook/Heads.antt =====
-- The heads of the two sides of a book.
use electronic_trading_ecosy.Base.{
  ℕ, ◌≡◌, ◌∙◌, Option, none, some, ok, ◌>>=◌, >>=-eq-ok, arith, Option-cases, inl, inr,
}
use electronic_trading_ecosy.Common.MemPool
use electronic_trading_ecosy.Exchange.OrderBook.{Book, order_at, get_price_level}
use electronic_trading_ecosy.Exchange.OrderBook.Levels.{
  add_orders_at_price, unlink_level, remove_price_level,
}
use electronic_trading_ecosy.Exchange.OrderBook.Orders.{
  add_order_new_level, append_order, place_order, record_order, add_order, unlink_order,
  detach_order, remove_order,
}

-- `b'` has the heads of `b`.
pub record SameHeads (b b' : Book) : Type 0 where
  pub bids : b'.bid_levels_head ≡ b.bid_levels_head
  pub asks : b'.ask_levels_head ≡ b.ask_levels_head

-- No level is reachable from the book's heads.
pub record HeadsNull (b : Book) : Type 0 where
  pub bids : b.bid_levels_head ≡ none
  pub asks : b.ask_levels_head ≡ none

SameHeads-trans : {a b c : Book} → SameHeads a b → SameHeads b c → SameHeads a c
SameHeads-trans p q = record { bids = q.bids ∙ p.bids; asks = q.asks ∙ p.asks }

pub HeadsNull-same : {a b : Book} → SameHeads a b → HeadsNull a → HeadsNull b
HeadsNull-same s h = record { bids = s.bids ∙ h.bids; asks = s.asks ∙ h.asks }

add_orders_at_price-SameHeads :
    (b : Book) (p : ℕ) {b' : Book} → HeadsNull b → add_orders_at_price b p ≡ ok b' → SameHeads b b'
unfolding add_orders_at_price
add_orders_at_price-SameHeads b p h e = ground arith

unlink_level-SameHeads : (b : Book) (p : ℕ) {b' : Book} → unlink_level b p ≡ ok b' → SameHeads b b'
unfolding unlink_level
unlink_level-SameHeads b p e = ground arith

remove_price_level-SameHeads :
    (b : Book) (price : ℕ) {b' : Book} → remove_price_level b price ≡ ok b' → SameHeads b b'
unfolding remove_price_level
remove_price_level-SameHeads b p e = ground arith

append_order-SameHeads :
    (b : Book) (l p : ℕ) {b' : Book} → append_order b l p ≡ ok b' → SameHeads b b'
unfolding append_order
append_order-SameHeads b l p e = ground arith

unlink_order-SameHeads :
    (b : Book) (l : Option ℕ) (p : ℕ) {b' : Book} → unlink_order b l p ≡ ok b' → SameHeads b b'
unfolding unlink_order
unlink_order-SameHeads b l p e = ground arith

detach_order-SameHeads : (b : Book) (p : ℕ) {b' : Book} → detach_order b p ≡ ok b' → SameHeads b b'
unfolding detach_order
detach_order-SameHeads b p {b'} e = ground (
  arith,
  remove_price_level-SameHeads b (order_at b p).price {b' = b'},
  unlink_order-SameHeads b (get_price_level b (order_at b p).price) p {b' = b'},
)

record_order-SameHeads :
    (b : Book) (p : ℕ) (entry : Option ℕ) {b' : Book}
    → record_order b p entry ≡ ok b'
    → SameHeads b b'
unfolding record_order
record_order-SameHeads b p entry e = ground arith

-- Removing an order never changes a head, also where the head's own level goes.
pub remove_order-SameHeads :
    (b : Book) (p : ℕ) {b' : Book} → remove_order b p ≡ ok b' → SameHeads b b'
unfolding remove_order
remove_order-SameHeads b p {b'} e =
    let (b1, e1, r1) = >>=-eq-ok (detach_order b p) _ e in
    let (b2, e2, r2) = >>=-eq-ok (record_order b1 p none) _ r1 in
    SameHeads-trans (detach_order-SameHeads b p e1)
      (SameHeads-trans (record_order-SameHeads b1 p none e2) (freed b2 r2))
  where
    freed :
        (c : Book)
        → (MemPool.deallocate c.order_pool p >>= λ pool. ok (record c { order_pool = pool }))
          ≡ ok b'
        → SameHeads c b'
    freed c r = ground arith

add_order_new_level-SameHeads :
    (b : Book) (p : ℕ) {b' : Book} → HeadsNull b → add_order_new_level b p ≡ ok b' → SameHeads b b'
unfolding add_order_new_level
add_order_new_level-SameHeads b p h e =
    let ((level, pool), e1, r1) = >>=-eq-ok (MemPool.allocate _ _) _ e in
    let s = add_orders_at_price-SameHeads _ level (record { bids = h.bids; asks = h.asks }) r1 in
    record { bids = s.bids; asks = s.asks }

place_order-SameHeads :
    (b : Book) (p : ℕ) {b' : Book} → HeadsNull b → place_order b p ≡ ok b' → SameHeads b b'
unfolding place_order
place_order-SameHeads b p {b'} h e = elim (Option-cases (get_price_level b (order_at b p).price)) [
  | inl free ↦ add_order_new_level-SameHeads b p h (rw (free, place_order) at e)
  | inr (level, taken) ↦ append_order-SameHeads b level p (rw (taken, place_order) at e)
]

pub add_order-SameHeads :
    (b : Book) (p : ℕ) {b' : Book} → HeadsNull b → add_order b p ≡ ok b' → SameHeads b b'
unfolding add_order
add_order-SameHeads b p h e =
    let (b1, e1, r1) = >>=-eq-ok (place_order b p) _ e in
    SameHeads-trans (place_order-SameHeads b p h e1) (record_order-SameHeads b1 p (some p) r1)
