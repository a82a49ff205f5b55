-- ===== src/Exchange/OrderBook/Removal.antt =====
-- What becomes of an order that is cancelled.
use electronic_trading_ecosy.Base.{
  ℕ, ◌<◌, ◌≡◌, sym, ap, ◌∙◌, Bool, true, false, Option, none, some, ok, ◌>>=◌, update, >>=-eq-ok,
  ok-injective, Bool-cases, inl, inr, arith, ltb, lt→ltb, if◌then◌else◌, in_range, deref, same_ptr,
}
use electronic_trading_ecosy.Common.MemPool
use electronic_trading_ecosy.Exchange.OrderBook.{
  Book, PriceLevel, Outgoing, order_at, set_level, get_price_level,
}
use electronic_trading_ecosy.Exchange.OrderBook.Levels.{remove_price_level, unlink_level}
use electronic_trading_ecosy.Exchange.OrderBook.Orders.{
  unlink_order, detach_order, record_order, remove_order, set_prev_order, set_next_order,
}
use electronic_trading_ecosy.Exchange.OrderBook.Requests.{cancelled_order, cancel}

-- Every order of `b'` has the client and the client's identifier that it has in `b`.
abbrev pub SameOwners : Book → Book → Type 0
SameOwners b b' =
    (q : ℕ)
    → ((order_at b' q).client_id ≡ (order_at b q).client_id)
      × ((order_at b' q).client_order_id ≡ (order_at b q).client_order_id)

set_prev_order-SameOwners : (b : Book) (p : ℕ) (o : Option ℕ) → SameOwners b (set_prev_order b p o)
unfolding update
set_prev_order-SameOwners b p o q = (ground arith, ground arith)

set_next_order-SameOwners : (b : Book) (p : ℕ) (o : Option ℕ) → SameOwners b (set_next_order b p o)
unfolding update
set_next_order-SameOwners b p o q = (ground arith, ground arith)

remove_price_level-order_pool :
    (b : Book) (price : ℕ) {b' : Book}
    → remove_price_level b price ≡ ok b'
    → b'.order_pool ≡ b.order_pool
unfolding remove_price_level unlink_level
remove_price_level-order_pool b price e = ground arith

SameOwners-trans : (a b c : Book) → SameOwners a b → SameOwners b c → SameOwners a c
SameOwners-trans a b c f g q = ((g q).0 ∙ (f q).0, (g q).1 ∙ (f q).1)

-- A level that may be written does not touch the orders.
level-order_pool :
    (c : Bool) (b b' : Book) (l : ℕ) (lv : PriceLevel)
    → ok (if c then set_level b l lv else b) ≡ ok b'
    → b'.order_pool ≡ b.order_pool
level-order_pool true b b' l lv e = ap (λ (x : Book). x.order_pool) (sym (ok-injective e))
level-order_pool false b b' l lv e = ap (λ (x : Book). x.order_pool) (sym (ok-injective e))

unlink_order-SameOwners :
    (b : Book) (level : Option ℕ) (p : ℕ) {b' : Book}
    → unlink_order b level p ≡ ok b'
    → SameOwners b b'
unfolding unlink_order
unlink_order-SameOwners b level p {b'} e =
    let (before, _, e1) = >>=-eq-ok (deref (order_at b p).prev_order) _ e in
    let b1 : Book = set_next_order b before (order_at b p).next_order in
    let (after, _, e2) = >>=-eq-ok (deref (order_at b p).next_order) _ e1 in
    let b2 : Book = set_prev_order b1 after (some before) in
    let (l, _, e3) = >>=-eq-ok (deref level) _ e2 in
    let kept : b'.order_pool ≡ b2.order_pool = level-order_pool _ b2 b' l _ e3 in
    let two : SameOwners b b2 =
      SameOwners-trans b b1 b2 (set_next_order-SameOwners b before (order_at b p).next_order)
        (set_prev_order-SameOwners b1 after (some before)) in
    λ q. (
      ap (λ m. (m.object q).client_id) kept ∙ (two q).0,
      ap (λ m. (m.object q).client_order_id) kept ∙ (two q).1,
    )

detach_order-SameOwners :
    (b : Book) (p : ℕ) {b' : Book} → detach_order b p ≡ ok b' → SameOwners b b'
unfolding detach_order
detach_order-SameOwners b p {b'} e =
    elim (Bool-cases (same_ptr (order_at b p).prev_order (some p))) [
      | inl alone ↦
          let e1 : remove_price_level b (order_at b p).price ≡ ok b' = rw alone at e in
          let same = remove_price_level-order_pool b (order_at b p).price e1 in
          λ q. (ap (λ m. (m.object q).client_id) same, ap (λ m. (m.object q).client_order_id) same)
      | inr linked ↦
          unlink_order-SameOwners b (get_price_level b (order_at b p).price) p (rw linked at e)
    ]

record_order-none :
    (b : Book) (p : ℕ) {b' : Book}
    → record_order b p none ≡ ok b'
    → b'.client_orders (order_at b p).client_id (order_at b p).client_order_id ≡ none
unfolding record_order update
record_order-none b p e = ground arith

freed :
    (b : Book) (p : ℕ) {b' : Book}
    → (MemPool.deallocate b.order_pool p >>= λ pool. ok (record b { order_pool = pool })) ≡ ok b'
    → (b'.client_orders ≡ b.client_orders) × (b'.order_pool.is_free p ≡ true)
unfolding MemPool.deallocate update
freed b p e = (ground arith, ground arith)

-- A removal that goes through leaves the order's block free, and nothing under the client's
-- identifier of the order.
pub remove_order_lem :
    (b : Book) (p : ℕ) {b' : Book}
    → remove_order b p ≡ ok b'
    → (b'.client_orders (order_at b p).client_id (order_at b p).client_order_id ≡ none)
      × (b'.order_pool.is_free p ≡ true)
unfolding remove_order
remove_order_lem b p {b'} e =
    let (b1, e1, r1) = >>=-eq-ok (detach_order b p) _ e in
    let (own', id) = detach_order-SameOwners b p e1 p in
    let (b2, e2, r2) = >>=-eq-ok (record_order b1 p none) _ r1 in
    let (same, free) = freed b2 p r2 in
    (
      ap (λ f. f (order_at b p).client_id (order_at b p).client_order_id) same
          ∙ sym (ap (λ c. b2.client_orders c (order_at b p).client_order_id) own')
          ∙ sym (ap (b2.client_orders (order_at b1 p).client_id) id)
          ∙ record_order-none b1 p e2,
      free,
    )

-- A cancellation that goes through, of an order that its client's entry leads to and that carries the
-- client and the client's identifier, empties the entry and frees the order's block.
pub cancel-removes :
    (client_id client_order_id ticker_id p : ℕ) (b : Book) (out : Outgoing) {r : Book × Outgoing}
    → client_id < b.limits.max_num_clients
    → b.client_orders client_id client_order_id ≡ some p
    → (order_at b p).client_id ≡ client_id
    → (order_at b p).client_order_id ≡ client_order_id
    → cancel client_id client_order_id ticker_id b out ≡ ok r
    → (r.0.client_orders client_id client_order_id ≡ none) × (r.0.order_pool.is_free p ≡ true)
unfolding cancel cancelled_order
cancel-removes client_id client_order_id ticker_id p b out {r} inside there own' id h =
    let h0 = rw (lt→ltb client_id b.limits.max_num_clients inside) at h in
    let (_, _, h1) = >>=-eq-ok (in_range (ltb client_order_id b.limits.max_order_ids)) _ h0 in
    let h2 : cancelled_order client_id client_order_id ticker_id p b out ≡ ok r = rw there at h1 in
    let (b', e, h3) = >>=-eq-ok (remove_order b p) _ h2 in
    let (empty, free) = remove_order_lem b p e in
    let same : b' ≡ r.0 = ap (λ (x : Book × Outgoing). x.0) (ok-injective h3) in
    (
      sym (ap (λ (x : Book). x.client_orders client_id client_order_id) same)
          ∙ sym (ap (λ c. b'.client_orders c client_order_id) own')
          ∙ sym (ap (b'.client_orders (order_at b p).client_id) id)
          ∙ empty,
      sym (ap (λ (x : Book). x.order_pool.is_free p) same) ∙ free,
    )
