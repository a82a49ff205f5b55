-- ===== src/Exchange/OrderBook/Placing.antt =====
-- The place that `addOrder` gives an order in a book with null heads.
use electronic_trading_ecosy.Base.{
  ℕ, ◌%◌, ◌≡◌, sym, ap, ◌∙◌, Option, some, ok, arith, >>=-eq-ok, Option-cases, inl, inr, update,
  update_self,
}
use electronic_trading_ecosy.Common.MemPool
use electronic_trading_ecosy.Common.MemPool.{MemPool}
use electronic_trading_ecosy.Common.MemPool.Search.{allocate_lem}
use electronic_trading_ecosy.Exchange.OrderBook.{
  Book, order_at, level_at, get_price_level, price_to_index,
}
use electronic_trading_ecosy.Exchange.OrderBook.Levels.{add_orders_at_price}
use electronic_trading_ecosy.Exchange.OrderBook.Orders.{
  set_prev_order, set_next_order, append_order, add_order_new_level, place_order, record_order,
  add_order,
}
use electronic_trading_ecosy.Exchange.OrderBook.Heads.{HeadsNull}
use electronic_trading_ecosy.Exchange.OrderBook.Priority.{terms, SameTerms}
use electronic_trading_ecosy.Exchange.OrderBook.Priority.Append.{append_order-SameTerms}

-- What `addOrder` keeps and does: it changes no order's terms, and the order's price has a level.
pub record IsPlaced (b : Book) (price : ℕ) (b' : Book) : Type 0 where
  pub same : SameTerms b b'
  pub blocks : b'.order_pool.is_free ≡ b.order_pool.is_free
  pub level : (l : ℕ) × (get_price_level b' price ≡ some l)

set_links-SameTerms :
    (b : Book) (p : ℕ) (q : Option ℕ) → SameTerms b (set_next_order (set_prev_order b p q) p q)
unfolding update
set_links-SameTerms b p q i = ground arith

append_order-arrays :
    (b : Book) (level p : ℕ) {b' : Book}
    → append_order b level p ≡ ok b'
    → (b'.order_pool.is_free ≡ b.order_pool.is_free)
      × (b'.price_levels ≡ b.price_levels)
      × (b'.limits ≡ b.limits)
unfolding append_order
append_order-arrays b level p e = ground arith

add_orders_at_price-arrays :
    (b : Book) (level : ℕ) {b' : Book}
    → HeadsNull b
    → add_orders_at_price b level ≡ ok b'
    → (b'.order_pool ≡ b.order_pool)
      × (b'.limits ≡ b.limits)
      × (b'.price_levels
          ≡ update b.price_levels (price_to_index b (level_at b level).price) (some level))
unfolding add_orders_at_price
add_orders_at_price-arrays b level h e = ground (arith, h.bids, h.asks)

-- a level under the price that its array's entry is found by
found_level :
    (b b2 : Book) (p_price price level : ℕ)
    → p_price ≡ price
    → b.limits ≡ b2.limits
    → b.price_levels ≡ update b2.price_levels (price_to_index b2 p_price) (some level)
    → get_price_level b price ≡ some level
unfolding get_price_level price_to_index
found_level b b2 p_price price level same limits levels =
    ap (λ f. f (price % b.limits.max_price_levels)) levels
    ∙ rw (limits, same)
        (update_self b2.price_levels (price % b2.limits.max_price_levels) (some level))

pub allocated-object :
    {A : Type 0} (pool : MemPool A) (obj : A) {p : ℕ} {pool' : MemPool A}
    → MemPool.allocate pool obj ≡ ok (p, pool')
    → pool'.object p ≡ obj
allocated-object pool obj {p} e =
    let (_, _, same, _, _, _, _) = allocate_lem pool obj e in
    ap (λ q. q.object p) same ∙ update_self pool.object p obj

add_order_new_level-IsPlaced :
    (b : Book) (p : ℕ) {b' : Book}
    → HeadsNull b
    → add_order_new_level b p ≡ ok b'
    → IsPlaced b (order_at b p).price b'
unfolding add_order_new_level
add_order_new_level-IsPlaced b p {b'} h e =
    let b1 : Book = set_next_order (set_prev_order b p (some p)) p (some p) in
    let linked : SameTerms b b1 = set_links-SameTerms b p (some p) in
    let ((level, pool), e1, r1) = >>=-eq-ok (MemPool.allocate b1.price_levels_pool _) _ e in
    let b2 : Book = record b1 { price_levels_pool = pool } in
    let (orders, limits, levels) =
      add_orders_at_price-arrays b2 level (record { bids = h.bids; asks = h.asks }) r1 in
    let price : (level_at b2 level).price ≡ (order_at b p).price =
      ap (λ l. l.price) (allocated-object b1.price_levels_pool _ e1)
      ∙ ap (λ o. o.price) (linked p) in
    record {
      same = λ i. ap (λ m. terms (m.object i)) orders ∙ linked i;
      blocks = ap (λ m. m.is_free) orders;
      level = (
        level,
        found_level b' b2 (level_at b2 level).price (order_at b p).price level price limits levels,
      );
    }

place_order-IsPlaced :
    (b : Book) (p : ℕ) {b' : Book}
    → HeadsNull b
    → place_order b p ≡ ok b'
    → IsPlaced b (order_at b p).price b'
unfolding place_order get_price_level price_to_index
place_order-IsPlaced b p {b'} h e = elim (Option-cases (get_price_level b (order_at b p).price)) [
  | inl free ↦ add_order_new_level-IsPlaced b p h (rw (free, place_order) at e)
  | inr (level, taken) ↦
      let e1 : append_order b level p ≡ ok b' = rw (taken, place_order) at e in
      let (blocks, levels, limits) = append_order-arrays b level p e1 in
      record {
        same = append_order-SameTerms b level p e1;
        blocks = blocks;
        level = (
          level,
          ap (λ f. f ((order_at b p).price % b'.limits.max_price_levels)) levels
              ∙ ap (λ m. b.price_levels ((order_at b p).price % m.max_price_levels)) limits
              ∙ taken,
        );
      }
]

record_order-entry :
    (b : Book) (p : ℕ) {b' : Book}
    → record_order b p (some p) ≡ ok b'
    → (b'.client_orders (order_at b p).client_id (order_at b p).client_order_id ≡ some p)
      × (b'.order_pool ≡ b.order_pool)
      × (b'.price_levels ≡ b.price_levels)
      × (b'.limits ≡ b.limits)
unfolding record_order update
record_order-entry b p e = ground arith

pub add_order-IsPlaced :
    (b : Book) (p : ℕ) {b' : Book}
    → HeadsNull b
    → add_order b p ≡ ok b'
    → IsPlaced b (order_at b p).price b'
      × (b'.client_orders (order_at b p).client_id (order_at b p).client_order_id ≡ some p)
unfolding add_order get_price_level price_to_index
add_order-IsPlaced b p {b'} h e =
    let (b1, e1, r1) = >>=-eq-ok (place_order b p) _ e in
    let placed = place_order-IsPlaced b p h e1 in
    let (entry, orders, levels, limits) = record_order-entry b1 p r1 in
    let (l, found) = placed.level in
    let o = placed.same p in
    (
      record {
        same = λ i. ap (λ m. terms (m.object i)) orders ∙ placed.same i;
        blocks = ap (λ m. m.is_free) orders ∙ placed.blocks;
        level = (
          l,
          ap (λ f. f ((order_at b p).price % b'.limits.max_price_levels)) levels
              ∙ ap (λ m. b1.price_levels ((order_at b p).price % m.max_price_levels)) limits
              ∙ found,
        );
      },
      sym (ap (λ o. b'.client_orders o.client_id o.client_order_id) o) ∙ entry,
    )
