-- ===== src/Exchange/OrderBook/Priority/Leaving.antt =====
-- `removeOrder` of an order whose level holds others too.
use electronic_trading_ecosy.Base.{
  ℕ, ◌<◌, ◌≡◌, ◌≢◌, refl, ap, ◌∙◌, true, false, none, some, List, [], ◌∷◌, ◌++◌, Option, ok, arith,
  update,
}
use electronic_trading_ecosy.Base.Pointers.{contains, NoRepeats-append}
use electronic_trading_ecosy.Common.MemPool
use electronic_trading_ecosy.Exchange.OrderBook.{Book, Order, order_at, get_price_level}
use electronic_trading_ecosy.Exchange.OrderBook.Orders.{
  unlink_order, detach_order, record_order, remove_order, set_client_order,
}
use electronic_trading_ecosy.Exchange.OrderBook.Rings.{
  last_of, contains-last_of, contains_ne, Linked-end, Linked-split,
}
use electronic_trading_ecosy.Exchange.OrderBook.Priority.{
  next_of, prev_of, terms, HoldsAll, SameTerms,
}
use electronic_trading_ecosy.Exchange.OrderBook.Priority.Unlink.{unlink_order-HoldsAll}

single_apart : (q p : ℕ) (ps : List ℕ) → contains q (p ∷ ps) ≡ false → q ≢ p
single_apart q p ps h = ground arith

-- The order before one of several is another.
prev_of-other :
    (b : Book) (level : ℕ) (front : List ℕ) (p : ℕ) (back : List ℕ)
    → HoldsAll b level (front ++ p ∷ back)
    → front ++ back ≢ []
    → (q : ℕ) × (prev_of b p ≡ some q) × (q ≢ p)
prev_of-other b level [] p [] holds others = absurd (others refl)
prev_of-other b level [] p (z ∷ zs) holds others =
    let (path, (absent, _)) = holds.ring in
    let (_, from_p) = Linked-end (next_of b) (prev_of b) p (z ∷ zs) p path in
    (last_of z zs, from_p, contains_ne (last_of z zs) p (z ∷ zs) (contains-last_of z zs) absent)
prev_of-other b level (first ∷ xs) p back holds others =
    let (path, once) = holds.ring in
    let (_, _, apart) = NoRepeats-append (first ∷ xs) (p ∷ back) once in
    let (front, _) = Linked-split (next_of b) (prev_of b) first xs p back first path in
    let (_, from_p) = Linked-end (next_of b) (prev_of b) first xs p front in
    (
      last_of first xs,
      from_p,
      single_apart (last_of first xs) p back (apart (last_of first xs) (contains-last_of first xs)),
    )

unlink_order-frame :
    (b : Book) (l : Option ℕ) (p : ℕ) {b' : Book}
    → unlink_order b l p ≡ ok b'
    → (b'.limits ≡ b.limits)
      × (b'.order_pool.is_free ≡ b.order_pool.is_free)
      × (b'.order_pool.size ≡ b.order_pool.size)
unfolding unlink_order
unlink_order-frame b l p e = ground arith

detach_order-unlinks :
    (b : Book) (p : ℕ) {q : ℕ}
    → prev_of b p ≡ some q
    → q ≢ p
    → detach_order b p ≡ unlink_order b (get_price_level b (order_at b p).price) p
unfolding detach_order
detach_order-unlinks b p before other = rw before (ground (arith, other))

-- the book without the client's entry and with the order's block free
abbrev pub left_by : Book → Order → ℕ → Book
left_by b o p =
    let b1 = set_client_order b o.client_id o.client_order_id none in
    record b1 { order_pool = record b1.order_pool { is_free = update b.order_pool.is_free p true } }

remove_order-steps :
    (b : Book) (p : ℕ) {b1 : Book}
    → detach_order b p ≡ ok b1
    → terms (order_at b1 p) ≡ terms (order_at b p)
    → (order_at b p).client_id < b1.limits.max_num_clients
    → (order_at b p).client_order_id < b1.limits.max_order_ids
    → p < b1.order_pool.size
    → b1.order_pool.is_free p ≡ false
    → remove_order b p ≡ ok (left_by b1 (order_at b p) p)
unfolding remove_order record_order MemPool.deallocate
remove_order-steps b p {b1} detached same client number inside used =
    let c : (order_at b1 p).client_id ≡ (order_at b p).client_id = ap (λ o. o.client_id) same in
    let n : (order_at b1 p).client_order_id ≡ (order_at b p).client_order_id =
      ap (λ o. o.client_order_id) same in
    rw (remove_order, detached, record_order, c, n) (ground (arith, client, number, inside, used))

left_by-HoldsAll :
    (b : Book) (o : Order) (p level : ℕ) (orders : List ℕ)
    → HoldsAll b level orders
    → HoldsAll (left_by b o p) level orders
left_by-HoldsAll b o p level [] h = h
left_by-HoldsAll b o p level (first ∷ rest) h = record {
  first_order = h.first_order;
  ring = h.ring;
}

left_by-frees :
    (b : Book) (o : Order) (p : ℕ)
    → ((left_by b o p).client_orders o.client_id o.client_order_id ≡ none)
      × ((left_by b o p).order_pool.is_free p ≡ true)
unfolding update
left_by-frees b o p = ground arith

-- The removal of an order whose block is in use, whose client's numbers are within bounds, and whose
-- price's level holds other orders too, succeeds: the level keeps the others in their order, nothing
-- stands under the client's identifier, the block is free, and no order's terms change.
pub remove_order-HoldsAll :
    (b : Book) (level : ℕ) (front : List ℕ) (p : ℕ) (back : List ℕ)
    → HoldsAll b level (front ++ p ∷ back)
    → front ++ back ≢ []
    → get_price_level b (order_at b p).price ≡ some level
    → (order_at b p).client_id < b.limits.max_num_clients
    → (order_at b p).client_order_id < b.limits.max_order_ids
    → p < b.order_pool.size
    → b.order_pool.is_free p ≡ false
    → (b' : Book) × (remove_order b p ≡ ok b')
      × HoldsAll b' level (front ++ back)
      × (b'.client_orders (order_at b p).client_id (order_at b p).client_order_id ≡ none)
      × (b'.order_pool.is_free p ≡ true)
      × SameTerms b b'
remove_order-HoldsAll b level front p back holds others found client number inside used =
    let o : Order = order_at b p in
    let (q, before, other) = prev_of-other b level front p back holds others in
    let (b1, unlinked, kept, same) = unlink_order-HoldsAll b level front p back holds others in
    let detached : detach_order b p ≡ ok b1 =
      detach_order-unlinks b p before other ∙ ap (λ l. unlink_order b l p) found ∙ unlinked in
    let (limits, free, size) = unlink_order-frame b (some level) p unlinked in
    let (entry, freed) = left_by-frees b1 o p in
    (
      left_by b1 o p,
      remove_order-steps b p detached (same p) (rw limits client) (rw limits number)
          (rw size inside) (ap (λ f. f p) free ∙ used),
      left_by-HoldsAll b1 o p level (front ++ back) kept,
      entry,
      freed,
      same,
    )
