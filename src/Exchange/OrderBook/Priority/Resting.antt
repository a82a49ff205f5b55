-- ===== src/Exchange/OrderBook/Priority/Resting.antt =====
-- What is left of an incoming order, put at the end of its price's level by `add`.
use electronic_trading_ecosy.Base.{
  ℕ, ◌+◌, ◌%◌, ◌<◌, ◌≡◌, ◌≢◌, refl, sym, ap, ◌∙◌, true, false, some, List, [], ◌∷◌, ◌++◌, ok, arith,
  ◌==◌, update,
}
use electronic_trading_ecosy.Base.Pointers.{contains, contains-snoc}
use electronic_trading_ecosy.Common.MemPool
use electronic_trading_ecosy.Common.MemPool.{MemPool}
use electronic_trading_ecosy.Common.MemPool.Search.{allocate_lem}
use electronic_trading_ecosy.Common.Types.{u64_mod}
use electronic_trading_ecosy.Exchange.Messages.{MarketUpdateType}
use electronic_trading_ecosy.Exchange.OrderBook.{
  Book, Order, Outgoing, send_market_update, order_at, get_price_level, price_to_index,
  get_next_priority,
}
use electronic_trading_ecosy.Exchange.OrderBook.Orders.{
  append_order, place_order, record_order, add_order, set_client_order,
}
use electronic_trading_ecosy.Exchange.OrderBook.Matching.{Incoming, update_of}
use electronic_trading_ecosy.Exchange.OrderBook.Requests.{resting_order, rest_order}
use electronic_trading_ecosy.Exchange.OrderBook.Rings.{
  last_of, contains-last_of, contains_ne, Linked-end, Linked-new_end, or_right,
}
use electronic_trading_ecosy.Exchange.OrderBook.Priority.{next_of, prev_of, terms, Holds}
use electronic_trading_ecosy.Exchange.OrderBook.Priority.Rising.{
  priority_of, Rising, Rising-inside, get_next_priority-last, append_order-Rising,
}

-- no block of the list is free
abbrev pub AllInUse : Book → List ℕ → Type 0
AllInUse b ps = (k : ℕ) → contains k ps ≡ true → b.order_pool.is_free k ≡ false

-- the book with another pool of orders
abbrev pub with_pool : Book → MemPool Order → Book
with_pool b pool = record b { order_pool = pool }

-- The orders of a level in use are as before in a pool from which a block was allocated.
allocated-inside :
    (b : Book) (o : Order) (ps : List ℕ) {p : ℕ} {pool : MemPool Order}
    → AllInUse b ps
    → MemPool.allocate b.order_pool o ≡ ok (p, pool)
    → (contains p ps ≡ false)
      × (pool.object p ≡ o)
      × ((i : ℕ) → i ≢ p → pool.object i ≡ b.order_pool.object i)
unfolding update
allocated-inside b o ps {p} {pool} used e =
    let (at, free, same, _, _, _, _) = allocate_lem b.order_pool o e in
    let object : pool.object ≡ update b.order_pool.object p o = ap (λ q. q.object) same in
    (
      ground (arith, used p, free),
      rw object (ground arith),
      λ i differs. rw object (ground (arith, differs)),
    )

-- A level keeps its list of orders in a book where those orders are as before.
Holds-inside :
    (b : Book) (pool : MemPool Order) (level first : ℕ) (rest : List ℕ)
    → ((i : ℕ) → contains i (first ∷ rest) ≡ true → pool.object i ≡ b.order_pool.object i)
    → Holds b level first rest
    → Holds (with_pool b pool) level first rest
Holds-inside b pool level first rest same holds =
    let (path, once) = holds.ring in
    let b' : Book = with_pool b pool in
    let (to_first, from_first) = Linked-end (next_of b) (prev_of b) first rest first path in
    let head_in : contains first (first ∷ rest) ≡ true = ground arith in
    record {
      first_order = holds.first_order;
      ring = (
        Linked-new_end (next_of b) (prev_of b) (next_of b') (prev_of b') first rest first first once
            (λ i inside differs. ap (λ o. o.next_order) (same i inside))
            (λ i inside. ap (λ o. o.prev_order) (same i (or_right (i == first) inside)))
            (ap (λ o. o.next_order) (same (last_of first rest) (contains-last_of first rest))
              ∙ to_first)
            (ap (λ o. o.prev_order) (same first head_in) ∙ from_first) path,
        once,
      );
    }

-- `append_order` changes no limit, and what it finds of the pool's blocks stays in use.
append_order-frame :
    (b : Book) (l p : ℕ) {b' : Book}
    → append_order b l p ≡ ok b'
    → (b'.limits ≡ b.limits) × (b'.order_pool.is_free ≡ b.order_pool.is_free)
unfolding append_order
append_order-frame b l p e = ground arith

-- The orders of a level oldest first, of which no block is free: their priorities rise along the list.
pub record InTurn (b : Book) (level first : ℕ) (rest : List ℕ) : Type 0 where
  pub holds : Holds b level first rest
  pub in_use : AllInUse b (first ∷ rest)
  pub rising : Rising (priority_of b) first rest

record_order-known :
    (b : Book) (p : ℕ) (o : Order)
    → terms (order_at b p) ≡ o
    → o.client_id < b.limits.max_num_clients
    → o.client_order_id < b.limits.max_order_ids
    → record_order b p (some p) ≡ ok (set_client_order b o.client_id o.client_order_id (some p))
unfolding record_order
record_order-known b p o same client number =
    let c : (order_at b p).client_id ≡ o.client_id = ap (λ o. o.client_id) same in
    let n : (order_at b p).client_order_id ≡ o.client_order_id = ap (λ o. o.client_order_id) same in
    rw (record_order, c, n) (ground (arith, client, number))

add_order-appends :
    (b : Book) (level p : ℕ) (o : Order) {b' : Book}
    → get_price_level b (order_at b p).price ≡ some level
    → append_order b level p ≡ ok b'
    → terms (order_at b' p) ≡ o
    → o.client_id < b.limits.max_num_clients
    → o.client_order_id < b.limits.max_order_ids
    → add_order b p ≡ ok (set_client_order b' o.client_id o.client_order_id (some p))
unfolding add_order place_order
add_order-appends b level p o {b'} found appended same client number =
    let (limits, _) = append_order-frame b level p appended in
    rw (found, place_order, appended)
      (record_order-known b' p o same (rw limits client) (rw limits number))

-- The block that was allocated is in use too.
allocated-AllInUse :
    (b : Book) (o : Order) (ps : List ℕ) {p : ℕ} {pool : MemPool Order}
    → AllInUse b ps
    → MemPool.allocate b.order_pool o ≡ ok (p, pool)
    → AllInUse (with_pool b pool) (ps ++ p ∷ [])
unfolding update
allocated-AllInUse b o ps {p} {pool} used e k there =
    let (_, _, same, _, _, _, _) = allocate_lem b.order_pool o e in
    let free : pool.is_free ≡ update b.order_pool.is_free p false = ap (λ q. q.is_free) same in
    rw free (ground (arith, contains-snoc k p ps, used k, there))

client_entry :
    (b : Book) (client order p : ℕ)
    → (set_client_order b client order (some p)).client_orders client order ≡ some p
unfolding update
client_entry b client order p = ground arith

rest_order-steps :
    (i : Incoming) (qty priority : ℕ) (b : Book) (out : Outgoing) {p : ℕ} {pool : MemPool Order}
    {b' : Book}
    → get_next_priority b i.price ≡ ok priority
    → MemPool.allocate b.order_pool (resting_order i qty priority) ≡ ok (p, pool)
    → add_order (with_pool b pool) p ≡ ok b'
    → rest_order i qty b out
      ≡ ok (
        b',
        send_market_update
            (update_of MarketUpdateType.add i.market_order_id i.ticker_id i.side i.price qty
              priority)
            out,
      )
unfolding rest_order
rest_order-steps i qty priority b out next allocated added = rw (next, allocated, added) refl

-- What is left of an incoming order goes to the end of the list of its price's level, where the level has
-- orders in turn, a block is to be had, and the client's numbers are within bounds: the run succeeds
-- and sends the order to the market with a priority one above the last order's, the list stays in
-- turn, the client's entry leads to the order, and no other order's terms change.
pub rest_order-InTurn :
    (i : Incoming) (qty : ℕ) (b : Book) (out : Outgoing) (level first : ℕ) (rest : List ℕ) (p : ℕ)
    (pool : MemPool Order)
    → InTurn b level first rest
    → get_price_level b i.price ≡ some level
    → priority_of b (last_of first rest) + 1 < u64_mod
    → i.client_id < b.limits.max_num_clients
    → i.client_order_id < b.limits.max_order_ids
    → MemPool.allocate b.order_pool (resting_order i qty (priority_of b (last_of first rest) + 1))
      ≡ ok (p, pool)
    → let priority : ℕ = priority_of b (last_of first rest) + 1 in
      let sent =
        update_of MarketUpdateType.add i.market_order_id i.ticker_id i.side i.price qty priority in
      (b' : Book) × (rest_order i qty b out ≡ ok (b', send_market_update sent out))
      × InTurn b' level first (rest ++ p ∷ [])
      × (b'.client_orders i.client_id i.client_order_id ≡ some p)
      × (terms (order_at b' p) ≡ resting_order i qty priority)
      × ((k : ℕ) → k ≢ p → terms (order_at b' k) ≡ terms (order_at b k))
unfolding get_price_level price_to_index
rest_order-InTurn i qty b out level first rest p pool turn found small client number allocated =
    let prio : ℕ = priority_of b (last_of first rest) + 1 in
    let o : Order = resting_order i qty prio in
    let ba : Book = with_pool b pool in
    let (absent, at_p, others) = allocated-inside b o (first ∷ rest) turn.in_use allocated in
    let inside : (k : ℕ) → contains k (first ∷ rest) ≡ true → order_at ba k ≡ order_at b k =
      λ k there. others k (contains_ne k p (first ∷ rest) there absent) in
    let holds : Holds ba level first rest =
      Holds-inside b pool level first rest inside turn.holds in
    let kept : (k : ℕ) → contains k (first ∷ rest) ≡ true → priority_of ba k ≡ priority_of b k =
      λ k there. ap (λ o. o.priority) (inside k there) in
    let at_end : priority_of ba (last_of first rest) ≡ priority_of b (last_of first rest) =
      kept (last_of first rest) (contains-last_of first rest) in
    let next : get_next_priority b i.price ≡ ok prio =
      get_next_priority-last b level first rest i.price turn.holds found
      ∙ ap ok (omega (arith, small)) in
    let given : get_next_priority ba i.price ≡ ok (priority_of ba p) =
      get_next_priority-last ba level first rest i.price holds found
      ∙ ap ok (rw at_end (omega (arith, small)) ∙ sym (ap (λ o. o.priority) at_p)) in
    let (b1, appended, holds1, rising1, same1) =
      append_order-Rising ba level first rest p i.price holds absent found given (rw at_end small)
        (Rising-inside (priority_of b) (priority_of ba) first rest kept turn.rising) in
    let terms_p : terms (order_at b1 p) ≡ o = same1 p ∙ ap terms at_p in
    let (_, used) = append_order-frame ba level p appended in
    let added =
      add_order-appends ba level p o
        (ap (λ o. b.price_levels (o.price % b.limits.max_price_levels)) at_p ∙ found) appended
        terms_p client number in
    let b' : Book = set_client_order b1 i.client_id i.client_order_id (some p) in
    (
      b',
      rest_order-steps i qty prio b out next allocated added,
      record {
        holds = record { first_order = holds1.first_order; ring = holds1.ring };
        in_use = λ k there.
            ap (λ f. f k) used
            ∙ allocated-AllInUse b o (first ∷ rest) turn.in_use allocated k there;
        rising = rising1;
      },
      client_entry b1 i.client_id i.client_order_id p,
      terms_p,
      λ k differs. same1 k ∙ ap terms (others k differs),
    )
