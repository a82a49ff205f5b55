-- ===== src/Exchange/OrderBook/Priority/Rising.antt =====
-- Time priority: the priorities that `getNextPriority` gives rise along a level's list.
use electronic_trading_ecosy.Base.{
  ℕ, ◌+◌, ◌%◌, ◌<◌, ◌≡◌, refl, sym, ap, ◌∙◌, true, false, ◌==◌, some, List, [], ◌∷◌, ◌++◌, ok,
  arith, ok-injective,
}
use electronic_trading_ecosy.Base.Pointers.{contains}
use electronic_trading_ecosy.Common.Types.{u64_mod}
use electronic_trading_ecosy.Exchange.OrderBook.{Book, order_at, get_price_level, get_next_priority}
use electronic_trading_ecosy.Exchange.OrderBook.Orders.{append_order}
use electronic_trading_ecosy.Exchange.OrderBook.Rings.{last_of, Linked-end, or_right}
use electronic_trading_ecosy.Exchange.OrderBook.Priority.{next_of, prev_of, Holds, SameTerms}
use electronic_trading_ecosy.Exchange.OrderBook.Priority.Append.{append_order-Holds}

abbrev pub priority_of : Book → ℕ → ℕ
priority_of b i = (order_at b i).priority

-- strictly along the list
abbrev pub Rising : (ℕ → ℕ) → ℕ → List ℕ → Type 0
Rising f x [] = Unit
Rising f x (z ∷ zs) = (f x < f z) × Rising f z zs

Rising-snoc :
    (f : ℕ → ℕ) (x : ℕ) (zs : List ℕ) (p : ℕ)
    → Rising f x zs
    → f (last_of x zs) < f p
    → Rising f x (zs ++ p ∷ [])
Rising-snoc f x [] p h less = (less, tt)
Rising-snoc f x (z ∷ zs) p (first, h) less = (first, Rising-snoc f z zs p h less)

-- Functions that agree along a list rise along it alike.
pub Rising-inside :
    (f g : ℕ → ℕ) (x : ℕ) (zs : List ℕ)
    → ((i : ℕ) → contains i (x ∷ zs) ≡ true → g i ≡ f i)
    → Rising f x zs
    → Rising g x zs
Rising-inside f g x [] same h = tt
Rising-inside f g x (z ∷ zs) same (first, h) = (
  rw (same x (ground arith), same z (ground arith)) first,
  Rising-inside f g z zs (λ i inside. same i (or_right (i == x) inside)) h,
)

-- The next priority at a price is one above the last order's.
pub get_next_priority-last :
    (b : Book) (level first : ℕ) (rest : List ℕ) (price : ℕ)
    → Holds b level first rest
    → get_price_level b price ≡ some level
    → get_next_priority b price ≡ ok ((priority_of b (last_of first rest) + 1) % u64_mod)
unfolding get_next_priority
get_next_priority-last b level first rest price holds found =
    let (_, tail) = Linked-end (next_of b) (prev_of b) first rest first holds.ring.0 in
    rw (found, holds.first_order, tail, get_next_priority) refl

-- An order with the priority that `get_next_priority` gives for its price, appended to the level of that
-- price, stands behind all others in the level's list, and the priorities go on rising along the list,
-- as long as they have not run out.
pub append_order-Rising :
    (b : Book) (level first : ℕ) (rest : List ℕ) (p price : ℕ)
    → Holds b level first rest
    → contains p (first ∷ rest) ≡ false
    → get_price_level b price ≡ some level
    → get_next_priority b price ≡ ok (priority_of b p)
    → priority_of b (last_of first rest) + 1 < u64_mod
    → Rising (priority_of b) first rest
    → (b' : Book) × (append_order b level p ≡ ok b')
      × Holds b' level first (rest ++ p ∷ [])
      × Rising (priority_of b') first (rest ++ p ∷ [])
      × SameTerms b b'
append_order-Rising b level first rest p price holds absent found given small rising =
    let (b', runs, holds', same) = append_order-Holds b level first rest p holds absent in
    let next : (priority_of b (last_of first rest) + 1) % u64_mod ≡ priority_of b p =
      ok-injective (sym (get_next_priority-last b level first rest price holds found) ∙ given) in
    let kept : (i : ℕ) → priority_of b' i ≡ priority_of b i = λ i. ap (λ o. o.priority) (same i) in
    (
      b',
      runs,
      holds',
      Rising-inside (priority_of b) (priority_of b') first (rest ++ p ∷ []) (λ i inside. kept i)
          (Rising-snoc (priority_of b) first rest p rising (omega (arith, next, small))),
      same,
    )
