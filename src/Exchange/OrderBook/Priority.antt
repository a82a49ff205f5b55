-- ===== src/Exchange/OrderBook/Priority.antt =====
-- The orders of a price level of exchange/matcher/me_order_book.cpp as a list, oldest first.
pub mod Append
pub mod Unlink
pub mod Rising
pub mod Resting
pub mod Leaving
mod Tests
use electronic_trading_ecosy.Base.{
  ℕ, ◌≡◌, ◌≢◌, refl, sym, ap, ◌∙◌, Bool, true, false, ◌||◌, Option, none, some, List, [], ◌∷◌, ◌++◌,
  ok, arith, ◌==◌, Bool-cases, inl, inr, update, same_ptr, ok-injective, deref, ◌>>=◌,
  if◌then◌else◌,
}
use electronic_trading_ecosy.Base.Pointers.{
  contains, NoRepeats, contains-append, NoRepeats-append, NoRepeats-join,
}
use electronic_trading_ecosy.Exchange.OrderBook.{
  Book, Order, order_at, level_at, set_order, set_level,
}
use electronic_trading_ecosy.Exchange.OrderBook.Orders.{
  set_prev_order, set_next_order, append_order, unlink_order,
}
use electronic_trading_ecosy.Exchange.OrderBook.Rings.{
  Links, Linked, IsRing, last_of, contains-last_of, contains_ne, Linked-end, Linked-split,
  Linked-join, Linked-new_end, or_right,
}

abbrev pub next_of : Book → Links
next_of b i = (order_at b i).next_order

abbrev pub prev_of : Book → Links
prev_of b i = (order_at b i).prev_order

-- an order without its links
abbrev pub terms : Order → Order
terms o = record o { prev_order = none; next_order = none }

-- The level's orders, oldest first.
pub record Holds (b : Book) (level first : ℕ) (rest : List ℕ) : Type 0 where
  pub first_order : (level_at b level).first_order ≡ some first
  pub ring : IsRing (next_of b) (prev_of b) (first ∷ rest)

-- Neither book differs from the other in an order's terms, nor in the levels' prices and links.
abbrev pub SameTerms : Book → Book → Type 0
SameTerms b b' = (i : ℕ) → terms (order_at b' i) ≡ terms (order_at b i)

-- the same, for a list
abbrev pub HoldsAll : Book → (level : ℕ) → List ℕ → Type 0
HoldsAll b level [] = ⊥
HoldsAll b level (first ∷ rest) = Holds b level first rest
