-- ===== src/Exchange/OrderBook/Priority/Append.antt =====
-- `addOrder` puts an order at the end of its level's list.
use electronic_trading_ecosy.Base.{
  ℕ, ◌≡◌, ◌≢◌, refl, true, false, some, List, [], ◌∷◌, ◌++◌, ok, arith, ◌==◌, update, deref,
  >>=-eq-ok, ok-injective,
}
use mathlib.Core.Path.{subst}
use electronic_trading_ecosy.Base.Pointers.{contains, NoRepeats-join}
use electronic_trading_ecosy.Exchange.OrderBook.{Book, order_at, level_at}
use electronic_trading_ecosy.Exchange.OrderBook.Orders.{
  set_prev_order, set_next_order, append_order,
}
use electronic_trading_ecosy.Exchange.OrderBook.Rings.{
  Linked, last_of, contains-last_of, contains_ne, Linked-end, Linked-join, Linked-new_end, or_right,
}
use electronic_trading_ecosy.Exchange.OrderBook.Priority.{next_of, prev_of, Holds, SameTerms}

-- the book after `append_order`
abbrev appended : Book → (first last p : ℕ) → Book
appended b first last p =
    let b1 = set_next_order b last (some p) in
    let b2 = set_prev_order b1 p (order_at b1 first).prev_order in
    let b3 = set_next_order b2 p (some first) in set_prev_order b3 first (some p)

append_order-appended :
    (b : Book) (level first last p : ℕ)
    → (level_at b level).first_order ≡ some first
    → prev_of b first ≡ some last
    → append_order b level p ≡ ok (appended b first last p)
unfolding append_order
append_order-appended b level first last p head tail = rw (head, tail, append_order) refl

-- The links of a book after `append_order`.
appended-links :
    (b : Book) (first last p : ℕ)
    → prev_of b first ≡ some last
    → first ≢ p
    → last ≢ p
    → (next_of (appended b first last p) p ≡ some first)
      × (next_of (appended b first last p) last ≡ some p)
      × (prev_of (appended b first last p) first ≡ some p)
      × (prev_of (appended b first last p) p ≡ some last)
unfolding update
appended-links b first last p tail h k = ground arith

appended-next :
    (b : Book) (first last p i : ℕ)
    → i ≢ p
    → i ≢ last
    → next_of (appended b first last p) i ≡ next_of b i
unfolding update
appended-next b first last p i h k = ground arith

appended-prev :
    (b : Book) (first last p i : ℕ)
    → i ≢ p
    → i ≢ first
    → prev_of (appended b first last p) i ≡ prev_of b i
unfolding update
appended-prev b first last p i h k = ground arith

appended-SameTerms : (b : Book) (first last p : ℕ) → SameTerms b (appended b first last p)
unfolding update
appended-SameTerms b first last p i = ground arith

pub append_order-SameTerms :
    (b : Book) (level p : ℕ) {b' : Book} → append_order b level p ≡ ok b' → SameTerms b b'
unfolding append_order
append_order-SameTerms b level p e =
    let (first, _, e1) = >>=-eq-ok (deref (level_at b level).first_order) _ e in
    let (last, _, e2) = >>=-eq-ok (deref (order_at b first).prev_order) _ e1 in
    subst (SameTerms b) (ok-injective e2) (appended-SameTerms b first last p)

single_absent : (i p : ℕ) → i ≢ p → contains i (p ∷ []) ≡ false
single_absent i p h = ground arith

-- An order that is not at the level yet comes behind all that are, by `append_order`; the terms of
-- every order stay as they were.
pub append_order-Holds :
    (b : Book) (level first : ℕ) (rest : List ℕ) (p : ℕ)
    → Holds b level first rest
    → contains p (first ∷ rest) ≡ false
    → (b' : Book) × (append_order b level p ≡ ok b')
      × Holds b' level first (rest ++ p ∷ [])
      × SameTerms b b'
append_order-Holds b level first rest p holds absent =
    let last : ℕ = last_of first rest in
    let (path, once) = holds.ring in
    let (to_first, from_first) = Linked-end (next_of b) (prev_of b) first rest first path in
    let b' : Book = appended b first last p in
    let head_in : contains first (first ∷ rest) ≡ true = ground arith in
    let first_ne : first ≢ p = contains_ne first p (first ∷ rest) head_in absent in
    let last_ne : last ≢ p =
      contains_ne last p (first ∷ rest) (contains-last_of first rest) absent in
    let (next_p, next_last, prev_first, prev_p) =
      appended-links b first last p from_first first_ne last_ne in
    let front : Linked (next_of b') (prev_of b') first rest p =
      Linked-new_end (next_of b) (prev_of b) (next_of b') (prev_of b') first rest first p once
        (λ i inside differs.
          appended-next b first last p i (contains_ne i p (first ∷ rest) inside absent) differs)
        (λ i inside.
          appended-prev b first last p i
            (contains_ne i p (first ∷ rest) (or_right (i == first) inside) absent)
            (contains_ne i first rest inside once.0))
        next_last prev_p path in
    (
      b',
      append_order-appended b level first last p holds.first_order from_first,
      record {
        first_order = holds.first_order;
        ring = (
          Linked-join (next_of b') (prev_of b') first rest p [] first front (next_p, prev_first),
          NoRepeats-join (first ∷ rest) (p ∷ []) once (refl, tt)
              (λ i inside. single_absent i p (contains_ne i p (first ∷ rest) inside absent)),
        );
      },
      appended-SameTerms b first last p,
    )
