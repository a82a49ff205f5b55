-- ===== src/Exchange/OrderBook/Priority/Unlink.antt =====
-- `removeOrder` takes an order out of its level's list.
use mathlib.Core.List.{append-nil}
use electronic_trading_ecosy.Base.{
  ℕ, ◌≡◌, ◌≢◌, refl, ◌∙◌, true, false, Option, some, List, [], ◌∷◌, ◌++◌, ok, arith, ◌==◌, ==_refl,
  update,
}
use electronic_trading_ecosy.Base.Pointers.{contains, NoRepeats, NoRepeats-append, NoRepeats-join}
use electronic_trading_ecosy.Exchange.OrderBook.{Book, level_at, set_level}
use electronic_trading_ecosy.Exchange.OrderBook.Orders.{
  set_prev_order, set_next_order, unlink_order,
}
use electronic_trading_ecosy.Exchange.OrderBook.Rings.{
  Linked, last_of, contains-last_of, contains_ne, Linked-end, Linked-split, Linked-join,
  Linked-new_end, or_right,
}
use electronic_trading_ecosy.Exchange.OrderBook.Priority.{
  next_of, prev_of, Holds, HoldsAll, SameTerms,
}

-- the book with two orders linked to each other
abbrev joined : Book → (before after : ℕ) → Book
joined b before after = set_prev_order (set_next_order b before (some after)) after (some before)

joined-next :
    (b : Book) (before after i : ℕ)
    → (next_of (joined b before after) before ≡ some after)
      × (i ≢ before → next_of (joined b before after) i ≡ next_of b i)
unfolding update
joined-next b before after i = (ground arith, λ h. ground arith)

joined-prev :
    (b : Book) (before after i : ℕ)
    → (prev_of (joined b before after) after ≡ some before)
      × (i ≢ after → prev_of (joined b before after) i ≡ prev_of b i)
unfolding update
joined-prev b before after i = (ground arith, λ h. ground arith)

joined-SameTerms : (b : Book) (before after : ℕ) → SameTerms b (joined b before after)
unfolding update
joined-SameTerms b before after i = ground arith

abbrev with_first : Book → (level : ℕ) → Option ℕ → Book
with_first b level first = set_level b level (record (level_at b level) { first_order = first })

unlink_order-first :
    (b : Book) (level p before after : ℕ)
    → (level_at b level).first_order ≡ some p
    → prev_of b p ≡ some before
    → next_of b p ≡ some after
    → unlink_order b (some level) p ≡ ok (with_first (joined b before after) level (some after))
unfolding unlink_order
unlink_order-first b level p before after head tail front =
    rw (head, tail, front, unlink_order, ==_refl p) refl

unlink_order-inner :
    (b : Book) (level first p before after : ℕ)
    → (level_at b level).first_order ≡ some first
    → first ≢ p
    → prev_of b p ≡ some before
    → next_of b p ≡ some after
    → unlink_order b (some level) p ≡ ok (joined b before after)
unfolding unlink_order
unlink_order-inner b level first p before after head other tail front =
    let differs : (first == p) ≡ false = ground (arith, other) in
    rw (head, tail, front, unlink_order, differs) refl

unlink_first-Holds :
    (b : Book) (level p z : ℕ) (zs : List ℕ)
    → Holds b level p (z ∷ zs)
    → (b' : Book) × (unlink_order b (some level) p ≡ ok b') × Holds b' level z zs × SameTerms b b'
unfolding update
unlink_first-Holds b level p z zs holds =
    let ((next_p, prev_z, path), (_, once)) = holds.ring in
    let last : ℕ = last_of z zs in
    let (_, prev_p) = Linked-end (next_of b) (prev_of b) z zs p path in
    let b1 : Book = joined b last z in
    let b' : Book = with_first b1 level (some z) in
    let ring : Linked (next_of b1) (prev_of b1) z zs z =
      Linked-new_end (next_of b) (prev_of b) (next_of b1) (prev_of b1) z zs p z once
        (λ i inside differs. (joined-next b last z i).1 differs)
        (λ i inside. (joined-prev b last z i).1 (contains_ne i z zs inside once.0))
        (joined-next b last z last).0 (joined-prev b last z z).0 path in
    (
      b',
      unlink_order-first b level p last z holds.first_order prev_p next_p,
      record { first_order = ground arith; ring = (ring, once) },
      joined-SameTerms b last z,
    )

contains_head : (x : ℕ) (xs : List ℕ) → contains x (x ∷ xs) ≡ true
contains_head x xs = ground arith

apart_ne : (i p : ℕ) (back : List ℕ) → contains i (p ∷ back) ≡ false → i ≢ p
apart_ne i p back h = ground (arith, h)

apart_rest : (i p : ℕ) (back : List ℕ) → contains i (p ∷ back) ≡ false → contains i back ≡ false
apart_rest i p back h = ground (arith, h)

-- the path in front of the order that leaves, led on to the order behind it
front-Linked :
    (b : Book) (first : ℕ) (xs : List ℕ) (p after : ℕ)
    → NoRepeats (first ∷ xs)
    → ((i : ℕ) → contains i xs ≡ true → i ≢ after)
    → Linked (next_of b) (prev_of b) first xs p
    → let b' = joined b (last_of first xs) after in Linked (next_of b') (prev_of b') first xs after
front-Linked b first xs p after once other path =
    let before : ℕ = last_of first xs in
    let b' : Book = joined b before after in
    Linked-new_end (next_of b) (prev_of b) (next_of b') (prev_of b') first xs p after once
      (λ i inside differs. (joined-next b before after i).1 differs)
      (λ i inside. (joined-prev b before after i).1 (other i inside))
      (joined-next b before after before).0 (joined-prev b before after after).0 path

-- the path behind the order that leaves, which stays
rear-Linked :
    (b : Book) (before y : ℕ) (ys : List ℕ) (first : ℕ)
    → NoRepeats (y ∷ ys)
    → contains before (y ∷ ys) ≡ false
    → first ≢ y
    → Linked (next_of b) (prev_of b) y ys first
    → let b' = joined b before y in Linked (next_of b') (prev_of b') y ys first
rear-Linked b before y ys first once absent other path =
    let b' : Book = joined b before y in
    let (to_first, from_first) = Linked-end (next_of b) (prev_of b) y ys first path in
    let elsewhere : (i : ℕ) → contains i (y ∷ ys) ≡ true → i ≢ before =
      λ i inside. contains_ne i before (y ∷ ys) inside absent in
    Linked-new_end (next_of b) (prev_of b) (next_of b') (prev_of b') y ys first first once
      (λ i inside differs. (joined-next b before y i).1 (elsewhere i inside))
      (λ i inside. (joined-prev b before y i).1 (contains_ne i y ys inside once.0))
      ((joined-next b before y (last_of y ys)).1 (elsewhere (last_of y ys) (contains-last_of y ys))
        ∙ to_first)
      ((joined-prev b before y first).1 other ∙ from_first) path

-- The last order of the level leaves.
unlink_last-Holds :
    (b : Book) (level first : ℕ) (xs : List ℕ) (p : ℕ)
    → Holds b level first (xs ++ p ∷ [])
    → (b' : Book) × (unlink_order b (some level) p ≡ ok b')
      × Holds b' level first xs
      × SameTerms b b'
unlink_last-Holds b level first xs p holds =
    let (path, once) = holds.ring in
    let (once_front, _, apart) = NoRepeats-append (first ∷ xs) (p ∷ []) once in
    let (front, (next_p, _)) = Linked-split (next_of b) (prev_of b) first xs p [] first path in
    let before : ℕ = last_of first xs in
    let (_, prev_p) = Linked-end (next_of b) (prev_of b) first xs p front in
    let inner : first ≢ p = apart_ne first p [] (apart first (contains_head first xs)) in
    (
      joined b before first,
      unlink_order-inner b level first p before first holds.first_order inner prev_p next_p,
      record {
        first_order = holds.first_order;
        ring = (
          front-Linked b first xs p first once_front
              (λ i inside. contains_ne i first xs inside once_front.0) front,
          once_front,
        );
      },
      joined-SameTerms b before first,
    )

-- An order between two others leaves.
unlink_inner-Holds :
    (b : Book) (level first : ℕ) (xs : List ℕ) (p y : ℕ) (ys : List ℕ)
    → Holds b level first (xs ++ p ∷ y ∷ ys)
    → (b' : Book) × (unlink_order b (some level) p ≡ ok b')
      × Holds b' level first (xs ++ y ∷ ys)
      × SameTerms b b'
unlink_inner-Holds b level first xs p y ys holds =
    let (path, once) = holds.ring in
    let (once_front, once_rear, apart) = NoRepeats-append (first ∷ xs) (p ∷ y ∷ ys) once in
    let (front, (next_p, _, rear)) =
      Linked-split (next_of b) (prev_of b) first xs p (y ∷ ys) first path in
    let before : ℕ = last_of first xs in
    let (_, prev_p) = Linked-end (next_of b) (prev_of b) first xs p front in
    let b' : Book = joined b before y in
    let apart' : (i : ℕ) → contains i (first ∷ xs) ≡ true → contains i (y ∷ ys) ≡ false =
      λ i inside. apart_rest i p (y ∷ ys) (apart i inside) in
    let head : contains first (first ∷ xs) ≡ true = contains_head first xs in
    let inner : first ≢ p = apart_ne first p (y ∷ ys) (apart first head) in
    let front' : Linked (next_of b') (prev_of b') first xs y =
      front-Linked b first xs p y once_front
        (λ i inside. apart_ne i y ys (apart' i (or_right (i == first) inside))) front in
    let rear' : Linked (next_of b') (prev_of b') y ys first =
      rear-Linked b before y ys first once_rear.1 (apart' before (contains-last_of first xs))
        (apart_ne first y ys (apart' first head)) rear in
    (
      b',
      unlink_order-inner b level first p before y holds.first_order inner prev_p next_p,
      record {
        first_order = holds.first_order;
        ring = (
          Linked-join (next_of b') (prev_of b') first xs y ys first front' rear',
          NoRepeats-join (first ∷ xs) (y ∷ ys) once_front once_rear.1 apart',
        );
      },
      joined-SameTerms b before y,
    )

-- Where a level holds other orders too, `unlink_order` takes an order out of the level's list and
-- leaves the others in their order, and the terms of every order stay as they were.
pub unlink_order-HoldsAll :
    (b : Book) (level : ℕ) (front : List ℕ) (p : ℕ) (back : List ℕ)
    → HoldsAll b level (front ++ p ∷ back)
    → front ++ back ≢ []
    → (b' : Book) × (unlink_order b (some level) p ≡ ok b')
      × HoldsAll b' level (front ++ back)
      × SameTerms b b'
unlink_order-HoldsAll b level [] p [] holds others = absurd (others refl)
unlink_order-HoldsAll b level [] p (z ∷ zs) holds others = unlink_first-Holds b level p z zs holds
unlink_order-HoldsAll b level (first ∷ xs) p [] holds others =
    rw (append-nil xs) (unlink_last-Holds b level first xs p holds)
unlink_order-HoldsAll b level (first ∷ xs) p (y ∷ ys) holds others =
    unlink_inner-Holds b level first xs p y ys holds
