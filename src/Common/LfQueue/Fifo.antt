-- ===== src/Common/LfQueue/Fifo.antt =====
-- The queue as a first-in first-out list, as long as it is not full.
use electronic_trading_ecosy.Base.{
  ℕ, zero, suc, ◌+◌, ◌-◌, ◌%◌, ◌≤◌, ◌<◌, ◌≡◌, refl, ap, ◌⊎◌, List, [], ◌∷◌, ◌++◌, none, some, ok,
  arith, length, update, ◌==◌, if◌then◌else◌, Bool-cases, false, inl, inr, sym, length-zero,
}
use electronic_trading_ecosy.Common.LfQueue.{
  LfQueue, size_mod, get_next_to_read, update_read_index, read, write, poll, size,
}

wrap :
    (i capacity : ℕ)
    → i < capacity
    → (i + 1) % capacity ≡ (if (i + 1) == capacity then 0 else i + 1)
wrap i capacity h = grind arith

module _ {A : Type 0} where
  -- `n` elements from slot `i` on, round the end of the vector
  abbrev slots : (ℕ → A) → ℕ → ℕ → ℕ → List A
  slots store capacity i zero = []
  slots store capacity i (suc n) = store i ∷ slots store capacity ((i + 1) % capacity) n

  -- what the queue holds, oldest first
  abbrev pub contents : LfQueue A → List A
  contents q = slots q.store q.capacity q.next_read_index q.store_size

  -- The indices stand `store_size` apart.
  pub record IsValid (q : LfQueue A) : Type 0 where
    pub addressable : q.capacity < size_mod
    pub read_in : q.next_read_index < q.capacity
    pub write_in : q.next_write_index < q.capacity
    pub fits : q.store_size ≤ q.capacity
    pub apart :
        (q.next_read_index + q.store_size ≡ q.next_write_index)
        ⊎ (q.next_read_index + q.store_size ≡ q.next_write_index + q.capacity)

  length-slots : (store : ℕ → A) (capacity i n : ℕ) → length (slots store capacity i n) ≡ n
  length-slots store capacity i zero = refl
  length-slots store capacity i (suc n) =
      ap suc (length-slots store capacity ((i + 1) % capacity) n)

  pub length-contents : (q : LfQueue A) → length (contents q) ≡ q.store_size
  length-contents q = length-slots q.store q.capacity q.next_read_index q.store_size

  -- Writing the slot behind the last element adds it at the end, and spares the elements before it.
  slots-snoc :
      (store : ℕ → A) (capacity : ℕ) (v : A) (i n w : ℕ)
      → i < capacity
      → w < capacity
      → n < capacity
      → (i + n ≡ w) ⊎ (i + n ≡ w + capacity)
      → slots (update store w v) capacity i (suc n) ≡ slots store capacity i n ++ v ∷ []
  unfolding update
  slots-snoc store capacity v i zero w hi hw hn apart = ground arith
  slots-snoc store capacity v i (suc n) w hi hw hn apart =
      ground (arith, wrap i capacity hi, slots-snoc store capacity v ((i + 1) % capacity) n w)

  slots-cons :
      (store : ℕ → A) (capacity i n : ℕ) (v : A) (vs : List A)
      → slots store capacity i n ≡ v ∷ vs
      → (0 < n) × (store i ≡ v) × (slots store capacity ((i + 1) % capacity) (n - 1) ≡ vs)
  slots-cons store capacity i zero v vs h = cc
  slots-cons store capacity i (suc n) v vs h =
      let less : suc n - 1 ≡ n = omega arith in (omega arith, cc, rw less (cc))

  slots-nil : (store : ℕ → A) (capacity i n : ℕ) → slots store capacity i n ≡ [] → n ≡ 0
  slots-nil store capacity i zero h = refl
  slots-nil store capacity i (suc n) h = cc

  -- the queue after its oldest element is taken
  abbrev advance : LfQueue A → LfQueue A
  advance q = record q {
    next_read_index = (q.next_read_index + 1) % q.capacity;
    store_size = q.store_size - 1;
  }

  update_read_index-advance :
      (q : LfQueue A)
      → 0 < q.store_size
      → q.store_size < size_mod
      → update_read_index q ≡ ok (advance q)
  unfolding update_read_index
  update_read_index-advance q h k = ground arith

  pub write-sizes :
      (q : LfQueue A) (v : A)
      → IsValid q
      → q.store_size < q.capacity
      → ((write q v).store_size ≡ q.store_size + 1) × ((write q v).capacity ≡ q.capacity)
  unfolding write
  write-sizes q v inv h = ground (arith, inv.addressable)

  module _ (q : LfQueue A) (inv : IsValid q) where
    -- Writing to a valid queue with room keeps it valid and adds the element at the end of what it
    -- holds.
    pub contents-write :
        (v : A)
        → q.store_size < q.capacity
        → IsValid (write q v) × (contents (write q v) ≡ contents q ++ v ∷ [])
    unfolding write
    contents-write v room = (
      grind (arith, wrap q.next_write_index q.capacity inv.write_in, inv.apart),
      ground (
        arith,
        slots-snoc q.store q.capacity v q.next_read_index q.store_size q.next_write_index,
      ),
    )

    -- A valid queue that is neither empty nor full gives its oldest element, and keeps the others.
    pub contents-read :
        (v : A) (vs : List A)
        → contents q ≡ v ∷ vs
        → q.store_size < q.capacity
        → (q' : LfQueue A) × (read q ≡ ok (some v, q'))
          × IsValid q'
          × (contents q' ≡ vs)
          × (q'.capacity ≡ q.capacity)
    unfolding read
    contents-read v vs holds room =
        let (some_left, front, rest) = slots-cons _ _ _ _ v vs holds in
        (
          advance q,
          ground (arith, update_read_index-advance q, inv.apart),
          grind (arith, wrap q.next_read_index q.capacity inv.read_in, inv.apart),
          rest,
          refl,
        )

    -- The same, for a loop that looks at the element and moves on later.
    pub contents-front :
        (v : A) (vs : List A)
        → contents q ≡ v ∷ vs
        → q.store_size < q.capacity
        → (get_next_to_read q ≡ some v)
          × ((size q == 0) ≡ false)
          × (q' : LfQueue A) × (update_read_index q ≡ ok q')
          × IsValid q'
          × (contents q' ≡ vs)
          × (q'.capacity ≡ q.capacity)
    unfolding get_next_to_read size
    contents-front v vs holds room =
        let (some_left, front, rest) = slots-cons _ _ _ _ v vs holds in
        (
          ground (arith, inv.apart),
          ground arith,
          advance q,
          update_read_index-advance q some_left (omega (arith, inv.addressable)),
          grind (arith, wrap q.next_read_index q.capacity inv.read_in, inv.apart),
          rest,
          refl,
        )

    pub next-empty : contents q ≡ [] → get_next_to_read q ≡ none
    unfolding get_next_to_read
    next-empty e = ground (arith, slots-nil _ _ _ _ e, inv.apart)

    pub read-empty : contents q ≡ [] → read q ≡ ok (none, q)
    unfolding read
    read-empty e = ground (arith, slots-nil _ _ _ _ e, inv.apart)

    -- In a valid queue the size tells nothing that the indices do not tell.
    pub poll-read : poll q ≡ read q
    unfolding poll size
    poll-read = elim (Bool-cases (q.store_size == 0)) [
      | inr some_left ↦ rw some_left refl
      | inl none_left ↦
          rw none_left
            (sym (read-empty (length-zero (contents q) (ground (arith, length-contents q)))))
    ]
