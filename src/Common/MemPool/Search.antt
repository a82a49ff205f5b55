-- ===== src/Common/MemPool/Search.antt =====
-- Which block `allocate` hands out, and where its search for the next free block leads.
use electronic_trading_ecosy.Base.{
  ℕ, zero, suc, ◌+◌, ◌≤◌, ◌<◌, ◌≡◌, ◌≢◌, inl, inr, refl, true, false, ok, fault, undefined,
  out_of_fuel, arith, update, Bool-cases, Outcome-cases, ltb, ◌==◌,
}
use electronic_trading_ecosy.Common.MemPool.{MemPool, search_free, allocate}

module _ {A : Type 0} where
  -- The fuel of the search is never used up.
  search_free-ne-fuel :
      (fuel : ℕ) (p : MemPool A) (initial i : ℕ)
      → i ≤ p.size
      → p.size < fuel + i
      → search_free fuel p initial i ≢ fault out_of_fuel
  unfolding search_free
  search_free-ne-fuel zero p initial i l h = absurd (omega arith)
  search_free-ne-fuel (suc fuel) p initial i l h =
      ground (arith, search_free-ne-fuel fuel p initial (i + 1))

  -- It stops at the first free block from its start on.
  pub search_free-first :
      (fuel : ℕ) (p : MemPool A) (initial i : ℕ) {j : ℕ}
      → search_free fuel p initial i ≡ ok j
      → (i ≤ j)
        × (j < p.size)
        × (p.is_free j ≡ true)
        × ((k : ℕ) → i ≤ k → k < j → p.is_free k ≡ false)
  unfolding search_free
  search_free-first zero p initial i e = cc
  search_free-first (suc fuel) p initial i {j} e = elim (Bool-cases (ltb i p.size)) [
    | inr out ↦ absurd (ground arith)
    | inl inside ↦ elim (Bool-cases (p.is_free i)) [
      | inl free ↦ ground arith
      | inr busy ↦
          let (a, b, c, d) = search_free-first fuel p initial (i + 1) {j = j} (ground arith) in
          (
            omega arith,
            b,
            c,
            λ k l m. elim (Bool-cases (i == k)) [
              | inl same ↦ ground arith
              | inr other ↦ d k (ground arith) m
            ],
          )
    ]
  ]

  -- With no free block from its start on, it reads past the end of the vector.
  pub search_free-end :
      (fuel : ℕ) (p : MemPool A) (initial i : ℕ)
      → i ≤ p.size
      → p.size < fuel + i
      → initial ≤ i
      → ((k : ℕ) → i ≤ k → k < p.size → p.is_free k ≡ false)
      → search_free fuel p initial i ≡ fault undefined
  unfolding search_free
  search_free-end zero p initial i s h l busy = absurd (omega arith)
  search_free-end (suc fuel) p initial i s h l busy = ground (
    arith,
    busy i,
    search_free-end fuel p initial (i + 1),
    λ (k : ℕ) (a : i + 1 ≤ k) (b : k < p.size). busy k (omega arith) b,
  )

  -- the pool with block `i` in use and holding `obj`
  abbrev pub occupy : MemPool A → ℕ → A → MemPool A
  occupy p i obj = record p { object = update p.object i obj; is_free = update p.is_free i false }

  module _ (p : MemPool A) (obj : A) where
    allocate-search :
        {block : ℕ} {p' : MemPool A}
        → allocate p obj ≡ ok (block, p')
        → (p.next_free_index < p.size)
          × (p.is_free p.next_free_index ≡ true)
          × (j : ℕ) × (search_free
                (p.size + 1)
                (occupy p p.next_free_index obj)
                p.next_free_index
                p.next_free_index
              ≡ ok j)
          × (block ≡ p.next_free_index)
          × (p' ≡ record (occupy p p.next_free_index obj) { next_free_index = j })
    unfolding allocate
    allocate-search {block} {p'} e = elim (Bool-cases (ltb p.next_free_index p.size)) [
      | inr out ↦ absurd (ground arith)
      | inl inside ↦ elim (Bool-cases (p.is_free p.next_free_index)) [
        | inr busy ↦ absurd (ground arith)
        | inl free ↦
            elim (Outcome-cases (
              search_free (p.size + 1) (occupy p p.next_free_index obj) p.next_free_index
                p.next_free_index)) [
                  | inr (f, bad) ↦ absurd (ground arith)
                  | inl (k, found) ↦ (ground arith, free, k, found, ground arith, ground arith)
                ]
      ]
    ]

    -- A successful allocation hands out the block at the next free index, which was free, puts the
    -- object there and nowhere else, and moves on to the first free block behind it.
    pub allocate_lem :
        {block : ℕ} {p' : MemPool A}
        → allocate p obj ≡ ok (block, p')
        → (block ≡ p.next_free_index)
          × (p.is_free block ≡ true)
          × (p' ≡ record (occupy p block obj) { next_free_index = p'.next_free_index })
          × (block < p'.next_free_index)
          × (p'.next_free_index < p.size)
          × (p.is_free p'.next_free_index ≡ true)
          × ((k : ℕ) → block < k → k < p'.next_free_index → p.is_free k ≡ false)
    unfolding allocate update
    allocate_lem {block} {p'} e =
        let (inside, free, j, found, at, q) = allocate-search e in
        let (below, within, ends, between) =
          search_free-first (p.size + 1) (occupy p p.next_free_index obj) p.next_free_index
            p.next_free_index {j = j} found in
        rw (at, q)
          (
            refl,
            free,
            refl,
            ground arith,
            within,
            ground arith,
            λ k l m. ground (arith, between k (omega arith) m),
          )

    -- An allocation never uses up the fuel of its search.
    pub allocate-ne-fuel : allocate p obj ≢ fault out_of_fuel
    unfolding allocate
    allocate-ne-fuel = ground (
      arith,
      search_free-ne-fuel (p.size + 1) (occupy p p.next_free_index obj) p.next_free_index
          p.next_free_index,
    )

    -- Where the next block is free and none behind it, an allocation leaves what the language
    -- defines, even if blocks before it are free: the search does not turn back to them.
    pub allocate-last :
        p.next_free_index < p.size
        → p.is_free p.next_free_index ≡ true
        → ((k : ℕ) → p.next_free_index < k → k < p.size → p.is_free k ≡ false)
        → allocate p obj ≡ fault undefined
    unfolding allocate update
    allocate-last inside free busy = ground (
      arith,
      search_free-end (p.size + 1) (occupy p p.next_free_index obj) p.next_free_index
          p.next_free_index (omega arith) (omega arith) (omega arith) (λ k a b. later k a b),
    )
      where
        later :
            (k : ℕ)
            → p.next_free_index ≤ k
            → k < p.size
            → update p.is_free p.next_free_index false k ≡ false
        later k a b = elim (Bool-cases (k == p.next_free_index)) [
          | inl same ↦ rw (update, same)
          | inr other ↦ rw (update, other) (busy k (ground arith) b)
        ]
