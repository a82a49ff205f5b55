-- ===== src/Common/MemPool/Lifetime.antt =====
-- How many allocations a pool serves over its life.
use electronic_trading_ecosy.Base.{
  ℕ, zero, suc, ◌+◌, ◌≤◌, ◌<◌, ◌≡◌, refl, true, false, List, [], ◌∷◌, Outcome, ok, ◌>>=◌, arith,
  update, ltb, Bool-cases, inl, inr, >>=-eq-ok, ok-injective, sym, ap, ◌∙◌,
}
use mathlib.Core.Path.{subst}
use electronic_trading_ecosy.Common.MemPool.{MemPool, init, search_free, allocate, deallocate}
use electronic_trading_ecosy.Common.MemPool.Search.{occupy, allocate-last}

pub data Op (A : Type 0) : Type 0 where
  alloc : A → Op A
  dealloc : ℕ → Op A

module _ {A : Type 0} where
  -- Every block at or behind the next free index is free.
  pub record IsFresh (p : MemPool A) : Type 0 where
    pub inside : p.next_free_index < p.size
    pub ahead : (k : ℕ) → p.next_free_index ≤ k → k < p.size → p.is_free k ≡ true

  init-IsFresh : (n : ℕ) (d : A) → 0 < n → IsFresh (init n d)
  unfolding init
  init-IsFresh n d h = record { inside = h; ahead = λ k a b. refl }

  search_free-step :
      (fuel : ℕ) (p : MemPool A) (i : ℕ)
      → 2 ≤ fuel
      → i + 1 < p.size
      → p.is_free i ≡ false
      → p.is_free (i + 1) ≡ true
      → search_free fuel p i i ≡ ok (i + 1)
  unfolding search_free
  search_free-step zero p i h inside busy free = absurd (omega arith)
  search_free-step (suc zero) p i h inside busy free = absurd (omega arith)
  search_free-step (suc (suc fuel)) p i h inside busy free = ground arith

  -- In a pool whose blocks from the next one on are free, with one more block behind the next one,
  -- an allocation gives the next block, moves on by one, and leaves such a pool.
  pub allocate-next :
      (p : MemPool A) (obj : A)
      → IsFresh p
      → p.next_free_index + 1 < p.size
      → let p' = record (occupy p p.next_free_index obj) {
        next_free_index = p.next_free_index + 1;
      } in
        (allocate p obj ≡ ok (p.next_free_index, p')) × IsFresh p'
  unfolding allocate update
  allocate-next p obj fresh room = (
    ground (
      arith,
      fresh.inside,
      fresh.ahead p.next_free_index,
      fresh.ahead (p.next_free_index + 1),
      search_free-step (p.size + 1) (occupy p p.next_free_index obj) p.next_free_index,
    ),
    record { inside = room; ahead = λ k a b. ground (arith, fresh.ahead k) },
  )

  pub allocate-IsFresh :
      (p : MemPool A) (obj : A) {block : ℕ} {p' : MemPool A}
      → IsFresh p
      → allocate p obj ≡ ok (block, p')
      → IsFresh p' × (p'.next_free_index ≡ p.next_free_index + 1) × (p'.size ≡ p.size)
  allocate-IsFresh p obj {block} {p'} fresh e =
      elim (Bool-cases (ltb (p.next_free_index + 1) p.size)) [
        | inl room ↦
            let (next, kept) = allocate-next p obj fresh (ground arith) in
            let same : p' ≡ record (occupy p p.next_free_index obj) {
              next_free_index = p.next_free_index + 1;
            } =
              ap (λ r. r.1) (ok-injective (sym e ∙ next)) in
            subst (λ q. IsFresh q × (q.next_free_index ≡ p.next_free_index + 1) × (q.size ≡ p.size))
              (sym same) (kept, refl, refl)
        | inr last ↦ absurd (
            ground (
              arith,
              allocate-last p obj fresh.inside (fresh.ahead _ (omega arith) fresh.inside)
                  (λ k a b. absurd (ground arith)),
            ))
      ]

  pub deallocate-IsFresh :
      (p : MemPool A) (i : ℕ) {p' : MemPool A}
      → IsFresh p
      → deallocate p i ≡ ok p'
      → IsFresh p' × (p'.next_free_index ≡ p.next_free_index) × (p'.size ≡ p.size)
  unfolding deallocate update
  deallocate-IsFresh p i {p'} fresh e =
      let moved : p' ≡ record p { is_free = update p.is_free i true } = ground arith in
      rw moved (
        record { inside = fresh.inside; ahead = λ k a b. ground (arith, fresh.ahead k) },
        refl,
        refl,
      )

  -- any sequence of uses of one pool
  unfoldable pub run : MemPool A → List (Op A) → Outcome (MemPool A)
  run p [] = ok p
  run p (alloc obj ∷ ops) = do (_, p') ← allocate p obj; run p' ops
  run p (dealloc i ∷ ops) = do p' ← deallocate p i; run p' ops

  abbrev pub allocations : List (Op A) → ℕ
  allocations [] = 0
  allocations (alloc obj ∷ ops) = suc (allocations ops)
  allocations (dealloc i ∷ ops) = allocations ops

  run-next :
      (ops : List (Op A)) (p : MemPool A) {p' : MemPool A}
      → IsFresh p
      → run p ops ≡ ok p'
      → p.next_free_index + allocations ops < p.size
  unfolding run
  run-next [] p fresh e = omega (arith, fresh.inside)
  run-next (alloc obj ∷ ops) p fresh e =
      let (r, got, e') = >>=-eq-ok (allocate p obj) _ e in
      let (fresh', moved, same) = allocate-IsFresh p obj fresh got in
      omega (arith, run-next ops r.1 fresh' e')
  run-next (dealloc i ∷ ops) p fresh e =
      let (p', got, e') = >>=-eq-ok (deallocate p i) _ e in
      let (fresh', moved, same) = deallocate-IsFresh p i fresh got in
      omega (arith, run-next ops p' fresh' e')

  -- A pool of `n` blocks, `n` above 0, never completes `n` allocations, however many blocks were
  -- deallocated in between: a run that goes through has allocated fewer.
  pub run-init_bound :
      (n : ℕ) (d : A) (ops : List (Op A)) {p' : MemPool A}
      → 0 < n
      → run (init n d) ops ≡ ok p'
      → allocations ops < n
  unfolding init
  run-init_bound n d ops h e = omega (arith, run-next ops (init n d) (init-IsFresh n d h) e)
