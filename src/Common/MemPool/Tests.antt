-- ===== src/Common/MemPool/Tests.antt =====
-- The theorems about the pool at small pools.
use electronic_trading_ecosy.Base.{
  ℕ, ◌<◌, ◌≡◌, refl, true, false, [], ◌∷◌, ok, fault, undefined, arith, update,
}
use electronic_trading_ecosy.Common.MemPool.{MemPool, init, allocate, deallocate}
use electronic_trading_ecosy.Common.MemPool.Search.{occupy, allocate_lem}
use electronic_trading_ecosy.Common.MemPool.Lifetime.{
  alloc, dealloc, allocations, run, run-init_bound,
}

-- four blocks, of which the second is taken
abbrev gap : MemPool ℕ
gap = record {
  object = λ i. 0;
  is_free = update (λ i. true) 1 false;
  size = 4;
  next_free_index = 0;
}

-- `allocate` skips the block that is in use.
allocate-gap : (p' : MemPool ℕ) × (allocate gap 9 ≡ ok (0, p')) × (p'.next_free_index ≡ 2)
unfolding allocate update
allocate-gap = (record (occupy gap 0 9) { next_free_index = 2 }, refl, refl)

allocate_lem_example : 0 < (record (occupy gap 0 9) { next_free_index = 2 }).next_free_index
unfolding allocate update
allocate_lem_example =
    (allocate_lem gap 9 {block = 0} {p' = record (occupy gap 0 9) { next_free_index = 2 }} refl).3

-- The only free block is the next one.
abbrev last_block : MemPool ℕ
last_block = record {
  object = λ i. 0;
  is_free = update (λ i. false) 1 true;
  size = 3;
  next_free_index = 1;
}

-- The pool of three blocks has two free ones, and still gives out none.
allocate_does_not_turn_back :
    run {A = ℕ} (init 3 0) (alloc 1 ∷ alloc 2 ∷ dealloc 0 ∷ dealloc 1 ∷ alloc 3 ∷ [])
    ≡ fault undefined
unfolding run init allocate deallocate update
allocate_does_not_turn_back = refl

run-init_bound_example : allocations {A = ℕ} (alloc 1 ∷ dealloc 0 ∷ alloc 2 ∷ []) < 3
unfolding run init allocate deallocate update
run-init_bound_example =
    run-init_bound {A = ℕ} 3 0 (alloc 1 ∷ dealloc 0 ∷ alloc 2 ∷ []) (omega arith) refl
