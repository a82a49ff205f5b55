-- ===== src/Common/MemPool.antt =====
-- common/mem_pool.h: the pool from which orders and price levels are allocated. A pointer into it
-- is the index of its block; the vector is a function on indices, and `size` is `store_.size()`.
pub mod Search
pub mod Lifetime
mod Tests
use electronic_trading_ecosy.Base.{
  ℕ, zero, suc, ◌+◌, Bool, true, false, not, Outcome, ok, fault, out_of_fuel, undefined,
  assert_failed, ◌>>=◌, ◌>>◌, assert, ltb, ◌==◌, if◌then◌else◌, update,
}

pub record MemPool (A : Type 0) : Type 0 where
  pub object : ℕ → A
  pub is_free : ℕ → Bool
  pub size : ℕ
  pub next_free_index : ℕ

module _ {A : Type 0} where
  -- `MemPool(num_elems)`, with the `T()` of each block
  unfoldable pub init : ℕ → A → MemPool A
  init num_elems default = record {
    object = λ _. default;
    is_free = λ _. true;
    size = num_elems;
    next_free_index = 0;
  }

  -- `store_[i].is_free_`. The vector's index is not checked.
  abbrev pub block_is_free : MemPool A → ℕ → Outcome Bool
  block_is_free p i = if ltb i p.size then ok (p.is_free i) else fault undefined

  -- The loop of `updateNextFreeIndex`. At the end of the vector the code compares the index with 0
  -- where it should assign it, so nothing turns it back.
  unfoldable pub search_free : ℕ → MemPool A → (initial i : ℕ) → Outcome ℕ
  search_free zero p initial i = fault out_of_fuel
  search_free (suc fuel) p initial i =
      let rest = search_free fuel p initial (i + 1) in
      do
        free ← block_is_free p i
        if free then ok i else if initial == (i + 1) then fault assert_failed else rest

  unfoldable pub update_next_free_index : MemPool A → Outcome (MemPool A)
  unfolding search_free
  update_next_free_index p = do
    i ← search_free (p.size + 1) p p.next_free_index p.next_free_index
    ok (record p { next_free_index = i })

  -- the pointer, and the pool with the object constructed in place
  unfoldable pub allocate : MemPool A → A → Outcome (ℕ × MemPool A)
  unfolding update_next_free_index
  allocate p obj = do
    free ← block_is_free p p.next_free_index
    assert free
    let block = p.next_free_index
    p' ←
        update_next_free_index
          (record p { object = update p.object block obj; is_free = update p.is_free block false })
    ok (block, p')

  unfoldable pub deallocate : MemPool A → ℕ → Outcome (MemPool A)
  deallocate p elem_index = do
    assert (ltb elem_index p.size)
    assert (not (p.is_free elem_index))
    ok (record p { is_free = update p.is_free elem_index true })

  -- A write through `ptr`. The memory of a freed block stays readable, as `object`.
  unfoldable pub store : MemPool A → ℕ → A → MemPool A
  store p ptr obj = record p { object = update p.object ptr obj }
