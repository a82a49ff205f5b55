-- ===== src/Common/LfQueue.antt =====
-- common/lf_queue.h: the ring buffer that links the threads. A slot pointer is its index; the
-- vector is a function on indices, and `capacity` is `store_.size()`.
pub mod Fifo
pub mod Overrun
pub mod Client
mod Tests
use electronic_trading_ecosy.Base.{
  ℕ, ◌+◌, ◌-◌, ◌%◌, ◌^◌, Bool, Option, none, some, Outcome, ok, ◌>>=◌, ◌>>◌, assert, not, ◌==◌,
  if◌then◌else◌, update,
}

pub record LfQueue (A : Type 0) : Type 0 where
  pub store : ℕ → A
  pub capacity : ℕ
  pub next_write_index : ℕ
  pub next_read_index : ℕ
  pub store_size : ℕ

-- `size_t` arithmetic
abbrev pub size_mod : ℕ
size_mod = 2 ^ 64

module _ {A : Type 0} where
  -- `LFQueue(size)`, with the `T()` that fills the vector
  unfoldable pub init : ℕ → A → LfQueue A
  init size default = record {
    store = λ _. default;
    capacity = size;
    next_write_index = 0;
    next_read_index = 0;
    store_size = 0;
  }

  unfoldable pub get_next_to_write_to : LfQueue A → ℕ
  get_next_to_write_to q = q.next_write_index

  -- `*next_write = v`
  unfoldable pub write_slot : LfQueue A → ℕ → A → LfQueue A
  write_slot q slot v = record q { store = update q.store slot v }

  -- There is no test for a full queue.
  unfoldable pub update_next_to_write_to : LfQueue A → LfQueue A
  update_next_to_write_to q = record q {
    next_write_index = (q.next_write_index + 1) % q.capacity;
    store_size = (q.store_size + 1) % size_mod;
  }

  -- the element behind the pointer, or `none` for `nullptr`
  unfoldable pub get_next_to_read : LfQueue A → Option A
  get_next_to_read q =
      if q.next_read_index == q.next_write_index then none else some (q.store q.next_read_index)

  unfoldable pub update_read_index : LfQueue A → Outcome (LfQueue A)
  update_read_index q = do
    assert (not (q.store_size == 0))
    ok (record q {
      next_read_index = (q.next_read_index + 1) % q.capacity;
      store_size = (q.store_size + size_mod - 1) % size_mod;
    })

  unfoldable pub size : LfQueue A → ℕ
  size q = q.store_size

  -- The three lines by which each producer of the program writes an element.
  unfoldable pub write : LfQueue A → A → LfQueue A
  unfolding get_next_to_write_to write_slot update_next_to_write_to
  write q v = update_next_to_write_to (write_slot q (get_next_to_write_to q) v)

  -- A consumer's round: look at the next element and, if there is one, take it and move on.
  unfoldable pub read : LfQueue A → Outcome (Option A × LfQueue A)
  unfolding get_next_to_read update_read_index
  read q = elim (get_next_to_read q) [
    | none ↦ ok (none, q)
    | some v ↦ do q' ← update_read_index q; ok (some v, q')
  ]

  -- The round of a loop under the condition `size() && next`.
  unfoldable pub poll : LfQueue A → Outcome (Option A × LfQueue A)
  unfolding size read
  poll q = if size q == 0 then ok (none, q) else read q
