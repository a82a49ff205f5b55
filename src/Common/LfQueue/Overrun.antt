-- ===== src/Common/LfQueue/Overrun.antt =====
-- What a full queue does: nothing in `getNextToWriteTo` or `getNextToRead` tells full from empty.
use electronic_trading_ecosy.Base.{◌+◌, ◌≡◌, none, ok, arith}
use electronic_trading_ecosy.Common.LfQueue.{LfQueue, read, write, size}
use electronic_trading_ecosy.Common.LfQueue.Fifo.{IsValid, contents-write, write-sizes}

module _ {A : Type 0} where
  -- A valid queue whose slots are all taken reports no element to its consumer, although `size`
  -- counts `capacity` of them.
  pub read-full :
      (q : LfQueue A)
      → IsValid q
      → q.store_size ≡ q.capacity
      → (read q ≡ ok (none, q)) × (size q ≡ q.capacity)
  unfolding read size
  read-full q inv full = ground (arith, inv.apart)

  -- One write into a valid queue with a single free slot makes it report no element.
  pub read-write_last :
      (q : LfQueue A) (v : A)
      → IsValid q
      → q.store_size + 1 ≡ q.capacity
      → read (write q v) ≡ ok (none, write q v)
  read-write_last q v inv last =
      let (inv', _) = contents-write q inv v (omega arith) in
      let (grown, same) = write-sizes q v inv (omega arith) in
      (read-full (write q v) inv' (omega arith)).0
