-- ===== src/Common/LfQueue/Tests.antt =====
-- The theorems about the queue at small queues.
use electronic_trading_ecosy.Base.{ℕ, ◌+◌, ◌≡◌, refl, [], ◌∷◌, some, none, ok, arith}
use electronic_trading_ecosy.Common.LfQueue.{LfQueue, init, read, size}
use electronic_trading_ecosy.Common.LfQueue.Fifo.{IsValid, contents}
use electronic_trading_ecosy.Common.LfQueue.Overrun.{read-full}
use electronic_trading_ecosy.Common.LfQueue.Client.{put, get, run, replies, run-init}

-- three slots of which two are taken, round the end of the vector
abbrev turned : LfQueue ℕ
turned = record {
  store = λ i. i + 10;
  capacity = 3;
  next_write_index = 1;
  next_read_index = 2;
  store_size = 2;
}

abbrev full : LfQueue ℕ
full = record turned { next_write_index = 2; store_size = 3 }

turned-IsValid : IsValid turned
turned-IsValid = omega arith

full-IsValid : IsValid full
full-IsValid = omega arith

turned-contents : contents turned ≡ 12 ∷ 10 ∷ []
turned-contents = refl

read-full_example : (read full ≡ ok (none, full)) × (size full ≡ 3)
read-full_example = read-full full full-IsValid refl

run-init_example :
    (q' : LfQueue ℕ) × (run (init 2 0) (put 4 ∷ get ∷ get ∷ put 5 ∷ get ∷ [])
      ≡ ok (some 4 ∷ none ∷ some 5 ∷ [], q'))
unfolding replies
run-init_example =
    run-init 2 0 (put 4 ∷ get ∷ get ∷ put 5 ∷ get ∷ []) (omega arith) (omega arith) (omega arith)
