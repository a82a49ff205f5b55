-- ===== src/Exchange/Sequencer/Tests.antt =====
-- Publishing with a sort by insertion.
use electronic_trading_ecosy.Base.{
  ℕ, ◌≤◌, ◌≡◌, refl, Bool-cases, inl, inr, List, [], ◌∷◌, arith, leb, if◌then◌else◌,
}
use mathlib.Core.List.{Perm}
use mathlib.Core.List.Perm
use electronic_trading_ecosy.Common.LfQueue
use electronic_trading_ecosy.Common.LfQueue.Fifo.{contents}
use electronic_trading_ecosy.Common.Types.{Side}
use electronic_trading_ecosy.Exchange.Messages.{ClientRequestType, MeClientRequest}
use electronic_trading_ecosy.Exchange.Sequencer.{
  RecvTimeClientRequest, AtLeast, IsSorted, Sort, FifoSequencer, sequence_and_publish,
}
use electronic_trading_ecosy.Exchange.Sequencer.Publish.{requests, publish-IsSorted}

unfoldable pub insert :
    RecvTimeClientRequest → List RecvTimeClientRequest → List RecvTimeClientRequest
insert r [] = r ∷ []
insert r (q ∷ qs) =
    let behind = q ∷ insert r qs in if leb r.recv_time q.recv_time then r ∷ q ∷ qs else behind

unfoldable pub insertion_sort : List RecvTimeClientRequest → List RecvTimeClientRequest
insertion_sort [] = []
insertion_sort (r ∷ rs) = insert r (insertion_sort rs)

AtLeast-le : (s t : ℕ) (rs : List RecvTimeClientRequest) → s ≤ t → AtLeast t rs → AtLeast s rs
AtLeast-le s t [] h a = tt
AtLeast-le s t (r ∷ rs) h (first, rest) = (omega arith, AtLeast-le s t rs h rest)

insert-AtLeast :
    (t : ℕ) (r : RecvTimeClientRequest) (rs : List RecvTimeClientRequest)
    → t ≤ r.recv_time
    → AtLeast t rs
    → AtLeast t (insert r rs)
unfolding insert
insert-AtLeast t r [] h a = (h, tt)
insert-AtLeast t r (q ∷ qs) h (first, rest) = elim (Bool-cases (leb r.recv_time q.recv_time)) [
  | inl front ↦ rw front (h, (first, rest))
  | inr behind ↦ rw behind (first, insert-AtLeast t r qs h rest)
]

insert-IsSorted :
    (r : RecvTimeClientRequest) (rs : List RecvTimeClientRequest)
    → IsSorted rs
    → IsSorted (insert r rs)
unfolding insert
insert-IsSorted r [] s = (tt, tt)
insert-IsSorted r (q ∷ qs) (above, rest) = elim (Bool-cases (leb r.recv_time q.recv_time)) [
  | inl front ↦
      rw front
        ((ground arith, AtLeast-le r.recv_time q.recv_time qs (ground arith) above), (above, rest))
  | inr behind ↦
      rw behind (insert-AtLeast q.recv_time r qs (ground arith) above, insert-IsSorted r qs rest)
]

pub insertion_sort-IsSorted : (rs : List RecvTimeClientRequest) → IsSorted (insertion_sort rs)
unfolding insertion_sort
insertion_sort-IsSorted [] = tt
insertion_sort-IsSorted (r ∷ rs) =
    insert-IsSorted r (insertion_sort rs) (insertion_sort-IsSorted rs)

insert-Perm :
    (r : RecvTimeClientRequest) (rs : List RecvTimeClientRequest) → Perm (insert r rs) (r ∷ rs)
unfolding insert
insert-Perm r [] = Perm.refl (r ∷ [])
insert-Perm r (q ∷ qs) = elim (Bool-cases (leb r.recv_time q.recv_time)) [
  | inl front ↦ rw front (Perm.refl (r ∷ q ∷ qs))
  | inr behind ↦ rw behind (Perm.trans (Perm.cons q (insert-Perm r qs)) (Perm.swap r q qs))
]

pub insertion_sort-Perm : (rs : List RecvTimeClientRequest) → Perm (insertion_sort rs) rs
unfolding insertion_sort
insertion_sort-Perm [] = Perm.refl []
insertion_sort-Perm (r ∷ rs) =
    Perm.trans (insert-Perm r (insertion_sort rs)) (Perm.cons r (insertion_sort-Perm rs))

abbrev pub by_insertion : Sort
by_insertion = record {
  sort = insertion_sort;
  sorted = insertion_sort-IsSorted;
  permutes = insertion_sort-Perm;
}

abbrev order : (order_id : ℕ) → MeClientRequest
order order_id = record {
  request_type = ClientRequestType.new;
  client_id = 0;
  ticker_id = 1;
  order_id = order_id;
  price = 5;
  qty = 10;
  side = Side.buy;
}

-- two requests that were read in the opposite order of their times
abbrev two_pending : FifoSequencer
two_pending = record {
  incoming_requests = LfQueue.init 4 (order 0);
  pending =
      record { recv_time = 9; request = order 1 }
      ∷ record { recv_time = 4; request = order 2 }
      ∷ [];
  capacity = 8;
}

-- The earlier request comes first.
two_pending_sorted : requests (insertion_sort two_pending.pending) ≡ order 2 ∷ order 1 ∷ []
unfolding insertion_sort insert
two_pending_sorted = refl

publish-IsSorted_example :
    (rs : List RecvTimeClientRequest) × (contents
        (sequence_and_publish by_insertion two_pending).incoming_requests
      ≡ requests rs)
    × IsSorted rs
    × Perm rs two_pending.pending
    × ((sequence_and_publish by_insertion two_pending).pending ≡ [])
unfolding LfQueue.init
publish-IsSorted_example =
    publish-IsSorted by_insertion two_pending
      (record {
        addressable = omega arith;
        read_in = omega arith;
        write_in = omega arith;
        fits = omega arith;
        apart = omega arith;
      })
      (omega arith)
