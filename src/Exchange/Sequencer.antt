-- ===== src/Exchange/Sequencer.antt =====
-- exchange/order_server/fifo_sequencer.h: requests of one poll, put in the order of their arrival.
pub mod Publish
pub mod Tests
use electronic_trading_ecosy.Base.{
  ℕ, ◌+◌, ◌≤◌, Bool, List, [], ◌∷◌, ◌++◌, Outcome, ok, fault, fatal, leb, if◌then◌else◌, length,
  ◌==◌,
}
use mathlib.Core.List.{Perm}
use electronic_trading_ecosy.Common.LfQueue
use electronic_trading_ecosy.Common.LfQueue.{LfQueue}
use electronic_trading_ecosy.Exchange.Messages.{MeClientRequest}

abbrev pub max_pending_requests : ℕ
max_pending_requests = 1024

pub record RecvTimeClientRequest : Type 0 where
  pub recv_time : ℕ
  pub request : MeClientRequest

-- The times do not fall along the list.
abbrev pub AtLeast : ℕ → List RecvTimeClientRequest → Type 0
AtLeast t [] = Unit
AtLeast t (r ∷ rs) = (t ≤ r.recv_time) × AtLeast t rs

abbrev pub IsSorted : List RecvTimeClientRequest → Type 0
IsSorted [] = Unit
IsSorted (r ∷ rs) = AtLeast r.recv_time rs × IsSorted rs

-- `std::sort` by `operator<`: the same elements, in an order of their times. It says nothing of
-- requests with equal times.
pub record Sort : Type 0 where
  pub sort : List RecvTimeClientRequest → List RecvTimeClientRequest
  pub sorted : (rs : List RecvTimeClientRequest) → IsSorted (sort rs)
  pub permutes : (rs : List RecvTimeClientRequest) → Perm (sort rs) rs

-- `pending` holds the first `pending_size_` entries of the array, `capacity` is its length.
pub record FifoSequencer : Type 0 where
  pub incoming_requests : LfQueue MeClientRequest
  pub pending : List RecvTimeClientRequest
  pub capacity : ℕ

unfoldable pub add_client_request : ℕ → MeClientRequest → FifoSequencer → Outcome FifoSequencer
add_client_request rx_time r f =
    if leb f.capacity (length f.pending)
    then fault fatal
    else ok (record f { pending = f.pending ++ record { recv_time = rx_time; request = r } ∷ [] })

-- the loop that writes the requests to the queue
unfoldable pub write_all :
    List RecvTimeClientRequest → LfQueue MeClientRequest → LfQueue MeClientRequest
write_all [] q = q
write_all (r ∷ rs) q = write_all rs (LfQueue.write q r.request)

module _ (std : Sort) where
  unfoldable pub sequence_and_publish : FifoSequencer → FifoSequencer
  unfolding write_all
  sequence_and_publish f = if length f.pending == 0 then f else record f {
    incoming_requests = write_all (std.sort f.pending) f.incoming_requests;
    pending = [];
  }
