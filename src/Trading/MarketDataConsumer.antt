-- ===== src/Trading/MarketDataConsumer.antt =====
-- trading_system/market_data/market_data_consumer.h and market_data_consumer.cpp: incremental
-- updates, and the recovery from a snapshot after a gap. A `std::map` is the list of its entries by
-- rising key. Logging is left out.
pub mod Recovery
pub mod Delivery
mod Tests
use electronic_trading_ecosy.Base.{
  ℕ, zero, suc, ◌+◌, ◌-◌, ◌%◌, Bool, true, false, not, ◌&&◌, ◌||◌, Option, none, some, List, [],
  ◌∷◌, ◌++◌, Outcome, ok, fault, out_of_fuel, ◌>>=◌, ◌>>◌, assert, ltb, leb, ◌==◌, if◌then◌else◌,
  length, drop,
}
use electronic_trading_ecosy.Common.LfQueue
use electronic_trading_ecosy.Common.LfQueue.{LfQueue}
use electronic_trading_ecosy.Common.Types.{u64_mod}
use electronic_trading_ecosy.Exchange.Messages.{MeMarketUpdate, MarketUpdateType, MdpMarketUpdate}

abbrev pub QueuedMarketUpdates : Type 0
QueuedMarketUpdates = List (ℕ × MeMarketUpdate)

-- `map[key] = value`
unfoldable pub assign : ℕ → MeMarketUpdate → QueuedMarketUpdates → QueuedMarketUpdates
assign k u [] = (k, u) ∷ []
assign k u ((j, v) ∷ rest) =
    if k == j
    then (k, u) ∷ rest
    else if ltb k j
    then (k, u) ∷ (j, v) ∷ rest
    else (j, v) ∷ assign k u rest

-- `map.find(key) != map.end()`
unfoldable pub contains : ℕ → QueuedMarketUpdates → Bool
contains k [] = false
contains k ((j, v) ∷ rest) = (k == j) || contains k rest

-- `map.rbegin()->second` of a map that begins with this entry
unfoldable pub last_of : MeMarketUpdate → QueuedMarketUpdates → MeMarketUpdate
last_of u [] = u
last_of u ((j, v) ∷ rest) = last_of v rest

pub record Consumer : Type 0 where
  pub incoming_updates : LfQueue MeMarketUpdate
  pub next_update_seq_num : ℕ
  pub incremental_queued : QueuedMarketUpdates
  pub in_recovery_mode : Bool
  pub snapshot_queued : QueuedMarketUpdates
  pub snapshot_joined : Bool

abbrev pub is_snapshot_start : MarketUpdateType → Bool
is_snapshot_start MarketUpdateType.snapshot_start = true
is_snapshot_start _ = false

abbrev pub is_snapshot_end : MarketUpdateType → Bool
is_snapshot_end MarketUpdateType.snapshot_end = true
is_snapshot_end _ = false

abbrev pub is_marker : MarketUpdateType → Bool
is_marker t = is_snapshot_start t || is_snapshot_end t

-- The first loop of `checkSnapshotSync`, with the events found: `none` is a gap. It compares each key
-- with `next_update_seq_num_`, the number of the next incremental update.
unfoldable pub collect_snapshot :
    (next_update_seq_num : ℕ)
    → QueuedMarketUpdates
    → List MeMarketUpdate
    → Option (List MeMarketUpdate)
collect_snapshot n [] events = some events
collect_snapshot n ((k, u) ∷ rest) events =
    let next = collect_snapshot n rest (if is_marker u.type then events else events ++ u ∷ []) in
    if k == n then next else none

-- The second loop, over the incremental updates.
unfoldable pub collect_incremental :
    (next : ℕ) → QueuedMarketUpdates → List MeMarketUpdate → Option (List MeMarketUpdate)
collect_incremental n [] events = some events
collect_incremental n ((k, u) ∷ rest) events =
    let skipped = collect_incremental n rest events in
    let marker = collect_incremental n rest events in
    let taken = collect_incremental ((n + 1) % u64_mod) rest (events ++ u ∷ []) in
    if ltb k n
    then skipped
    else if k == n
    then (if is_marker u.type then marker else taken)
    else none

unfoldable pub write_all : List MeMarketUpdate → LfQueue MeMarketUpdate → LfQueue MeMarketUpdate
write_all [] q = q
write_all (u ∷ us) q = write_all us (LfQueue.write q u)

-- The end of a recovery: the events go to the trade engine.
unfoldable pub recover : List MeMarketUpdate → Consumer → Consumer
unfolding write_all
recover events c = record c {
  incoming_updates = write_all events c.incoming_updates;
  snapshot_queued = [];
  incremental_queued = [];
  in_recovery_mode = false;
  snapshot_joined = false;
}

abbrev pub drop_snapshot : Consumer → Consumer
drop_snapshot c = record c { snapshot_queued = [] }

unfoldable pub check_snapshot_sync : Consumer → Consumer
check_snapshot_sync c = elim c.snapshot_queued [
  | [] ↦ c
  | (k, first) ∷ rest ↦
      if is_snapshot_start first.type
      then elim (collect_snapshot c.next_update_seq_num ((k, first) ∷ rest) []) [
        | none ↦ drop_snapshot c
        | some events ↦
            let last = last_of first rest in
            if is_snapshot_end last.type
            then elim (collect_incremental ((last.order_id + 1) % u64_mod) c.incremental_queued
                events) [ none ↦ drop_snapshot c | some all ↦ recover all c ]
            else c
      ]
      else c
]

unfoldable pub queue_message : (is_snapshot : Bool) → MdpMarketUpdate → Consumer → Consumer
queue_message true r c =
    let kept = if contains r.seq_num c.snapshot_queued then [] else c.snapshot_queued in
    check_snapshot_sync (record c { snapshot_queued = assign r.seq_num r.me_market_update kept })
queue_message false r c =
    check_snapshot_sync
      (record c { incremental_queued = assign r.seq_num r.me_market_update c.incremental_queued })

-- `joins`: `init` gives the snapshot socket a descriptor. The second assertion compares the Boolean
-- that `join` returns with 0, and always passes.
unfoldable pub start_snapshot_sync : (joins : Bool) → Consumer → Outcome Consumer
start_snapshot_sync joins c = do
  assert joins
  ok (record c { incremental_queued = []; snapshot_queued = []; snapshot_joined = true })

-- The body of the loop of `recvCallback`. The synchronisation starts at a message that comes when the
-- consumer was in recovery already.
unfoldable pub handle_update :
    (joins is_snapshot : Bool) → MdpMarketUpdate → Consumer → Outcome Consumer
unfolding queue_message start_snapshot_sync
handle_update joins is_snapshot r c =
    if c.in_recovery_mode
    then (do c' ← start_snapshot_sync joins c; ok (queue_message is_snapshot r c'))
    else (if r.seq_num == c.next_update_seq_num
        then ok (
            if is_snapshot then c else record c {
              next_update_seq_num = (c.next_update_seq_num + 1) % u64_mod;
              incoming_updates = LfQueue.write c.incoming_updates r.me_market_update;
            })
        else ok (queue_message is_snapshot r (record c { in_recovery_mode = true })))

module _ (joins : Bool) (size_of : ℕ) (at_address : ℕ → Outcome MdpMarketUpdate) where
  -- The loop. It reads each message at the address `next_rcv_valid_index_ + i`, which is a number of
  -- bytes and no place in the buffer: `at_address` is what such a read comes to.
  unfoldable pub recv_loop :
      (fuel : ℕ) (is_snapshot : Bool) (valid i : ℕ) → Consumer → Outcome (ℕ × Consumer)
  recv_loop zero is_snapshot valid i c = fault out_of_fuel
  recv_loop (suc fuel) is_snapshot valid i c =
      let next = at_address (valid + i) >>= λ r.
      handle_update joins is_snapshot r c >>= recv_loop fuel is_snapshot valid (i + size_of) in
      if leb (i + size_of) valid then next else ok (i, c)

  -- `valid` is `next_rcv_valid_index_`; the result has what is left of it.
  unfoldable pub recv_callback :
      (is_snapshot : Bool) (valid : ℕ) → Consumer → Outcome (ℕ × Consumer)
  unfolding recv_loop
  recv_callback is_snapshot valid c =
      if is_snapshot && not c.in_recovery_mode
      then ok (valid, c)
      else (if leb size_of valid
          then (do (i, c') ← recv_loop (valid + 1) is_snapshot valid 0 c; ok (valid - i, c'))
          else ok (valid, c))
