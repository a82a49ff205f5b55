-- ===== src/Trading/MarketDataConsumer/Recovery.antt =====
-- When the consumer leaves its recovery mode.
use electronic_trading_ecosy.Base.{
  ℕ, suc, ◌≤◌, ◌<◌, ◌≡◌, ◌⊎◌, refl, ◌∙◌, inl, inr, Bool, true, false, none, List, [], ◌∷◌, Outcome,
  ok, arith, ◌>>=◌, >>=-eq-ok, ok-injective,
}
use mathlib.Core.Path.{subst}
use electronic_trading_ecosy.Exchange.Messages.{MeMarketUpdate, MdpMarketUpdate}
use electronic_trading_ecosy.Trading.MarketDataConsumer.{
  QueuedMarketUpdates, Consumer, assign, last_of, collect_snapshot, check_snapshot_sync,
  queue_message, handle_update,
}

-- The keys rise from a bound on, as those of a `std::map` do.
abbrev pub Above : ℕ → QueuedMarketUpdates → Type 0
Above n [] = Unit
Above n ((k, u) ∷ rest) = (n ≤ k) × Above (suc k) rest

assign-Above :
    (n k : ℕ) (u : MeMarketUpdate) (m : QueuedMarketUpdates)
    → n ≤ k
    → Above n m
    → Above n (assign k u m)
unfolding assign
assign-Above n k u [] h a = (h, tt)
assign-Above n k u ((j, v) ∷ rest) h a = ground (arith, assign-Above (suc j) k u rest)

collect_snapshot-two :
    (n k j : ℕ) (u v : MeMarketUpdate) (rest : QueuedMarketUpdates) (events : List MeMarketUpdate)
    → k < j
    → collect_snapshot n ((k, u) ∷ (j, v) ∷ rest) events ≡ none
unfolding collect_snapshot
collect_snapshot-two n k j u v rest events h = ground arith

abbrev Stays : Consumer → Type 0
Stays c = (check_snapshot_sync c ≡ c) ⊎ (check_snapshot_sync c ≡ record c { snapshot_queued = [] })

check-Stays : (m : QueuedMarketUpdates) (c : Consumer) → c.snapshot_queued ≡ m → Above 0 m → Stays c
unfolding check_snapshot_sync collect_snapshot last_of
check-Stays [] c e a = inl (ground arith)
check-Stays ((k, u) ∷ []) c e a = ground arith
check-Stays ((k, u) ∷ (j, v) ∷ rest) c e a =
    ground (arith, collect_snapshot-two c.next_update_seq_num k j u v rest [])

-- A check of the queued messages never ends a recovery: the first loop lets through one message at
-- most, and one message is not both the start and the end of a snapshot.
pub check_snapshot_sync-Stays : (c : Consumer) → Above 0 c.snapshot_queued → Stays c
check_snapshot_sync-Stays c a = check-Stays c.snapshot_queued c refl a

-- The consumer is in recovery, and the keys of its snapshot queue rise.
pub record IsRecovering (c : Consumer) : Type 0 where
  pub mode : c.in_recovery_mode ≡ true
  pub keys : Above 0 c.snapshot_queued

-- `c'` is in recovery, and nothing was passed on since `c`.
pub record Recovers (c c' : Consumer) : Type 0 where
  pub recovering : IsRecovering c'
  pub same : c'.incoming_updates ≡ c.incoming_updates

check-Recovers : (c : Consumer) → IsRecovering c → Recovers c (check_snapshot_sync c)
check-Recovers c r = elim (check_snapshot_sync-Stays c r.keys) [
  | inl e ↦ rw e (record { recovering = r; same = refl })
  | inr e ↦ rw e (record { recovering = record { mode = r.mode; keys = tt }; same = refl })
]

pub queue_message-Recovers :
    (is_snapshot : Bool) (r : MdpMarketUpdate) (c : Consumer)
    → IsRecovering c
    → Recovers c (queue_message is_snapshot r c)
unfolding queue_message
queue_message-Recovers true r c v =
    let kept = check-Recovers _ (record {
      mode = v.mode;
      keys = assign-Above 0 r.seq_num r.me_market_update _ (omega arith) (ground (arith, v.keys));
    }) in
    record { recovering = kept.recovering; same = kept.same }
queue_message-Recovers false r c v =
    let kept = check-Recovers _ (record { mode = v.mode; keys = v.keys }) in
    record { recovering = kept.recovering; same = kept.same }

abbrev cleared : Consumer → Consumer
cleared c = record c { incremental_queued = []; snapshot_queued = []; snapshot_joined = true }

handle_recovering :
    (joins is_snapshot : Bool) (r : MdpMarketUpdate) (c : Consumer) {c' : Consumer}
    → c.in_recovery_mode ≡ true
    → handle_update joins is_snapshot r c ≡ ok c'
    → queue_message is_snapshot r (cleared c) ≡ c'
unfolding handle_update
handle_recovering joins is_snapshot r c {c'} mode e = ground arith

pub handle_update-Recovers :
    (joins is_snapshot : Bool) (r : MdpMarketUpdate) (c : Consumer) {c' : Consumer}
    → IsRecovering c
    → handle_update joins is_snapshot r c ≡ ok c'
    → Recovers c c'
handle_update-Recovers joins is_snapshot r c {c'} v e =
    let kept =
      queue_message-Recovers is_snapshot r (cleared c) (record { mode = v.mode; keys = tt }) in
    subst (Recovers c) (handle_recovering joins is_snapshot r c v.mode e)
      (record { recovering = kept.recovering; same = kept.same })

-- one message on the incremental or on the snapshot socket
pub record Arrival : Type 0 where
  pub joins : Bool
  pub is_snapshot : Bool
  pub update : MdpMarketUpdate

unfoldable pub run : Consumer → List Arrival → Outcome Consumer
run c [] = ok c
run c (a ∷ rest) = do c' ← handle_update a.joins a.is_snapshot a.update c; run c' rest

-- For a consumer in recovery, whose queued snapshot messages stand by rising number, no sequence of
-- messages that it handles without a failure, whatever their sockets, numbers and types, brings it
-- out of its recovery or passes an update on.
pub run-Recovers :
    (rest : List Arrival) (c : Consumer) {c' : Consumer}
    → IsRecovering c
    → run c rest ≡ ok c'
    → Recovers c c'
unfolding run
run-Recovers [] c v e = subst (Recovers c) (ok-injective e) (record { recovering = v; same = refl })
run-Recovers (a ∷ rest) c v e =
    let (c1, e1, r1) = >>=-eq-ok (handle_update a.joins a.is_snapshot a.update c) _ e in
    let first = handle_update-Recovers a.joins a.is_snapshot a.update c v e1 in
    let later = run-Recovers rest c1 first.recovering r1 in
    record { recovering = later.recovering; same = later.same ∙ first.same }
