-- ===== src/Trading/MarketDataConsumer/Delivery.antt =====
-- What the trade engine gets of the incremental updates.
use electronic_trading_ecosy.Base.{
  ℕ, ◌+◌, ◌%◌, ◌≤◌, ◌<◌, ◌≡◌, refl, sym, ap, ◌∙◌, inl, inr, true, false, List, [], ◌∷◌, ◌++◌, ok,
  arith, length, ◌==◌, if◌then◌else◌, ok-injective, Bool-cases,
}
use mathlib.Core.List.{append_assoc, append-nil}
use electronic_trading_ecosy.Common.LfQueue
use electronic_trading_ecosy.Common.LfQueue.{LfQueue}
use electronic_trading_ecosy.Common.LfQueue.Fifo.{IsValid, contents, contents-write, write-sizes}
use electronic_trading_ecosy.Common.Types.{u64_mod}
use electronic_trading_ecosy.Exchange.Messages.{MeMarketUpdate, MdpMarketUpdate}
use electronic_trading_ecosy.Trading.MarketDataConsumer.{Consumer, handle_update, queue_message}
use electronic_trading_ecosy.Trading.MarketDataConsumer.Recovery.{
  Arrival, run, run-Recovers, queue_message-Recovers,
}

-- messages on the incremental socket
unfoldable pub incremental : List MdpMarketUpdate → List Arrival
incremental [] = []
incremental (r ∷ rs) = record { joins = true; is_snapshot = false; update = r } ∷ incremental rs

-- the updates up to the first whose number is not the next one
unfoldable pub in_sequence : ℕ → List MdpMarketUpdate → List MeMarketUpdate
in_sequence n [] = []
in_sequence n (r ∷ rs) = if r.seq_num == n then r.me_market_update ∷ in_sequence (n + 1) rs else []

abbrev took : MdpMarketUpdate → Consumer → Consumer
took r c = record c {
  next_update_seq_num = (c.next_update_seq_num + 1) % u64_mod;
  incoming_updates = LfQueue.write c.incoming_updates r.me_market_update;
}

handle_update-next :
    (r : MdpMarketUpdate) (c : Consumer)
    → c.in_recovery_mode ≡ false
    → (r.seq_num == c.next_update_seq_num) ≡ true
    → handle_update true false r c ≡ ok (took r c)
unfolding handle_update
handle_update-next r c calm next = ground arith

handle_update-gap :
    (r : MdpMarketUpdate) (c : Consumer)
    → c.in_recovery_mode ≡ false
    → (r.seq_num == c.next_update_seq_num) ≡ false
    → handle_update true false r c
      ≡ ok (queue_message false r (record c { in_recovery_mode = true }))
unfolding handle_update
handle_update-gap r c calm gap = ground arith

-- A consumer that is not in recovery, has no snapshot message queued, and has room and numbers
-- left, passes on the incremental updates whose numbers follow one another from the next one on, in
-- order, and none after the first gap, in each run that goes through.
pub run-in_sequence :
    (rs : List MdpMarketUpdate) (c : Consumer) {c' : Consumer}
    → c.in_recovery_mode ≡ false
    → c.snapshot_queued ≡ []
    → IsValid c.incoming_updates
    → c.incoming_updates.store_size + length rs ≤ c.incoming_updates.capacity
    → c.next_update_seq_num + length rs < u64_mod
    → run c (incremental rs) ≡ ok c'
    → contents c'.incoming_updates
      ≡ contents c.incoming_updates ++ in_sequence c.next_update_seq_num rs
unfolding run incremental in_sequence
run-in_sequence [] c calm none_queued inv room small e =
    ap (λ (d : Consumer). contents d.incoming_updates) (sym (ok-injective e))
    ∙ sym (append-nil (contents c.incoming_updates))
run-in_sequence (r ∷ rs) c {c'} calm none_queued inv room small e =
    elim (Bool-cases (r.seq_num == c.next_update_seq_num)) [
      | inl next ↦
          let (inv', wrote) =
            contents-write c.incoming_updates inv r.me_market_update (omega arith) in
          let (more, same) = write-sizes c.incoming_updates r.me_market_update inv (omega arith) in
          let up : (c.next_update_seq_num + 1) % u64_mod ≡ c.next_update_seq_num + 1 =
            omega arith in
          let later =
            run-in_sequence rs (took r c) {c' = c'} calm none_queued inv' (omega arith)
              (omega arith) (rw (handle_update-next r c calm next) at e) in
          rw next (
            later
            ∙ ap (λ xs. xs ++ in_sequence ((c.next_update_seq_num + 1) % u64_mod) rs) wrote
            ∙ append_assoc (contents c.incoming_updates) (r.me_market_update ∷ []) _
            ∙ ap (λ n. contents c.incoming_updates ++ r.me_market_update ∷ in_sequence n rs) up)
      | inr gap ↦
          let lost : Consumer = record c { in_recovery_mode = true } in
          let queued =
            queue_message-Recovers false r lost
              (record { mode = refl; keys = rw none_queued tt }) in
          let later =
            run-Recovers (incremental rs) (queue_message false r lost) {c' = c'} queued.recovering
              (rw (handle_update-gap r c calm gap) at e) in
          rw gap (
            ap contents (later.same ∙ queued.same) ∙ sym (append-nil (contents c.incoming_updates)))
    ]
