-- ===== src/Exchange/Sequencer/Publish.antt =====
-- What the matching engine finds on its queue after a poll.
use electronic_trading_ecosy.Base.{
  ◌+◌, ◌≤◌, ◌≡◌, refl, sym, ap, ◌∙◌, List, [], ◌∷◌, ◌++◌, map, arith, length, length-perm,
  length-zero, Bool-cases, inl, inr, ◌==◌,
}
use mathlib.Core.List.{Perm, append_assoc, append-nil}
use mathlib.Core.List.Perm
use electronic_trading_ecosy.Common.LfQueue
use electronic_trading_ecosy.Common.LfQueue.{LfQueue}
use electronic_trading_ecosy.Common.LfQueue.Fifo.{IsValid, contents, contents-write, write-sizes}
use electronic_trading_ecosy.Exchange.Messages.{MeClientRequest}
use electronic_trading_ecosy.Exchange.Sequencer.{
  RecvTimeClientRequest, IsSorted, Sort, FifoSequencer, write_all, sequence_and_publish,
}

abbrev pub requests : List RecvTimeClientRequest → List MeClientRequest
requests = map λ r. r.request

write_all-contents :
    (rs : List RecvTimeClientRequest) (q : LfQueue MeClientRequest)
    → IsValid q
    → q.store_size + length rs ≤ q.capacity
    → IsValid (write_all rs q) × (contents (write_all rs q) ≡ contents q ++ requests rs)
unfolding write_all
write_all-contents [] q inv room = (inv, sym (append-nil (contents q)))
write_all-contents (r ∷ rs) q inv room =
    let (more, same) = write-sizes q r.request inv (omega arith) in
    let (inv', e) = contents-write q inv r.request (omega arith) in
    let (inv'', e') = write_all-contents rs (LfQueue.write q r.request) inv' (omega arith) in
    (
      inv'',
      e'
          ∙ ap (λ xs. xs ++ requests rs) e
          ∙ append_assoc (contents q) (r.request ∷ []) (requests rs),
    )

module _ (std : Sort) (f : FifoSequencer) where
  -- With room on a valid queue, and for any sort that permutes and orders by time, publishing
  -- appends the pending requests to the queue in the order of their arrival times, each exactly
  -- once, and leaves none pending.
  pub publish-IsSorted :
      IsValid f.incoming_requests
      → f.incoming_requests.store_size + length f.pending ≤ f.incoming_requests.capacity
      → let f' = sequence_and_publish std f in
        (rs : List RecvTimeClientRequest) × (contents f'.incoming_requests
          ≡ contents f.incoming_requests ++ requests rs)
        × IsSorted rs
        × Perm rs f.pending
        × (f'.pending ≡ [])
  unfolding sequence_and_publish
  publish-IsSorted inv room = elim (Bool-cases (length f.pending == 0)) [
    | inr some_pending ↦
        let (_, e) =
          write_all-contents (std.sort f.pending) f.incoming_requests inv
            (omega (arith, length-perm (std.permutes f.pending))) in
        rw some_pending (std.sort f.pending, e, std.sorted f.pending, std.permutes f.pending, refl)
    | inl none_pending ↦
        let empty : f.pending ≡ [] = length-zero f.pending (ground arith) in
        rw none_pending ([], sym (append-nil _), tt, rw empty (Perm.refl []), empty)
  ]
