-- ===== src/Exchange/MarketDataPublisher/Incremental.antt =====
-- The numbers under which the updates are published.
use electronic_trading_ecosy.Base.{
  ℕ, zero, suc, ◌+◌, ◌%◌, ◌<◌, ◌≡◌, refl, ◌∙◌, sym, ap, List, [], ◌∷◌, ◌++◌, ok, arith, length,
}
use mathlib.Core.List.{append_assoc, append-nil}
use electronic_trading_ecosy.Common.LfQueue.Fifo.{
  IsValid, contents, contents-read, read-empty, poll-read, length-contents,
}
use electronic_trading_ecosy.Common.Types.{u64_mod}
use electronic_trading_ecosy.Exchange.Messages.{MeMarketUpdate}
use electronic_trading_ecosy.Exchange.SnapshotSynthesizer.Numbering.{numbered}
use electronic_trading_ecosy.Exchange.MarketDataPublisher.{MarketDataPublisher, publish_updates}

-- The publisher has sent the updates `us` since `p`, and has taken them off the queue.
pub record HasSent (us : List MeMarketUpdate) (p p' : MarketDataPublisher) : Type 0 where
  pub sent : p'.sent ≡ p.sent ++ numbered p.next_inc_seq_num us
  pub moved : p'.next_inc_seq_num ≡ p.next_inc_seq_num + length us
  pub left : contents p'.outgoing_md_updates ≡ []

publish_updates-numbered :
    (us : List MeMarketUpdate) (fuel : ℕ) (p : MarketDataPublisher)
    → IsValid p.outgoing_md_updates
    → contents p.outgoing_md_updates ≡ us
    → length us < p.outgoing_md_updates.capacity
    → length us < fuel
    → p.next_inc_seq_num + length us < u64_mod
    → (p' : MarketDataPublisher) × (publish_updates fuel p ≡ ok p') × HasSent us p p'
unfolding publish_updates numbered
publish_updates-numbered us zero p inv e room enough small = absurd (omega arith)
publish_updates-numbered [] (suc fuel) p inv e room enough small =
    rw (poll-read p.outgoing_md_updates inv, read-empty p.outgoing_md_updates inv e)
      (p, refl, record { sent = sym (append-nil p.sent); moved = omega arith; left = e })
publish_updates-numbered (u ∷ us) (suc fuel) p inv e room enough small =
    let (q, took, inv', left, same) =
      contents-read p.outgoing_md_updates inv u us e
        (omega (arith, length-contents p.outgoing_md_updates, ap length e)) in
    let next : (p.next_inc_seq_num + 1) % u64_mod ≡ p.next_inc_seq_num + 1 = omega arith in
    let (p', sends, h) =
      publish_updates-numbered us fuel
        (record p {
          sent = p.sent ++ record { seq_num = p.next_inc_seq_num; me_market_update = u } ∷ [];
          outgoing_md_updates = q;
          next_inc_seq_num = (p.next_inc_seq_num + 1) % u64_mod;
        })
        inv' left (omega arith) (omega arith) (omega arith) in
    (
      p',
      rw (poll-read p.outgoing_md_updates inv, took) sends,
      record {
        sent =
            h.sent
            ∙ ap
                (λ k.
                  (p.sent ++ record { seq_num = p.next_inc_seq_num; me_market_update = u } ∷ [])
                  ++ numbered k us)
                next
            ∙ append_assoc p.sent _ _;
        moved = omega (arith, h.moved);
        left = h.left;
      },
    )

-- With one round more than there are updates, the publisher sends all updates on a queue that is
-- valid and not full, in order and under consecutive numbers as long as a `size_t` has them, and
-- leaves the queue empty.
pub publish_updates_lem :
    (p : MarketDataPublisher)
    → IsValid p.outgoing_md_updates
    → p.outgoing_md_updates.store_size < p.outgoing_md_updates.capacity
    → p.next_inc_seq_num + p.outgoing_md_updates.store_size < u64_mod
    → (p' : MarketDataPublisher) × (publish_updates (p.outgoing_md_updates.store_size + 1) p
        ≡ ok p')
      × HasSent (contents p.outgoing_md_updates) p p'
publish_updates_lem p inv room small =
    let n = length-contents p.outgoing_md_updates in
    publish_updates-numbered (contents p.outgoing_md_updates) (p.outgoing_md_updates.store_size + 1)
      p inv refl (omega arith) (omega arith) (omega arith)
