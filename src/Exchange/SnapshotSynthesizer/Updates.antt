-- ===== src/Exchange/SnapshotSynthesizer/Updates.antt =====
-- Incremental updates on the synthesizer and on a table of orders.
use mathlib.Core.Path.{subst}
use electronic_trading_ecosy.Base.{
  ℕ, ◌+◌, ◌%◌, ◌≡◌, refl, sym, ap, ◌∙◌, true, Option, none, some, ok, >>=-eq-ok, ok-injective,
  Option-cases, inl, inr, arith, ltb, ◌==◌, update, assert, in_range,
}
use electronic_trading_ecosy.Common.MemPool.{MemPool, allocate, deallocate}
use electronic_trading_ecosy.Common.MemPool.Search.{allocate_lem}
use electronic_trading_ecosy.Common.Types.{u64_mod}
use electronic_trading_ecosy.Exchange.Messages.{MarketUpdateType, MeMarketUpdate, MdpMarketUpdate}
use electronic_trading_ecosy.Exchange.SnapshotSynthesizer.{
  Synthesizer, set_entry, entry, existing, add_order, modify_order, cancel_order, update_orders,
  add_to_snapshot,
}
use electronic_trading_ecosy.Exchange.SnapshotSynthesizer.View.{
  view, put, revised, apply_update, IsOwned, Implements, placed, cleared, placed-IsOwned,
  placed-same, written-IsOwned, written-same, cleared-IsOwned, cleared-same,
}

deallocate_lem :
    {A : Type 0} (m : MemPool A) (p : ℕ) {pool : MemPool A}
    → deallocate m p ≡ ok pool
    → pool ≡ record m { is_free = update m.is_free p true }
unfolding deallocate
deallocate_lem m p h = ground arith

entry-ok :
    (t o : ℕ) (s : Synthesizer) {e : Option ℕ} → entry t o s ≡ ok e → s.orders_per_ticker t o ≡ e
entry-ok t o s h = ground arith

existing-entry :
    (u : MeMarketUpdate) (s : Synthesizer) {p : ℕ}
    → existing u s ≡ ok p
    → s.orders_per_ticker u.ticker_id u.order_id ≡ some p
unfolding existing
existing-entry u s {p} h = elim (Option-cases (s.orders_per_ticker u.ticker_id u.order_id)) [
  | inl e ↦ absurd (ground arith)
  | inr (q, e) ↦ ground arith
]

revised-entry :
    (u : MeMarketUpdate) (s : Synthesizer) (t o p : ℕ)
    → s.orders_per_ticker t o ≡ some p
    → revised u (view s t o)
      ≡ some (record (s.order_pool.object p) { qty = u.qty; price = u.price })
revised-entry u s t o p mine = rw mine

module _ (u : MeMarketUpdate) (s s' : Synthesizer) (own : IsOwned s) where
  add_order-Implements :
      add_order u s ≡ ok s'
      → Implements (put (view s) u.ticker_id u.order_id (some u)) s.last_inc_seq_num s'
  unfolding add_order
  add_order-Implements h = elim (Option-cases (s.orders_per_ticker u.ticker_id u.order_id)) [
    | inr (q, taken) ↦ absurd (ground arith)
    | inl none_yet ↦
        let (_, he, h1) = >>=-eq-ok (entry u.ticker_id u.order_id s) _ h in
        let h2 = rw (sym (entry-ok u.ticker_id u.order_id s he) ∙ none_yet) at h1 in
        let ((p, pool), got, h3) = >>=-eq-ok (allocate s.order_pool u) _ h2 in
        let (_, free, filled, _, _, _, _) = allocate_lem s.order_pool u got in
        let r : ok (placed s u.ticker_id u.order_id p pool.next_free_index u) ≡ ok s' =
          sym (
            ap (λ m. ok (set_entry u.ticker_id u.order_id (some p) (record s { order_pool = m })))
              filled)
          ∙ h3 in
        subst (Implements (put (view s) u.ticker_id u.order_id (some u)) s.last_inc_seq_num)
          (ok-injective r)
          (record {
            owned = placed-IsOwned s u.ticker_id u.order_id own p pool.next_free_index u free;
            same = placed-same s u.ticker_id u.order_id own p pool.next_free_index u free;
            number = refl;
          })
  ]

  modify_order-Implements :
      modify_order u s ≡ ok s'
      → Implements
          (put (view s) u.ticker_id u.order_id (revised u (view s u.ticker_id u.order_id)))
          s.last_inc_seq_num
          s'
  unfolding modify_order
  modify_order-Implements h =
      let (p, found, h1) = >>=-eq-ok (existing u s) _ h in
      let mine = existing-entry u s found in
      let w = record (s.order_pool.object p) { qty = u.qty; price = u.price } in
      subst
        (Implements
          (put (view s) u.ticker_id u.order_id (revised u (view s u.ticker_id u.order_id)))
          s.last_inc_seq_num)
        (ok-injective h1)
        (record {
          owned = written-IsOwned s u.ticker_id u.order_id own p w;
          same = λ t i.
              written-same s u.ticker_id u.order_id own p w mine t i
              ∙ ap (λ x. put (view s) u.ticker_id u.order_id x t i)
                  (sym (revised-entry u s u.ticker_id u.order_id p mine));
          number = refl;
        })

  cancel_order-Implements :
      cancel_order u s ≡ ok s'
      → Implements (put (view s) u.ticker_id u.order_id none) s.last_inc_seq_num s'
  unfolding cancel_order
  cancel_order-Implements h =
      let (p, found, h1) = >>=-eq-ok (existing u s) _ h in
      let mine = existing-entry u s found in
      let (pool, freed, h2) = >>=-eq-ok (deallocate s.order_pool p) _ h1 in
      let left : pool ≡ record s.order_pool { is_free = update s.order_pool.is_free p true } =
        deallocate_lem s.order_pool p freed in
      let r : ok (cleared s u.ticker_id u.order_id p) ≡ ok s' = rw left at h2 in
      subst (Implements (put (view s) u.ticker_id u.order_id none) s.last_inc_seq_num)
        (ok-injective r)
        (record {
          owned = cleared-IsOwned s u.ticker_id u.order_id own p mine;
          same = cleared-same s u.ticker_id u.order_id own p;
          number = refl;
        })

  unchanged : ok s ≡ ok s' → Implements (view s) s.last_inc_seq_num s'
  unchanged h =
      subst (Implements (view s) s.last_inc_seq_num) (ok-injective h)
        (record { owned = own; same = λ t i. refl; number = refl })

  update_orders-Implements :
      (type : MarketUpdateType)
      → update_orders type u s ≡ ok s'
      → Implements (apply_update type u (view s)) s.last_inc_seq_num s'
  unfolding update_orders apply_update
  update_orders-Implements MarketUpdateType.add h = add_order-Implements h
  update_orders-Implements MarketUpdateType.modify h = modify_order-Implements h
  update_orders-Implements MarketUpdateType.cancel h = cancel_order-Implements h
  update_orders-Implements MarketUpdateType.invalid h = unchanged h
  update_orders-Implements MarketUpdateType.trade h = unchanged h
  update_orders-Implements MarketUpdateType.clear h = unchanged h
  update_orders-Implements MarketUpdateType.snapshot_start h = unchanged h
  update_orders-Implements MarketUpdateType.snapshot_end h = unchanged h
  update_orders-Implements (MarketUpdateType.unnamed byte) h = unchanged h

-- Where the entries have blocks of their own, an incremental update that the synthesizer accepts has
-- its meaning: ADD enters the order, MODIFY sets its price and quantity, CANCEL takes it out, and no
-- other order changes. The entries keep blocks of their own, and the update's number is the one
-- behind the last, which it becomes.
pub add_to_snapshot-Implements :
    (r : MdpMarketUpdate) (s s' : Synthesizer)
    → IsOwned s
    → add_to_snapshot r s ≡ ok s'
    → Implements (apply_update r.me_market_update.type r.me_market_update (view s)) r.seq_num s'
      × (r.seq_num ≡ (s.last_inc_seq_num + 1) % u64_mod)
unfolding add_to_snapshot
add_to_snapshot-Implements r s s' own h =
    let u = r.me_market_update in
    let (_, inside, h1) = >>=-eq-ok (in_range (ltb u.ticker_id s.limits.max_tickers)) _ h in
    let (s1, updated, h2) = >>=-eq-ok (update_orders u.type u s) _ h1 in
    let (_, asserted, h3) =
      >>=-eq-ok (assert (r.seq_num == (s1.last_inc_seq_num + 1) % u64_mod)) _ h2 in
    let i = update_orders-Implements u s s1 own u.type updated in
    (
      subst (Implements (apply_update u.type u (view s)) r.seq_num) (ok-injective h3) (record {
        owned = record { in_use = i.owned.in_use; owner = i.owned.owner };
        same = i.same;
        number = refl;
      }),
      ground (arith, i.number),
    )
