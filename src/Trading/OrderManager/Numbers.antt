-- ===== src/Trading/OrderManager/Numbers.antt =====
-- The identifiers of the manager's orders.
use electronic_trading_ecosy.Base.{
  ℕ, ◌+◌, ◌≤◌, ◌<◌, ◌≡◌, ◌≢◌, ◌⊎◌, inl, inr, refl, sym, ap, ◌∙◌, Bool, true, false, ok, arith, ◌==◌,
  ◌&&◌, ltb, >>=-eq-ok, ok-injective, Bool-cases, in_range,
}
use mathlib.Core.Path.{subst}
use electronic_trading_ecosy.Common.Types.{Side, side_to_index, u64_mod}
use electronic_trading_ecosy.Exchange.Messages.{MeClientResponse, ClientResponseType}
use electronic_trading_ecosy.Trading.OrderManager.{
  OmOrderState, OmOrder, OrderManager, set_slot, new_manager, move_order, move_orders, update_order,
  on_order_update, Call, moves, updates, step, side_slots,
}
use electronic_trading_ecosy.Trading.OrderManager.Lifecycle.{
  Moves, stays, opens, cancels, SlotsMove, move_order-SlotsMove, set_slot-each,
}

abbrev pub in_use : OmOrderState → Bool
in_use OmOrderState.invalid = false
in_use OmOrderState.pending_new = true
in_use OmOrderState.live = true
in_use OmOrderState.pending_cancel = true
in_use OmOrderState.dead = true

abbrev pub used : OrderManager → (t i : ℕ) → Bool
used m t i = in_use (m.ticker_orders t i).order_state

abbrev pub id_of : OrderManager → (t i : ℕ) → ℕ
id_of m t i = (m.ticker_orders t i).order_id

-- The orders that were ever opened have identifiers that were given out, and no two the same.
pub record HasOwnNumbers (m : OrderManager) : Type 0 where
  pub numbered : (t i : ℕ) → used m t i ≡ true → id_of m t i < m.next_order_id
  pub distinct :
      (t i t' i' : ℕ)
      → ((t == t') && (i == i')) ≡ false
      → used m t i ≡ true
      → used m t' i' ≡ true
      → id_of m t i ≢ id_of m t' i'

-- An order in use has the identifier that it had, or a new one.
Moves-id :
    {lo hi : ℕ} {o p : OmOrder}
    → Moves lo hi o p
    → in_use p.order_state ≡ true
    → ((p.order_id ≡ o.order_id) × (in_use o.order_state ≡ true))
      ⊎ ((lo ≤ p.order_id) × (p.order_id < hi))
Moves-id (stays e) u = inl (ground arith)
Moves-id (opens free e l k) u = inr (l, k)
Moves-id (cancels e k) u = inl (ground arith)

module _ (m m' : OrderManager) (inv : HasOwnNumbers m) (v : SlotsMove m m') (t0 i0 : ℕ)
    (others : (t i : ℕ)
      → ((t == t0) && (i == i0)) ≡ false
      → m'.ticker_orders t i ≡ m.ticker_orders t i) where
  kept-numbered : (t i : ℕ) → used m' t i ≡ true → id_of m' t i < m'.next_order_id
  kept-numbered t i u = elim (Moves-id (v.slots t i) u) [
    | inl (same, was) ↦ omega (arith, inv.numbered t i was, v.numbers)
    | inr (above, below) ↦ below
  ]

  -- The slot of the call against another one.
  own-distinct :
      (t i t' i' : ℕ)
      → ((t == t') && (i == i')) ≡ false
      → ((t' == t0) && (i' == i0)) ≡ false
      → used m' t i ≡ true
      → used m' t' i' ≡ true
      → id_of m' t i ≢ id_of m' t' i'
  own-distinct t i t' i' apart other u u' same =
      let e = others t' i' other in
      let was' : used m t' i' ≡ true = ap (λ o. in_use o.order_state) (sym e) ∙ u' in
      let id' : id_of m' t' i' ≡ id_of m t' i' = ap (λ o. o.order_id) e in
      elim (Moves-id (v.slots t i) u) [
        | inl (kept, was) ↦ inv.distinct t i t' i' apart was was' (sym kept ∙ same ∙ id')
        | inr (above, below) ↦ absurd (omega (arith, inv.numbered t' i' was', id', same))
      ]

  kept-HasOwnNumbers : HasOwnNumbers m'
  kept-HasOwnNumbers = record {
    numbered = kept-numbered;
    distinct = λ t i t' i' apart u u'. elim (Bool-cases ((t' == t0) && (i' == i0))) [
      | inr other ↦ own-distinct t i t' i' apart other u u'
      | inl own' ↦ λ same. own-distinct t' i' t i (ground arith) (ground arith) u' u (sym same)
    ];
  }

move_order-HasOwnNumbers :
    (t slot ticker price : ℕ) (side : Side) (qty : ℕ) (m : OrderManager)
    → HasOwnNumbers m
    → m.next_order_id + 1 < u64_mod
    → HasOwnNumbers (move_order t slot ticker price side qty m)
move_order-HasOwnNumbers t slot ticker price side qty m inv small =
    let (v, others) = move_order-SlotsMove t slot ticker price side qty m small in
    kept-HasOwnNumbers m (move_order t slot ticker price side qty m) inv v t slot others

move_order-next :
    (t slot ticker price : ℕ) (side : Side) (qty : ℕ) (m : OrderManager)
    → m.next_order_id + 1 < u64_mod
    → (move_order t slot ticker price side qty m).next_order_id ≤ m.next_order_id + 1
unfolding move_order
move_order-next t slot ticker price side qty m small = ground arith

update_order-kept :
    (t : ClientResponseType) (left : ℕ) (o : OmOrder)
    → in_use o.order_state ≡ true
    → ((update_order t left o).order_id ≡ o.order_id)
      × (in_use (update_order t left o).order_state ≡ true)
unfolding update_order
update_order-kept t left o u = ground arith

same-HasOwnNumbers :
    (m m' : OrderManager)
    → HasOwnNumbers m
    → m'.next_order_id ≡ m.next_order_id
    → ((t i : ℕ) → (used m' t i ≡ used m t i) × (id_of m' t i ≡ id_of m t i))
    → HasOwnNumbers m'
same-HasOwnNumbers m m' inv n same = record {
  numbered = λ t i u. omega (arith, n, (same t i).1, inv.numbered t i (sym (same t i).0 ∙ u));
  distinct = λ t i t' i' apart u u' e.
      inv.distinct t i t' i' apart (sym (same t i).0 ∙ u) (sym (same t' i').0 ∙ u')
        (sym (same t i).1 ∙ e ∙ (same t' i').1);
}

on_order_update-HasOwnNumbers :
    (r : MeClientResponse) (m : OrderManager) {m' : OrderManager}
    → HasOwnNumbers m
    → used m r.ticker_id (side_to_index r.side) ≡ true
    → on_order_update r m ≡ ok m'
    → HasOwnNumbers m'
unfolding on_order_update
on_order_update-HasOwnNumbers r m {m'} inv u e =
    let slot : ℕ = side_to_index r.side in
    let p : OmOrder = update_order r.type r.left_qty (m.ticker_orders r.ticker_id slot) in
    let (same_id, still) =
      update_order-kept r.type r.left_qty (m.ticker_orders r.ticker_id slot) u in
    let (_, e1, r1) = >>=-eq-ok (in_range (ltb r.ticker_id m.max_tickers)) _ e in
    let (_, e2, r2) = >>=-eq-ok (in_range (ltb slot side_slots)) _ r1 in
    subst HasOwnNumbers (ok-injective r2) (
      same-HasOwnNumbers m (set_slot m r.ticker_id slot p) inv refl (
        set_slot-each
          (λ t i (q : OmOrder). (in_use q.order_state ≡ used m t i) × (q.order_id ≡ id_of m t i)) m
          r.ticker_id slot p (still ∙ sym u, same_id) (λ t i. (refl, refl))))

move_orders-HasOwnNumbers :
    (t b a c : ℕ) (m : OrderManager) {m' : OrderManager}
    → HasOwnNumbers m
    → m.next_order_id + 2 < u64_mod
    → move_orders t b a c m ≡ ok m'
    → HasOwnNumbers m'
unfolding move_orders
move_orders-HasOwnNumbers t b a c m {m'} inv small e =
    let (_, e1, r1) = >>=-eq-ok (in_range (ltb t m.max_tickers)) _ e in
    let m1 : OrderManager = move_order t (side_to_index Side.buy) t b Side.buy c m in
    let n1 = move_order-next t (side_to_index Side.buy) t b Side.buy c m (omega arith) in
    let inv1 =
      move_order-HasOwnNumbers t (side_to_index Side.buy) t b Side.buy c m inv (omega arith) in
    subst HasOwnNumbers (ok-injective r1) (
      move_order-HasOwnNumbers t (side_to_index Side.sell) t a Side.sell c m1 inv1
        (omega (arith, n1)))

-- The exchange answers only orders that were sent.
abbrev pub Answers : Call → OrderManager → Type 0
Answers (moves t b a c) m = m.next_order_id + 2 < u64_mod
Answers (updates r) m = used m r.ticker_id (side_to_index r.side) ≡ true

-- As long as the identifiers do not run out, and responses come for slots with an order only, each
-- call of the manager that goes through keeps the identifiers of its orders below the next one to
-- give out and pairwise distinct.
pub step-HasOwnNumbers :
    (call : Call) (m : OrderManager) {m' : OrderManager}
    → HasOwnNumbers m
    → Answers call m
    → step call m ≡ ok m'
    → HasOwnNumbers m'
unfolding step
step-HasOwnNumbers (moves t b a c) m inv ans e = move_orders-HasOwnNumbers t b a c m inv ans e
step-HasOwnNumbers (updates r) m inv ans e = on_order_update-HasOwnNumbers r m inv ans e

pub new_manager-HasOwnNumbers : (n : ℕ) → HasOwnNumbers (new_manager n)
unfolding new_manager
new_manager-HasOwnNumbers n = record { numbered = λ t i u. cc; distinct = λ t i t' i' d u u'. cc }

-- A response that names another order of the same ticker and side has the same effect as one that
-- names the current order: neither of its identifiers is looked at.
pub on_order_update-ignores_ids :
    (r : MeClientResponse) (m : OrderManager) (client_id client_order_id market_order_id : ℕ)
    → on_order_update
        (record r {
          client_id = client_id;
          client_order_id = client_order_id;
          market_order_id = market_order_id;
        })
        m
      ≡ on_order_update r m
unfolding on_order_update
on_order_update-ignores_ids r m c o k = refl
