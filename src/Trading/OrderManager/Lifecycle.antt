-- ===== src/Trading/OrderManager/Lifecycle.antt =====
-- The states that an order of the manager passes through.
use electronic_trading_ecosy.Base.{
  ℕ, ◌+◌, ◌%◌, ◌≤◌, ◌<◌, ◌≡◌, ◌≢◌, ◌⊎◌, ◌↔◌, inl, inr, refl, false, arith, update, ◌==◌, Bool-cases,
  if◌then◌else◌, sym, ◌∙◌, ◌&&◌, ◌||◌, not,
}
use mathlib.Core.Path.{subst, subst₂}
use electronic_trading_ecosy.Common.Types.{Side, u64_mod}
use electronic_trading_ecosy.Trading.OrderManager.{
  OmOrderState, OmOrder, OrderManager, set_slot, new_order, cancel_order, move_order_in, move_order,
}

-- What is read from a slot after a write to one.
pub slot-set_slot :
    (m : OrderManager) (t i : ℕ) (o : OmOrder) (t' i' : ℕ)
    → (set_slot m t i o).ticker_orders t' i'
      ≡ (if (t' == t) && (i' == i) then o else m.ticker_orders t' i')
unfolding update
slot-set_slot m t i o t' i' = ground arith

-- What holds of the written order at its slot, and of the others at theirs, holds of every slot.
pub set_slot-each {ℓ} :
    (P : ℕ → ℕ → OmOrder → Type ℓ) (m : OrderManager) (t i : ℕ) (o : OmOrder)
    → P t i o
    → ((t' i' : ℕ) → P t' i' (m.ticker_orders t' i'))
    → (t' i' : ℕ) → P t' i' ((set_slot m t i o).ticker_orders t' i')
set_slot-each P m t i o new old t' i' = elim (Bool-cases ((t' == t) && (i' == i))) [
  | inl here ↦
      let at_t : t ≡ t' = ground arith in
      let at_i : i ≡ i' = ground arith in
      subst (P t' i') (sym (slot-set_slot m t i o t' i' ∙ rw here))
        (subst₂ (λ u j. P u j o) at_t at_i new)
  | inr elsewhere ↦ subst (P t' i') (sym (slot-set_slot m t i o t' i' ∙ rw elsewhere)) (old t' i')
]

-- An order `o` may become `p` by a call that uses the identifiers from `lo` up to `hi`.
pub data Moves (lo hi : ℕ) (o : OmOrder) : OmOrder → Type 0 where
  stays : {p : OmOrder} → p ≡ o → Moves lo hi o p
  -- a new order, in a slot with none or with a dead one
  opens :
      {p : OmOrder}
      → (o.order_state ≡ OmOrderState.invalid) ⊎ (o.order_state ≡ OmOrderState.dead)
      → p.order_state ≡ OmOrderState.pending_new
      → lo ≤ p.order_id
      → p.order_id < hi
      → Moves lo hi o p
  -- a cancellation of a live order, which keeps all else
  cancels :
      {p : OmOrder}
      → o.order_state ≡ OmOrderState.live
      → p ≡ record o { order_state = OmOrderState.pending_cancel }
      → Moves lo hi o p

-- Every slot of `m` may become that of `m'`.
pub record SlotsMove (m m' : OrderManager) : Type 0 where
  pub numbers : m.next_order_id ≤ m'.next_order_id
  pub slots :
      (t i : ℕ)
      → Moves m.next_order_id m'.next_order_id (m.ticker_orders t i) (m'.ticker_orders t i)

new_order-SlotsMove :
    (t slot ticker price : ℕ) (side : Side) (qty : ℕ) (m : OrderManager)
    → ((m.ticker_orders t slot).order_state ≡ OmOrderState.invalid)
      ⊎ ((m.ticker_orders t slot).order_state ≡ OmOrderState.dead)
    → m.next_order_id + 1 < u64_mod
    → SlotsMove m (new_order t slot ticker price side qty m)
unfolding new_order
new_order-SlotsMove t slot ticker price side qty m free small = record {
  numbers = omega arith;
  slots =
      set_slot-each
        (λ t' i' p.
          Moves m.next_order_id ((m.next_order_id + 1) % u64_mod) (m.ticker_orders t' i') p)
        m t slot _ (opens free refl (omega arith) (omega arith)) (λ t' i'. stays refl);
}

cancel_order-SlotsMove :
    (t slot : ℕ) (m : OrderManager)
    → (m.ticker_orders t slot).order_state ≡ OmOrderState.live
    → SlotsMove m (cancel_order t slot m)
unfolding cancel_order
cancel_order-SlotsMove t slot m live = record {
  numbers = omega arith;
  slots =
      set_slot-each (λ t' i' p. Moves m.next_order_id m.next_order_id (m.ticker_orders t' i') p) m t
        slot _ (cancels live refl) (λ t' i'. stays refl);
}

SlotsMove-refl : (m : OrderManager) → SlotsMove m m
SlotsMove-refl m = record { numbers = omega arith; slots = λ t i. stays refl }

move_order_in-SlotsMove :
    (st : OmOrderState) (t slot ticker price : ℕ) (side : Side) (qty : ℕ) (m : OrderManager)
    → (m.ticker_orders t slot).order_state ≡ st
    → m.next_order_id + 1 < u64_mod
    → SlotsMove m (move_order_in st t slot ticker price side qty m)
unfolding move_order_in
move_order_in-SlotsMove OmOrderState.live t slot ticker price side qty m e small =
    elim (Bool-cases (
      not ((m.ticker_orders t slot).price == price) || not ((m.ticker_orders t slot).qty == qty))) [
        | inl differs ↦ rw differs (cancel_order-SlotsMove t slot m e)
        | inr same ↦ rw same (SlotsMove-refl m)
      ]
move_order_in-SlotsMove OmOrderState.invalid t slot ticker price side qty m e small =
    new_order-SlotsMove t slot ticker price side qty m (inl e) small
move_order_in-SlotsMove OmOrderState.dead t slot ticker price side qty m e small =
    new_order-SlotsMove t slot ticker price side qty m (inr e) small
move_order_in-SlotsMove OmOrderState.pending_new t slot ticker price side qty m e small =
    SlotsMove-refl m
move_order_in-SlotsMove OmOrderState.pending_cancel t slot ticker price side qty m e small =
    SlotsMove-refl m

move_order_in-other :
    (st : OmOrderState) (t slot ticker price : ℕ) (side : Side) (qty : ℕ) (m : OrderManager)
    (t' i' : ℕ)
    → ((t' == t) && (i' == slot)) ≡ false
    → (move_order_in st t slot ticker price side qty m).ticker_orders t' i' ≡ m.ticker_orders t' i'
unfolding move_order_in
move_order_in-other OmOrderState.live t slot ticker price side qty m t' i' h = ground (
  arith,
  slot-set_slot m t slot
      (record (m.ticker_orders t slot) { order_state = OmOrderState.pending_cancel }) t' i',
)
move_order_in-other OmOrderState.invalid t slot ticker price side qty m t' i' h =
    slot-set_slot m t slot _ t' i' ∙ rw h
move_order_in-other OmOrderState.dead t slot ticker price side qty m t' i' h =
    slot-set_slot m t slot _ t' i' ∙ rw h
move_order_in-other OmOrderState.pending_new t slot ticker price side qty m t' i' h = refl
move_order_in-other OmOrderState.pending_cancel t slot ticker price side qty m t' i' h = refl

-- As long as the identifiers do not run out, a call of `moveOrder` opens an order under a new
-- identifier in a slot that has none or a dead one, cancels a live order, or changes nothing; and
-- it touches no slot but its own.
pub move_order-SlotsMove :
    (t slot ticker price : ℕ) (side : Side) (qty : ℕ) (m : OrderManager)
    → m.next_order_id + 1 < u64_mod
    → let m' = move_order t slot ticker price side qty m in
      SlotsMove m m'
      × ((t' i' : ℕ)
          → ((t' == t) && (i' == slot)) ≡ false
          → m'.ticker_orders t' i' ≡ m.ticker_orders t' i')
unfolding move_order
move_order-SlotsMove t slot ticker price side qty m small = (
  move_order_in-SlotsMove _ t slot ticker price side qty m refl small,
  λ t' i' h. move_order_in-other _ t slot ticker price side qty m t' i' h,
)

-- A live order that is asked to move goes into cancellation exactly when its price or its quantity
-- is to change.
move_order-live :
    (t slot ticker price : ℕ) (side : Side) (qty : ℕ) (m : OrderManager)
    → (m.ticker_orders t slot).order_state ≡ OmOrderState.live
    → let m' = move_order t slot ticker price side qty m in
      let o = m.ticker_orders t slot in
      ((m'.ticker_orders t slot).order_state ≡ OmOrderState.pending_cancel)
      ↔ ((o.price ≢ price) ⊎ (o.qty ≢ qty))
unfolding move_order move_order_in cancel_order update
move_order-live t slot ticker price side qty m live = (λ h. ground arith, λ d. ground arith)
