-- ===== src/Trading/PositionInfo/Fills.antt =====
-- What a fill does to a position.
use mathlib.Core.Path.{subst}
use electronic_trading_ecosy.Base.{
  ℕ, suc, ◌+◌, ◌%◌, ◌<◌, ◌≡◌, inl, inr, refl, true, ok, arith, ◌>>=◌, >>=-eq-ok, ok-injective,
  Bool-cases, ap, sym, ◌∙◌, ltb, fault, Bool, false, if◌then◌else◌, undefined,
}
use electronic_trading_ecosy.Base.Int.{
  ℤ, pos, negsuc, ◌+ℤ◌, ◌*ℤ◌, is_negative, is_zero, fits_i32, checked_i32, abs_i32,
}
use electronic_trading_ecosy.Common.Types.{Side, side_to_index, u32_mod}
use electronic_trading_ecosy.Exchange.Messages.{MeClientResponse}
use electronic_trading_ecosy.Trading.PositionInfo.{
  Double, PositionInfo, side_to_value, of_ℕ, add_position, increase, decrease, unrealised, settle,
  add_fill,
}

module _ (d : Double) where
  -- A BUY of less than 2^32 moves the position up by its quantity, as long as the old and the new
  -- position fit an `int32_t`.
  pub add_position-buy :
      (position : ℤ) (qty : ℕ)
      → fits_i32 position ≡ true
      → qty < u32_mod
      → fits_i32 (position +ℤ pos qty) ≡ true
      → add_position d position qty Side.buy ≡ position +ℤ pos qty
  unfolding add_position side_to_value ◌+ℤ◌
  add_position-buy position qty h k l = ground arith

  -- A SELL of a quantity from 1 up to 2^32 - 1 moves the position down by it, as long as the old
  -- and the new position fit an `int32_t`.
  pub add_position-sell :
      (position : ℤ) (qty : ℕ)
      → fits_i32 position ≡ true
      → suc qty < u32_mod
      → fits_i32 (position +ℤ negsuc qty) ≡ true
      → add_position d position (suc qty) Side.sell ≡ position +ℤ negsuc qty
  unfolding add_position side_to_value ◌+ℤ◌
  add_position-sell position qty h k l = ground arith

  settle-total :
      (price : ℕ) (p q : PositionInfo d)
      → settle d price p ≡ ok q
      → (q.position ≡ p.position) × (q.total_pnl ≡ d.add q.unreal_pnl q.unreal_pnl)
  unfolding settle
  settle-total price p q h = elim (Bool-cases (is_zero p.position)) [
    | inl e ↦
        let r : ok _ ≡ ok q = rw e at h in
        (
          sym (ap (λ s. s.position) (ok-injective r)),
          subst (λ s. s.total_pnl ≡ d.add s.unreal_pnl s.unreal_pnl) (ok-injective r) refl,
        )
    | inr e ↦
        let r = rw e at h in
        let (u, _, k) = >>=-eq-ok (unrealised d (of_ℕ d price) p) _ r in
        (
          sym (ap (λ s. s.position) (ok-injective k)),
          subst (λ s. s.total_pnl ≡ d.add s.unreal_pnl s.unreal_pnl) (ok-injective k) refl,
        )
  ]

  guarded-position :
      (b : Bool) (p q : PositionInfo d)
      → (if b then ok p else fault undefined) ≡ ok q
      → q.position ≡ p.position
  guarded-position true p q h = sym (ap (λ s. s.position) (ok-injective h))
  guarded-position false p q h = cc

  decrease-position :
      (r : MeClientResponse) (old : ℤ) (p q : PositionInfo d)
      → decrease d r old p ≡ ok q
      → q.position ≡ p.position
  unfolding decrease
  decrease-position r old p q h =
      let (abs_old, _, h1) = >>=-eq-ok (abs_i32 old) _ h in
      let (abs_new, _, h2) = >>=-eq-ok (abs_i32 p.position) _ h1 in
      let (product, _, h3) = >>=-eq-ok (checked_i32 (p.position *ℤ old)) _ h2 in
      elim (Bool-cases (is_negative product)) [
        | inl e ↦ guarded-position (ltb (side_to_index r.side) 4) _ q (rw e at h3)
        | inr e ↦ (let k : ok _ ≡ ok q = rw e at h3 in sym (ap (λ s. s.position) (ok-injective k)))
      ]

  increase-position :
      (r : MeClientResponse) (p q : PositionInfo d)
      → increase d r p ≡ ok q
      → q.position ≡ p.position
  unfolding increase
  increase-position r p q h = guarded-position (ltb (side_to_index r.side) 4) _ q h

  -- A fill that goes through leaves the position that `position_ += exec_qty * side_value` gives, and
  -- as total profit the unrealised profit added to itself: the realised profit is not part of it.
  pub add_fill-total :
      (r : MeClientResponse) (p q : PositionInfo d)
      → add_fill d r p ≡ ok q
      → (q.position ≡ add_position d p.position r.exec_qty r.side)
        × (q.total_pnl ≡ d.add q.unreal_pnl q.unreal_pnl)
  unfolding add_fill
  add_fill-total r p q h =
      let p1 : PositionInfo d = record p {
        position = add_position d p.position r.exec_qty r.side;
        volume = (p.volume + r.exec_qty) % u32_mod;
      } in
      let (direction, _, h1) = >>=-eq-ok (checked_i32 (p.position *ℤ side_to_value r.side)) _ h in
      elim (Bool-cases (is_negative direction)) [
        | inl e ↦
            (let k : (decrease d r p.position p1 >>= settle d r.price) ≡ ok q = rw e at h1 in
              let (p2, d2, s2) = >>=-eq-ok (decrease d r p.position p1) (settle d r.price) k in
              let (same, total) = settle-total r.price p2 q s2 in
              (same ∙ decrease-position r p.position p1 p2 d2, total))
        | inr e ↦
            (let k : (increase d r p1 >>= settle d r.price) ≡ ok q = rw e at h1 in
              let (p2, d2, s2) = >>=-eq-ok (increase d r p1) (settle d r.price) k in
              let (same, total) = settle-total r.price p2 q s2 in
              (same ∙ increase-position r p1 p2 d2, total))
      ]
