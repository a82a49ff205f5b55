-- ===== src/Trading/RiskManager/Checks.antt =====
-- What the check before an order allows.
use electronic_trading_ecosy.Base.{
  ℕ, zero, suc, ◌^◌, ◌≤◌, ◌<◌, ◌≡◌, ◌⊎◌, ◌↔◌, inl, inr, refl, Bool, true, false, ok, arith, ltb,
  if◌then◌else◌,
}
use electronic_trading_ecosy.Base.Int.{
  ℤ, pos, negsuc, ◌+ℤ◌, ◌*ℤ◌, magnitude, to_i32, checked_i32, abs_i32,
}
use electronic_trading_ecosy.Common.Types.{Side}
use electronic_trading_ecosy.Trading.PositionInfo.{Double, side_to_value}
use electronic_trading_ecosy.Trading.RiskManager.{
  RiskCheckResult, gt_i32, RiskInfo, check_pre_trade_risk,
}

abbrev pub IsTraded : Side → Type 0
IsTraded side = (side ≡ Side.buy) ⊎ (side ≡ Side.sell)

to_i32-small : (qty : ℕ) → qty < 2 ^ 31 → to_i32 qty ≡ pos qty
to_i32-small qty h = ground arith

one_times : (qty : ℕ) → pos 1 *ℤ pos qty ≡ pos qty
unfolding ◌*ℤ◌
one_times qty = ground arith

minus_one_times : (qty : ℕ) → negsuc 0 *ℤ pos (suc qty) ≡ negsuc qty
unfolding ◌*ℤ◌
minus_one_times qty = ground arith

fits_i32-small : (qty : ℕ) → qty < 2 ^ 31 → checked_i32 (pos 1 *ℤ pos qty) ≡ ok (pos 1 *ℤ pos qty)
fits_i32-small qty h = rw (one_times qty) (ground arith)

fits_i32-negated :
    (qty : ℕ) → qty < 2 ^ 31 → checked_i32 (negsuc 0 *ℤ pos qty) ≡ ok (negsuc 0 *ℤ pos qty)
unfolding ◌*ℤ◌
fits_i32-negated zero h = refl
fits_i32-negated (suc n) h = rw (minus_one_times n) (ground arith)

checked_change :
    (side : Side) (qty : ℕ)
    → IsTraded side
    → qty < 2 ^ 31
    → checked_i32 (side_to_value side *ℤ to_i32 qty) ≡ ok (side_to_value side *ℤ pos qty)
unfolding side_to_value
checked_change side qty (inl buy) h = rw (buy, to_i32-small qty h) (fits_i32-small qty h)
checked_change side qty (inr sell) h = rw (sell, to_i32-small qty h) (fits_i32-negated qty h)

-- A value whose magnitude is below 2^31 is an `int32_t`, and so is its magnitude.
checked_size :
    (a : ℤ) → magnitude a < 2 ^ 31 → (checked_i32 a ≡ ok a) × (abs_i32 a ≡ ok (magnitude a))
checked_size a h = (ground arith, ground arith)

outcome : (b : Bool) (x y : RiskCheckResult) → (if b then ok x else ok y) ≡ ok (if b then x else y)
outcome true x y = refl
outcome false x y = refl

module _ (d : Double) where
  -- the position that the order would lead to
  abbrev pub position_after : RiskInfo d → Side → (qty : ℕ) → ℤ
  position_after i side qty = i.position_info.position +ℤ (side_to_value side *ℤ pos qty)

  -- The order is allowed exactly when it is within the three limits.
  abbrev pub IsWithinLimits : RiskInfo d → Side → (qty : ℕ) → Type 0
  IsWithinLimits i side qty =
      (qty ≤ i.risk_cfg.max_order_size)
      × (magnitude (position_after i side qty) ≤ i.risk_cfg.max_position)
      × (d.lt i.position_info.total_pnl i.risk_cfg.max_loss ≡ false)

  abbrev pub after_checks : (i : RiskInfo d) (side : Side) (qty : ℕ) → RiskCheckResult
  after_checks i side qty =
      if ltb i.risk_cfg.max_order_size qty
      then RiskCheckResult.order_too_large
      else if ltb i.risk_cfg.max_position (magnitude (position_after i side qty))
      then RiskCheckResult.position_too_large
      else if d.lt i.position_info.total_pnl i.risk_cfg.max_loss
      then RiskCheckResult.loss_too_large
      else RiskCheckResult.allowed

  pub check_pre_trade_risk_lem :
      (i : RiskInfo d) (side : Side) (qty : ℕ)
      → IsTraded side
      → qty < 2 ^ 31
      → i.risk_cfg.max_position < 2 ^ 31
      → magnitude (position_after i side qty) < 2 ^ 31
      → check_pre_trade_risk d i side qty ≡ ok (after_checks i side qty)
  unfolding check_pre_trade_risk gt_i32 side_to_value
  check_pre_trade_risk_lem i side qty t h k l =
      let change = checked_change side qty t h in
      let limit : to_i32 i.risk_cfg.max_position ≡ pos i.risk_cfg.max_position = to_i32-small _ k in
      let size = checked_size (position_after i side qty) l in
      rw (change, size.0, size.1, limit) (outcome (ltb i.risk_cfg.max_order_size qty) _ _)

  -- For BUY or SELL, quantities and a position that fit an `int32_t`, the check before an order answers
  -- `allowed` exactly when the order's size and the position after it are at most their limits and the
  -- profit is not below the loss limit.
  pub check_pre_trade_risk-allowed :
      (i : RiskInfo d) (side : Side) (qty : ℕ)
      → IsTraded side
      → qty < 2 ^ 31
      → i.risk_cfg.max_position < 2 ^ 31
      → magnitude (position_after i side qty) < 2 ^ 31
      → (check_pre_trade_risk d i side qty ≡ ok RiskCheckResult.allowed) ↔ IsWithinLimits i side qty
  check_pre_trade_risk-allowed i side qty t h k l =
      rw (check_pre_trade_risk_lem i side qty t h k l) ((λ e. ground arith), (λ e. ground arith))
