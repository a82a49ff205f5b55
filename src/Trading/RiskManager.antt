-- ===== src/Trading/RiskManager.antt =====
-- trading_system/strategy/risk_manager.h and risk_manager.cpp: the check of an order before it is
-- sent, with `RiskCfg` and `TradeEngineCfg` of common/common_types.h.
pub mod Checks
mod Tests
use electronic_trading_ecosy.Base.{
  ℕ, ◌+◌, Bool, true, false, Outcome, ok, fault, undefined, in_range, ◌>>=◌, ◌>>◌, ltb,
  if◌then◌else◌,
}
use electronic_trading_ecosy.Base.Int.{ℤ, pos, negsuc, ◌+ℤ◌, ◌*ℤ◌, to_i32, checked_i32, abs_i32}
use electronic_trading_ecosy.Common.Types.{Side}
use electronic_trading_ecosy.Trading.PositionInfo.{
  Double, PositionInfo, PositionKeeper, side_to_value,
}

pub data RiskCheckResult : Type 0 where
  invalid order_too_large position_too_large loss_too_large allowed : RiskCheckResult

-- `a > b` on `int32_t`
unfoldable pub gt_i32 : ℤ → ℤ → Bool
gt_i32 (pos a) (pos b) = ltb b a
gt_i32 (pos a) (negsuc b) = true
gt_i32 (negsuc a) (pos b) = false
gt_i32 (negsuc a) (negsuc b) = ltb a b

module _ (d : Double) where
  open d use {Value, lt}

  pub record RiskCfg : Type 0 where
    pub max_order_size : ℕ
    pub max_position : ℕ
    pub max_loss : Value

  pub record TradeEngineCfg : Type 0 where
    pub clip : ℕ
    pub threshold : Value
    pub risk_cfg : RiskCfg

  pub record RiskInfo : Type 0 where
    pub position_info : PositionInfo d
    pub risk_cfg : RiskCfg

  unfoldable pub check_pre_trade_risk : RiskInfo → Side → (qty : ℕ) → Outcome RiskCheckResult
  unfolding side_to_value
  check_pre_trade_risk i side qty =
      if ltb i.risk_cfg.max_order_size qty then ok RiskCheckResult.order_too_large else (do
        change ← checked_i32 (side_to_value side *ℤ to_i32 qty)
        position ← checked_i32 (i.position_info.position +ℤ change)
        size ← abs_i32 position
        ok (
            if gt_i32 (pos size) (to_i32 i.risk_cfg.max_position)
            then RiskCheckResult.position_too_large
            else if lt i.position_info.total_pnl i.risk_cfg.max_loss
            then RiskCheckResult.loss_too_large
            else RiskCheckResult.allowed))

  -- `RiskManager`: the constructor takes each ticker's position by pointer, so a check reads the
  -- position that the keeper has at the time.
  unfoldable pub ticker_risk : PositionKeeper d → (ℕ → TradeEngineCfg) → (ticker_id : ℕ) → RiskInfo
  ticker_risk keeper ticker_cfg ticker_id = record {
    position_info = keeper.ticker_position ticker_id;
    risk_cfg = (ticker_cfg ticker_id).risk_cfg;
  }

  unfoldable pub manager_check_pre_trade_risk :
      PositionKeeper d
      → (ℕ → TradeEngineCfg)
      → (ticker_id : ℕ) → Side
      → (qty : ℕ) → Outcome RiskCheckResult
  unfolding check_pre_trade_risk ticker_risk
  manager_check_pre_trade_risk keeper ticker_cfg ticker_id side qty = do
    in_range (ltb ticker_id keeper.max_tickers)
    check_pre_trade_risk (ticker_risk keeper ticker_cfg ticker_id) side qty
