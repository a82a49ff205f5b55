-- ===== src/Trading/RiskManager/Tests.antt =====
-- The theorem about the check at a limit of 15, with integers in place of `double`.
use electronic_trading_ecosy.Base.{◌≡◌, inr, refl, none, ok, arith}
use electronic_trading_ecosy.Base.Int.{ℤ, pos, negsuc, ◌+ℤ◌, ◌*ℤ◌, is_negative}
use electronic_trading_ecosy.Common.Types.{Side}
use electronic_trading_ecosy.Trading.PositionInfo.{Double, side_to_value}
use electronic_trading_ecosy.Trading.RiskManager.{RiskCheckResult, RiskInfo, check_pre_trade_risk}
use electronic_trading_ecosy.Trading.RiskManager.Checks.{check_pre_trade_risk-allowed}

abbrev integers : Double
integers = record {
  Value = ℤ;
  of_ℤ = λ a. a;
  half = pos 1;
  add = ◌+ℤ◌;
  sub = λ a b. a +ℤ (negsuc 0 *ℤ b);
  mul = ◌*ℤ◌;
  div = λ a b. a;
  lt = λ a b. is_negative (a +ℤ (negsuc 0 *ℤ b));
}

-- long 10, with nothing gained or lost
abbrev long_ten : RiskInfo integers
long_ten = record {
  position_info = record {
    position = pos 10;
    real_pnl = pos 0;
    unreal_pnl = pos 0;
    total_pnl = pos 0;
    open_vwap = λ i. pos 0;
    volume = 10;
    bbo = none;
  };
  risk_cfg = record { max_order_size = 20; max_position = 15; max_loss = negsuc 99 };
}

-- Selling 20 leads to a short position of 10, which is within the limit.
check_pre_trade_risk-allowed_example :
    check_pre_trade_risk integers long_ten Side.sell 20 ≡ ok RiskCheckResult.allowed
unfolding side_to_value ◌+ℤ◌ ◌*ℤ◌
check_pre_trade_risk-allowed_example =
    (check_pre_trade_risk-allowed integers long_ten Side.sell 20 (inr refl) (omega arith)
        (omega arith) (omega arith)).1
      (omega arith, omega arith, refl)
