-- ===== src/Trading/PositionInfo/Tests.antt =====
-- The theorems about positions with integers in place of `double`.
use electronic_trading_ecosy.Base.{◌/◌, ◌≡◌, refl, none, ok, update, if◌then◌else◌}
use electronic_trading_ecosy.Base.Int.{ℤ, pos, negsuc, ◌+ℤ◌, ◌*ℤ◌, magnitude, is_negative}
use electronic_trading_ecosy.Common.Types.{Side, side_to_index}
use electronic_trading_ecosy.Exchange.Messages.{ClientResponseType, MeClientResponse}
use electronic_trading_ecosy.Trading.PositionInfo.{Double, PositionInfo, add_position, add_fill}
use electronic_trading_ecosy.Trading.PositionInfo.Fills.{add_fill-total}

abbrev negated : ℤ → ℤ
negated a = negsuc 0 *ℤ a

-- division of magnitudes, towards zero
abbrev quotient : ℤ → ℤ → ℤ
quotient a b =
    let q = pos (magnitude a / magnitude b) in if is_negative (a *ℤ b) then negated q else q

abbrev pub integers : Double
integers = record {
  Value = ℤ;
  of_ℤ = λ a. a;
  half = pos 1;
  add = ◌+ℤ◌;
  sub = λ a b. a +ℤ negated b;
  mul = ◌*ℤ◌;
  div = quotient;
  lt = λ a b. is_negative (a +ℤ negated b);
}

-- long 10, bought at 5
abbrev pub long_ten : PositionInfo integers
long_ten = record {
  position = pos 10;
  real_pnl = pos 0;
  unreal_pnl = pos 0;
  total_pnl = pos 0;
  open_vwap = update (λ i. pos 0) 2 (pos 50);
  volume = 10;
  bbo = none;
}

abbrev sold_four : MeClientResponse
sold_four = record {
  type = ClientResponseType.filled;
  client_id = 1;
  ticker_id = 1;
  client_order_id = 3;
  market_order_id = 1;
  side = Side.sell;
  price = 8;
  exec_qty = 4;
  left_qty = 0;
}

-- Selling four of the ten goes through.
four_sold : (p : PositionInfo integers) × (add_fill integers sold_four long_ten ≡ ok p)
unfolding add_fill ◌*ℤ◌ ◌+ℤ◌ side_to_index
four_sold = (_, refl)

add_fill-total_example :
    (four_sold.0.position ≡ add_position integers (pos 10) 4 Side.sell)
    × (four_sold.0.total_pnl ≡ four_sold.0.unreal_pnl +ℤ four_sold.0.unreal_pnl)
add_fill-total_example = add_fill-total integers sold_four long_ten four_sold.0 four_sold.1
