-- ===== src/Trading/OrderManager/Tests.antt =====
-- The theorems about the manager at its first orders.
use electronic_trading_ecosy.Base.{ℕ, ◌≡◌, refl, ok, arith, ◌==◌, ◌&&◌, false}
use electronic_trading_ecosy.Common.Types.{Side}
use electronic_trading_ecosy.Trading.OrderManager.{
  OrderManager, new_manager, move_order, moves, step,
}
use electronic_trading_ecosy.Trading.OrderManager.Lifecycle.{SlotsMove, move_order-SlotsMove}
use electronic_trading_ecosy.Trading.OrderManager.Numbers.{
  HasOwnNumbers, step-HasOwnNumbers, new_manager-HasOwnNumbers,
}

abbrev start : OrderManager
start = new_manager 8

two_orders : (m : OrderManager) × (step (moves 1 5 7 10) start ≡ ok m)
unfolding step new_manager
two_orders = (_, refl)

step-HasOwnNumbers_example : HasOwnNumbers two_orders.0
unfolding new_manager
step-HasOwnNumbers_example =
    step-HasOwnNumbers (moves 1 5 7 10) start {m' = two_orders.0} (new_manager-HasOwnNumbers 8)
      (omega arith) two_orders.1

move_order-SlotsMove_example :
    SlotsMove start (move_order 1 2 1 5 Side.buy 10 start)
    × ((t i : ℕ)
        → ((t == 1) && (i == 2)) ≡ false
        → (move_order 1 2 1 5 Side.buy 10 start).ticker_orders t i ≡ start.ticker_orders t i)
unfolding new_manager
move_order-SlotsMove_example = move_order-SlotsMove 1 2 1 5 Side.buy 10 start (omega arith)
