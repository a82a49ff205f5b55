-- ===== src/Trading/OrderManager.antt =====
-- trading_system/strategy/order_manager_order.h, order_manager.h and order_manager.cpp: one order per
-- ticker and side. The calls that would send the requests are commented out in the source, and the
-- risk check is replaced by `true`; logging is left out.
pub mod Lifecycle
pub mod Numbers
pub mod Printing
mod Tests
use electronic_trading_ecosy.Base.{
  ℕ, ◌+◌, ◌%◌, Bool, true, false, not, ◌&&◌, ◌||◌, Outcome, ok, fault, in_range, ◌>>=◌, ◌>>◌, ltb,
  ◌==◌, if◌then◌else◌, update,
}
use electronic_trading_ecosy.Common.Types.{
  Side, side_to_index, u64_mod, order_id_invalid, ticker_id_invalid, price_invalid, qty_invalid,
}
use electronic_trading_ecosy.Exchange.Messages.{MeClientResponse, ClientResponseType}

pub data OmOrderState : Type 0 where
  invalid pending_new live pending_cancel dead : OmOrderState

pub record OmOrder : Type 0 where
  pub ticker_id : ℕ
  pub order_id : ℕ
  pub side : Side
  pub price : ℕ
  pub qty : ℕ
  pub order_state : OmOrderState

abbrev pub default_order : OmOrder
default_order = record {
  ticker_id = ticker_id_invalid;
  order_id = order_id_invalid;
  side = Side.invalid;
  price = price_invalid;
  qty = qty_invalid;
  order_state = OmOrderState.invalid;
}

-- `ticker_orders_` by ticker and side index; `max_tickers` is its length.
pub record OrderManager : Type 0 where
  pub max_tickers : ℕ
  pub ticker_orders : ℕ → ℕ → OmOrder
  pub next_order_id : ℕ

unfoldable pub new_manager : (max_tickers : ℕ) → OrderManager
new_manager max_tickers = record {
  max_tickers = max_tickers;
  ticker_orders = λ t i. default_order;
  next_order_id = 1;
}

-- The length of `OMOrderSideHashMap`, `sideToIndex(Side::MAX) + 1`.
abbrev pub side_slots : ℕ
side_slots = 4

-- `*order = …`
abbrev pub set_slot : OrderManager → (ticker slot : ℕ) → OmOrder → OrderManager
set_slot m ticker slot o = record m {
  ticker_orders = update m.ticker_orders ticker (update (m.ticker_orders ticker) slot o);
}

unfoldable pub new_order :
    (ticker slot : ℕ) → (ticker_id price : ℕ) → Side → (qty : ℕ) → OrderManager → OrderManager
new_order ticker slot ticker_id price side qty m =
    let m1 = set_slot m ticker slot (record {
      ticker_id = ticker_id;
      order_id = m.next_order_id;
      side = side;
      price = price;
      qty = qty;
      order_state = OmOrderState.pending_new;
    }) in
    record m1 { next_order_id = (m1.next_order_id + 1) % u64_mod }

unfoldable pub cancel_order : (ticker slot : ℕ) → OrderManager → OrderManager
cancel_order ticker slot m =
    set_slot m ticker slot
      (record (m.ticker_orders ticker slot) { order_state = OmOrderState.pending_cancel })

-- `moveOrder` in the state that its `switch` finds.
unfoldable pub move_order_in :
    OmOrderState
    → (ticker slot : ℕ) → (ticker_id price : ℕ) → Side
    → (qty : ℕ) → OrderManager
    → OrderManager
unfolding new_order cancel_order
move_order_in OmOrderState.live ticker slot ticker_id price side qty m =
    if not ((m.ticker_orders ticker slot).price == price)
      || not ((m.ticker_orders ticker slot).qty == qty)
    then cancel_order ticker slot m
    else m
move_order_in OmOrderState.invalid ticker slot ticker_id price side qty m =
    new_order ticker slot ticker_id price side qty m
move_order_in OmOrderState.dead ticker slot ticker_id price side qty m =
    new_order ticker slot ticker_id price side qty m
move_order_in OmOrderState.pending_new ticker slot ticker_id price side qty m = m
move_order_in OmOrderState.pending_cancel ticker slot ticker_id price side qty m = m

unfoldable pub move_order :
    (ticker slot : ℕ) → (ticker_id price : ℕ) → Side → (qty : ℕ) → OrderManager → OrderManager
unfolding move_order_in
move_order ticker slot ticker_id price side qty m =
    move_order_in (m.ticker_orders ticker slot).order_state ticker slot ticker_id price side qty m

unfoldable pub move_orders :
    (ticker_id bid_price ask_price clip : ℕ) → OrderManager → Outcome OrderManager
unfolding move_order side_to_index
move_orders ticker_id bid_price ask_price clip m = do
  in_range (ltb ticker_id m.max_tickers)
  let m1 = move_order ticker_id (side_to_index Side.buy) ticker_id bid_price Side.buy clip m
  ok (move_order ticker_id (side_to_index Side.sell) ticker_id ask_price Side.sell clip m1)

-- The order after a response of this type.
unfoldable pub update_order : ClientResponseType → (left_qty : ℕ) → OmOrder → OmOrder
update_order ClientResponseType.accepted left o = record o { order_state = OmOrderState.live }
update_order ClientResponseType.canceled left o = record o { order_state = OmOrderState.dead }
update_order ClientResponseType.filled left o = record o {
  qty = left;
  order_state = if left == 0 then OmOrderState.dead else o.order_state;
}
update_order ClientResponseType.partial_fill left o = o
update_order ClientResponseType.cancel_rejected left o = o
update_order ClientResponseType.invalid left o = o
update_order (ClientResponseType.unnamed byte) left o = o

-- The response's side index is below `side_slots` for each enumerator; its order identifiers are not
-- read.
unfoldable pub on_order_update : MeClientResponse → OrderManager → Outcome OrderManager
unfolding update_order side_to_index
on_order_update r m = do
  in_range (ltb r.ticker_id m.max_tickers)
  in_range (ltb (side_to_index r.side) side_slots)
  let slot = side_to_index r.side
  ok (
      set_slot m r.ticker_id slot
        (update_order r.type r.left_qty (m.ticker_orders r.ticker_id slot)))

-- the calls that the trade engine makes
pub data Call : Type 0 where
  moves : (ticker_id bid_price ask_price clip : ℕ) → Call
  updates : MeClientResponse → Call

unfoldable pub step : Call → OrderManager → Outcome OrderManager
unfolding move_orders on_order_update
step (moves t b a c) m = move_orders t b a c m
step (updates r) m = on_order_update r m
