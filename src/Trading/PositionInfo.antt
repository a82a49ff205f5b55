-- ===== src/Trading/PositionInfo.antt =====
-- trading_system/strategy/position_info.h and position_keeper.h: the position in one instrument, and
-- the table of them. `double` is a parameter, with the operations that the code uses; logging is left
-- out.
pub mod Fills
pub mod Tests
use electronic_trading_ecosy.Base.{
  ℕ, ◌+◌, ◌-◌, ◌*◌, ◌%◌, ◌^◌, Bool, true, false, not, ◌&&◌, Option, none, some, Outcome, ok, fault,
  undefined, in_range, deref, ◌>>=◌, ◌>>◌, ltb, leb, ◌==◌, if◌then◌else◌, update, min,
}
use electronic_trading_ecosy.Base.Int.{
  ℤ, pos, negsuc, ◌+ℤ◌, ◌*ℤ◌, magnitude, is_negative, is_zero, to_u32, to_i32, checked_i32, abs_i32,
}
use electronic_trading_ecosy.Common.Types.{
  Side, same_side, side_to_index, u32_mod, u64_mod, price_invalid,
}
use electronic_trading_ecosy.Exchange.Messages.{MeClientResponse}

-- `sideToValue`
unfoldable pub side_to_value : Side → ℤ
side_to_value Side.invalid = pos 0
side_to_value Side.buy = pos 1
side_to_value Side.sell = negsuc 0
side_to_value Side.max = pos 2
side_to_value (Side.unnamed byte) = if ltb byte 128 then pos byte else negsuc (255 - byte)

pub record Double : Type 1 where
  pub Value : Type 0
  pub of_ℤ : ℤ → Value
  pub half : Value
  pub add : Value → Value → Value
  pub sub : Value → Value → Value
  pub mul : Value → Value → Value
  pub div : Value → Value → Value
  pub lt : Value → Value → Bool

-- `BestBidOffer`: the prices of the two levels that it points to, `none` for a null pointer.
pub record BestPrices : Type 0 where
  pub bid_price : Option ℕ
  pub ask_price : Option ℕ

module _ (d : Double) where
  open d use {Value, of_ℤ, half, add, sub, mul, div}

  -- `open_vwap` is indexed by side. The constructor leaves it and `volume` unwritten.
  pub record PositionInfo : Type 0 where
    pub position : ℤ
    pub real_pnl : Value
    pub unreal_pnl : Value
    pub total_pnl : Value
    pub open_vwap : ℕ → Value
    pub volume : ℕ
    pub bbo : Option BestPrices

  abbrev pub of_ℕ : ℕ → Value
  of_ℕ n = of_ℤ (pos n)

  abbrev pub opposite : Side → Side
  opposite side = if same_side side Side.buy then Side.sell else Side.buy

  -- `position_ += exec_qty * side_value`, in unsigned arithmetic and back
  unfoldable pub add_position : ℤ → (exec_qty : ℕ) → Side → ℤ
  unfolding side_to_value
  add_position position exec_qty side =
      to_i32 ((to_u32 position + (exec_qty * to_u32 (side_to_value side)) % u32_mod) % u32_mod)

  -- The size of `open_vwap_`. An access by `[]` beyond it, which the index of a side that is no
  -- enumerator makes, is not tested.
  abbrev pub vwap_slots : ℕ
  vwap_slots = 4

  -- The branch that adds to the position.
  unfoldable pub increase : MeClientResponse → PositionInfo → Outcome PositionInfo
  increase r p =
      let i = side_to_index r.side in
      if ltb i vwap_slots
      then ok (record p {
        open_vwap =
            update p.open_vwap i (add (p.open_vwap i) (of_ℕ ((r.exec_qty * r.price) % u64_mod)));
      })
      else fault undefined

  -- The branch that reduces the position `old`, and perhaps turns it over.
  unfoldable pub decrease : MeClientResponse → (old : ℤ) → PositionInfo → Outcome PositionInfo
  unfolding side_to_value
  decrease r old p =
      let i = side_to_index r.side in
      let o = side_to_index (opposite r.side) in
      do
        abs_old ← abs_i32 old
        abs_new ← abs_i32 p.position
        let opp_side_vwap = div (p.open_vwap o) (of_ℕ abs_old)
        let exec = to_i32 (r.exec_qty % u32_mod)
        let closed = if is_negative exec then exec else pos (min (magnitude exec) abs_old)
        let p1 = record p {
          open_vwap = update p.open_vwap o (mul opp_side_vwap (of_ℕ abs_new));
          real_pnl = add p.real_pnl (
              mul (mul (of_ℤ closed) (sub opp_side_vwap (of_ℕ r.price)))
                (of_ℤ (side_to_value r.side)));
        }
        product ← checked_i32 (p1.position *ℤ old)
        if is_negative product
            then (if ltb i vwap_slots
                then ok (record p1 {
                  open_vwap =
                      update (update p1.open_vwap i (of_ℕ ((r.price * abs_new) % u64_mod))) o
                        (of_ℕ 0);
                })
                else fault undefined)
            else ok p1

  -- The unrealised profit at a price, for a position that is not flat.
  unfoldable pub unrealised : Value → PositionInfo → Outcome Value
  unfolding side_to_index
  unrealised price p = do
    size ← abs_i32 p.position
    ok (
        if is_negative p.position
        then mul (sub (div (p.open_vwap (side_to_index Side.sell)) (of_ℕ size)) price) (of_ℕ size)
        else mul (sub price (div (p.open_vwap (side_to_index Side.buy)) (of_ℕ size))) (of_ℕ size))

  -- The end of `addFill`: the unrealised profit, and twice that as the total.
  unfoldable pub settle : (price : ℕ) → PositionInfo → Outcome PositionInfo
  unfolding unrealised side_to_index
  settle price p =
      if is_zero p.position
      then ok (record p {
        open_vwap =
            update (update p.open_vwap (side_to_index Side.sell) (of_ℕ 0)) (side_to_index Side.buy)
              (of_ℕ 0);
        unreal_pnl = of_ℕ 0;
        total_pnl = add (of_ℕ 0) (of_ℕ 0);
      })
      else (do u ← unrealised (of_ℕ price) p; ok (record p { unreal_pnl = u; total_pnl = add u u }))

  unfoldable pub add_fill : MeClientResponse → PositionInfo → Outcome PositionInfo
  unfolding add_position increase decrease settle side_to_value
  add_fill r p =
      let old = p.position in
      let p1 = record p {
        position = add_position old r.exec_qty r.side;
        volume = (p.volume + r.exec_qty) % u32_mod;
      } in
      do
        direction ← checked_i32 (old *ℤ side_to_value r.side)
        p2 ← if is_negative direction then decrease r old p1 else increase r p1
        settle r.price p2

  -- `updateBBO` reads the prices only when the position is not flat, the ask only after a valid bid.
  unfoldable pub update_bbo : BestPrices → PositionInfo → Outcome PositionInfo
  unfolding unrealised
  update_bbo bbo p =
      let p1 = record p { bbo = some bbo } in
      if is_zero p.position then ok p1 else (do
        bid ← deref bbo.bid_price
        if bid == price_invalid then ok p1 else (do
          ask ← deref bbo.ask_price
          if ask == price_invalid then ok p1 else (do
            u ← unrealised (mul (of_ℕ ((bid + ask) % u64_mod)) half) p1
            ok (record p1 { unreal_pnl = u; total_pnl = add u p1.real_pnl }))))

  -- `PositionKeeper`: the positions by ticker
  pub record PositionKeeper : Type 0 where
    pub max_tickers : ℕ
    pub ticker_position : ℕ → PositionInfo

  unfoldable pub keeper_add_fill : MeClientResponse → PositionKeeper → Outcome PositionKeeper
  unfolding add_fill
  keeper_add_fill r k = do
    in_range (ltb r.ticker_id k.max_tickers)
    p ← add_fill r (k.ticker_position r.ticker_id)
    ok (record k { ticker_position = update k.ticker_position r.ticker_id p })

  unfoldable pub keeper_update_bbo :
      (ticker_id : ℕ) → BestPrices → PositionKeeper → Outcome PositionKeeper
  unfolding update_bbo
  keeper_update_bbo ticker_id bbo k = do
    in_range (ltb ticker_id k.max_tickers)
    p ← update_bbo bbo (k.ticker_position ticker_id)
    ok (record k { ticker_position = update k.ticker_position ticker_id p })
