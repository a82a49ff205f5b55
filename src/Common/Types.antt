-- ===== src/Common/Types.antt =====
-- common/common_types.h and common/constraints.h. An identifier, a price, a quantity or a priority
-- is a number below its bound.
use electronic_trading_ecosy.Base.{
  ℕ, ◌+◌, ◌-◌, ◌%◌, ◌^◌, Bool, true, false, ltb, ◌==◌, if◌then◌else◌,
}

abbrev pub u32_mod : ℕ
u32_mod = 2 ^ 32

abbrev pub u64_mod : ℕ
u64_mod = 2 ^ 64

abbrev pub order_id_invalid : ℕ
order_id_invalid = u64_mod - 1

abbrev pub ticker_id_invalid : ℕ
ticker_id_invalid = u32_mod - 1

abbrev pub client_id_invalid : ℕ
client_id_invalid = u32_mod - 1

abbrev pub price_invalid : ℕ
price_invalid = u64_mod - 1

abbrev pub qty_invalid : ℕ
qty_invalid = u32_mod - 1

abbrev pub priority_invalid : ℕ
priority_invalid = u64_mod - 1

-- `enum class Side : int8_t`. A message's byte may be another than the four enumerators' (0, 1, 255 and
-- 2), which is `unnamed` with that byte.
pub data Side : Type 0 where
  invalid buy sell max : Side
  unnamed : (byte : ℕ) → Side

-- `==` on sides
abbrev pub same_side : Side → Side → Bool
same_side Side.invalid Side.invalid = true
same_side Side.buy Side.buy = true
same_side Side.sell Side.sell = true
same_side Side.max Side.max = true
same_side (Side.unnamed a) (Side.unnamed b) = a == b
same_side _ _ = false

-- `static_cast<size_t>(side)`: SELL is -1, which wraps, as a byte from 128 on does.
abbrev pub side_as_size : Side → ℕ
side_as_size Side.invalid = 0
side_as_size Side.buy = 1
side_as_size Side.sell = u64_mod - 1
side_as_size Side.max = 2
side_as_size (Side.unnamed byte) = if ltb byte 128 then byte else u64_mod + byte - 256

unfoldable pub side_to_index : Side → ℕ
side_to_index side = (side_as_size side + 1) % u64_mod

-- The array bounds of constraints.h. `production` has their values; the theorems hold for any.
pub record Limits : Type 0 where
  pub max_tickers : ℕ
  pub max_num_clients : ℕ
  pub max_order_ids : ℕ
  pub max_price_levels : ℕ

abbrev pub production : Limits
production = record {
  max_tickers = 8;
  max_num_clients = 256;
  max_order_ids = 1048576;
  max_price_levels = 256;
}
