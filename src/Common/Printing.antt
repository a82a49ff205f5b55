-- ===== src/Common/Printing.antt =====
-- common/common_types.h: how identifiers, prices, quantities and sides print, and how their prints are
-- read back.
use electronic_trading_ecosy.Base.{
  ℕ, ◌≡◌, refl, false, [], ◌∷◌, arith, ◌==◌, if◌then◌else◌, All, Bool-cases, inl, inr,
}
use electronic_trading_ecosy.Base.Text.{
  Bytes, codes, decimal, value_from, value-decimal, IsDigit, decimal-IsDigit,
}
use electronic_trading_ecosy.Base.Text.Fields.{
  IsFieldByte, fields_without_stop, decimal-IsFieldByte, same_text,
}
use electronic_trading_ecosy.Common.Types.{
  Side, order_id_invalid, ticker_id_invalid, client_id_invalid, price_invalid, qty_invalid,
  priority_invalid,
}

abbrev pub invalid_text : Bytes
invalid_text = codes "INVALID"

-- the body that the six functions below share
unfoldable pub number_to_string : (invalid n : ℕ) → Bytes
number_to_string invalid n = if n == invalid then invalid_text else decimal n

abbrev pub order_id_to_string : ℕ → Bytes
order_id_to_string = number_to_string order_id_invalid

abbrev pub ticker_id_to_string : ℕ → Bytes
ticker_id_to_string = number_to_string ticker_id_invalid

abbrev pub client_id_to_string : ℕ → Bytes
client_id_to_string = number_to_string client_id_invalid

abbrev pub price_to_string : ℕ → Bytes
price_to_string = number_to_string price_invalid

abbrev pub qty_to_string : ℕ → Bytes
qty_to_string = number_to_string qty_invalid

abbrev pub priority_to_string : ℕ → Bytes
priority_to_string = number_to_string priority_invalid

unfoldable pub side_to_string : Side → Bytes
side_to_string Side.invalid = invalid_text
side_to_string Side.buy = codes "BUY"
side_to_string Side.sell = codes "SELL"
side_to_string Side.max = codes "UNKNOWN"
side_to_string (Side.unnamed byte) = codes "UNKNOWN"

-- a reader of these texts
abbrev pub read_number : (invalid : ℕ) → Bytes → ℕ
read_number invalid s = if same_text s invalid_text then invalid else value_from 0 s

digits_not_invalid : (s : Bytes) → All IsDigit s → same_text s invalid_text ≡ false
digits_not_invalid [] h = refl
digits_not_invalid (c ∷ s) ((_, low), hs) =
    let other : (c == b'I') ≡ false = ground (arith, low) in rw other refl

pub read-number_to_string : (invalid n : ℕ) → read_number invalid (number_to_string invalid n) ≡ n
unfolding number_to_string
read-number_to_string invalid n = elim (Bool-cases (n == invalid)) [
  | inl same ↦ rw same (ground (arith, same))
  | inr other ↦ rw (other, digits_not_invalid (decimal n) (decimal-IsDigit n)) (value-decimal n)
]

pub number_to_string-IsFieldByte : (invalid n : ℕ) → All IsFieldByte (number_to_string invalid n)
unfolding number_to_string
number_to_string-IsFieldByte invalid n = elim (Bool-cases (n == invalid)) [
  | inl same ↦ rw same (fields_without_stop invalid_text refl)
  | inr other ↦ rw other (decimal-IsFieldByte n)
]

abbrev pub read_side : Bytes → Side
read_side s =
    if same_text s (codes "BUY")
    then Side.buy
    else if same_text s (codes "SELL")
    then Side.sell
    else if same_text s invalid_text
    then Side.invalid
    else Side.max

-- The side has a print of its own: it is INVALID, BUY or SELL.
abbrev pub PrintsItself : Side → Type 0
PrintsItself Side.max = ⊥
PrintsItself (Side.unnamed byte) = ⊥
PrintsItself _ = Unit

pub read-side_to_string : (side : Side) → PrintsItself side → read_side (side_to_string side) ≡ side
unfolding side_to_string
read-side_to_string Side.invalid h = refl
read-side_to_string Side.buy h = refl
read-side_to_string Side.sell h = refl
read-side_to_string Side.max h = absurd h
read-side_to_string (Side.unnamed byte) h = absurd h

pub side_to_string-IsFieldByte : (side : Side) → All IsFieldByte (side_to_string side)
unfolding side_to_string
side_to_string-IsFieldByte Side.invalid = fields_without_stop (codes "INVALID") refl
side_to_string-IsFieldByte Side.buy = fields_without_stop (codes "BUY") refl
side_to_string-IsFieldByte Side.sell = fields_without_stop (codes "SELL") refl
side_to_string-IsFieldByte Side.max = fields_without_stop (codes "UNKNOWN") refl
side_to_string-IsFieldByte (Side.unnamed byte) = fields_without_stop (codes "UNKNOWN") refl
