-- ===== src/Exchange/Messages/Reading.antt =====
-- Reading back what the `toString` functions of the messages print.
use electronic_trading_ecosy.Base.{
  ℕ, ◌≡◌, refl, ap, ◌∙◌, List, [], ◌∷◌, Option, none, some, if◌then◌else◌, All,
}
use electronic_trading_ecosy.Base.Text.{Bytes, codes}
use electronic_trading_ecosy.Base.Text.Fields.{
  IsFieldByte, fields_without_stop, read_fields, lay_out, WellLaid, read-lay_out, same_text,
}
use electronic_trading_ecosy.Common.Types.{
  order_id_invalid, ticker_id_invalid, client_id_invalid, price_invalid, qty_invalid,
}
use electronic_trading_ecosy.Common.Printing.{
  read_number, read-number_to_string, number_to_string, number_to_string-IsFieldByte, read_side,
  read-side_to_string, PrintsItself, side_to_string, side_to_string-IsFieldByte,
}
use electronic_trading_ecosy.Exchange.Messages.{ClientResponseType, MeClientResponse}
use electronic_trading_ecosy.Exchange.Messages.Printing.{
  client_response_type_to_string, client_response_to_string,
}

abbrev read_response_type : Bytes → ClientResponseType
read_response_type s =
    if same_text s (codes "ACCEPTED")
    then ClientResponseType.accepted
    else if same_text s (codes "CANCELED")
    then ClientResponseType.canceled
    else if same_text s (codes "FILLED")
    then ClientResponseType.filled
    else if same_text s (codes "PARTIAL_FILL")
    then ClientResponseType.partial_fill
    else if same_text s (codes "CANCEL_REJECTED")
    then ClientResponseType.cancel_rejected
    else ClientResponseType.invalid

abbrev response_of_fields : List Bytes → Option MeClientResponse
response_of_fields
      (type ∷ client ∷ ticker ∷ client_oid ∷ market_oid ∷ side ∷ price ∷ executed ∷ left ∷ []) =
    some (record {
      type = read_response_type type;
      client_id = read_number client_id_invalid client;
      ticker_id = read_number ticker_id_invalid ticker;
      client_order_id = read_number order_id_invalid client_oid;
      market_order_id = read_number order_id_invalid market_oid;
      side = read_side side;
      price = read_number price_invalid price;
      exec_qty = read_number qty_invalid executed;
      left_qty = read_number qty_invalid left;
    })
response_of_fields _ = none

-- the lengths of the labels `MEClientResponse [type:`, ` client: ` and so on
abbrev response_labels : List ℕ
response_labels = 23 ∷ 9 ∷ 9 ∷ 13 ∷ 13 ∷ 7 ∷ 8 ∷ 15 ∷ 11 ∷ []

-- a reader of a response's print
abbrev pub read_response : Bytes → Option MeClientResponse
read_response s = response_of_fields (read_fields response_labels s)

response_type-IsFieldByte :
    (type : ClientResponseType) → All IsFieldByte (client_response_type_to_string type)
unfolding client_response_type_to_string
response_type-IsFieldByte ClientResponseType.invalid =
    fields_without_stop (client_response_type_to_string ClientResponseType.invalid) refl
response_type-IsFieldByte ClientResponseType.accepted =
    fields_without_stop (client_response_type_to_string ClientResponseType.accepted) refl
response_type-IsFieldByte ClientResponseType.canceled =
    fields_without_stop (client_response_type_to_string ClientResponseType.canceled) refl
response_type-IsFieldByte ClientResponseType.filled =
    fields_without_stop (client_response_type_to_string ClientResponseType.filled) refl
response_type-IsFieldByte ClientResponseType.partial_fill =
    fields_without_stop (client_response_type_to_string ClientResponseType.partial_fill) refl
response_type-IsFieldByte (ClientResponseType.unnamed byte) =
    fields_without_stop (client_response_type_to_string (ClientResponseType.unnamed byte)) refl
response_type-IsFieldByte ClientResponseType.cancel_rejected =
    fields_without_stop (client_response_type_to_string ClientResponseType.cancel_rejected) refl

-- The type is one of the enumerators.
abbrev pub IsEnumerator : ClientResponseType → Type 0
IsEnumerator (ClientResponseType.unnamed byte) = ⊥
IsEnumerator _ = Unit

read-response_type :
    (type : ClientResponseType)
    → IsEnumerator type
    → read_response_type (client_response_type_to_string type) ≡ type
unfolding client_response_type_to_string
read-response_type ClientResponseType.invalid h = refl
read-response_type ClientResponseType.accepted h = refl
read-response_type ClientResponseType.canceled h = refl
read-response_type ClientResponseType.filled h = refl
read-response_type ClientResponseType.partial_fill h = refl
read-response_type ClientResponseType.cancel_rejected h = refl
read-response_type (ClientResponseType.unnamed byte) h = absurd h

abbrev response_parts : MeClientResponse → List (Bytes × Bytes)
response_parts r =
    (codes "MEClientResponse [type:", client_response_type_to_string r.type)
    ∷ (codes " client: ", number_to_string client_id_invalid r.client_id)
    ∷ (codes " ticker: ", number_to_string ticker_id_invalid r.ticker_id)
    ∷ (codes " client_oid: ", number_to_string order_id_invalid r.client_order_id)
    ∷ (codes " market_oid: ", number_to_string order_id_invalid r.market_order_id)
    ∷ (codes " side: ", side_to_string r.side)
    ∷ (codes " price: ", number_to_string price_invalid r.price)
    ∷ (codes " executed_qty: ", number_to_string qty_invalid r.exec_qty)
    ∷ (codes " left_qty: ", number_to_string qty_invalid r.left_qty)
    ∷ []

response_parts-lay_out :
    (r : MeClientResponse) → client_response_to_string r ≡ lay_out (response_parts r) (codes "]")
unfolding client_response_to_string
response_parts-lay_out r = refl

response-WellLaid : (r : MeClientResponse) → WellLaid (response_parts r) (codes "]")
response-WellLaid r =
    let number = number_to_string-IsFieldByte in
    (
      response_type-IsFieldByte r.type,
      refl,
      (
        number client_id_invalid r.client_id,
        refl,
        (
          number ticker_id_invalid r.ticker_id,
          refl,
          (
            number order_id_invalid r.client_order_id,
            refl,
            (
              number order_id_invalid r.market_order_id,
              refl,
              (
                side_to_string-IsFieldByte r.side,
                refl,
                (
                  number price_invalid r.price,
                  refl,
                  (number qty_invalid r.exec_qty, refl, (number qty_invalid r.left_qty, refl, tt)),
                ),
              ),
            ),
          ),
        ),
      ),
    )

-- A response whose type is one of the enumerators and whose side is INVALID, BUY or SELL is read back
-- from its print, whatever the numbers in its other fields.
pub read-client_response_to_string :
    (r : MeClientResponse)
    → IsEnumerator r.type
    → PrintsItself r.side
    → read_response (client_response_to_string r) ≡ some r
read-client_response_to_string r named side =
    ap read_response (response_parts-lay_out r)
    ∙ ap response_of_fields (read-lay_out (response_parts r) (codes "]") (response-WellLaid r))
    ∙ rw
        (
          read-response_type r.type named,
          read-number_to_string client_id_invalid r.client_id,
          read-number_to_string ticker_id_invalid r.ticker_id,
          read-number_to_string order_id_invalid r.client_order_id,
          read-number_to_string order_id_invalid r.market_order_id,
          read-side_to_string r.side side,
          read-number_to_string price_invalid r.price,
          read-number_to_string qty_invalid r.exec_qty,
          read-number_to_string qty_invalid r.left_qty,
        )
        refl
