-- ===== src/Exchange/System/Queues.antt =====
-- The queues of the exchange: what holds of each slot.
use mathlib.Core.Path.{subst}
use mathlib.Core.Option.{some-injective}
use electronic_trading_ecosy.Base.{
  ℕ, ◌≡◌, ◌≢◌, sym, Option, none, some, ok, arith, Bool-cases, inl, inr, ◌==◌, update,
}
use electronic_trading_ecosy.Common.LfQueue
use electronic_trading_ecosy.Common.LfQueue.{LfQueue, size_mod}
use electronic_trading_ecosy.Exchange.Messages.{
  ClientResponseType, MeClientResponse, MarketUpdateType, MeMarketUpdate,
}
use electronic_trading_ecosy.Exchange.OrderBook.{Outgoing, send_client_response, send_market_update}
use electronic_trading_ecosy.Exchange.OrderBook.Quiet.{SendsNoFill, nothing, response, update_sent}

-- each slot of a queue, read or not, has the property
abbrev pub Slots : {A : Type 0} → (A → Type 0) → LfQueue A → Type 0
Slots P q = (i : ℕ) → P (q.store i)

abbrev pub NoFill : MeClientResponse → Type 0
NoFill r = r.type ≢ ClientResponseType.filled

abbrev pub NoTrade : MeMarketUpdate → Type 0
NoTrade u = u.type ≢ MarketUpdateType.trade

pub write-Slots :
    {A : Type 0} (P : A → Type 0) (q : LfQueue A) (v : A)
    → P v
    → Slots P q
    → Slots P (LfQueue.write q v)
unfolding LfQueue.write LfQueue.get_next_to_write_to LfQueue.write_slot
    LfQueue.update_next_to_write_to update
write-Slots P q v new old i = elim (Bool-cases (i == q.next_write_index)) [
  | inl written ↦ rw written new
  | inr kept ↦ rw kept (old i)
]

pub SendsNoFill-keeps :
    {out out' : Outgoing}
    → SendsNoFill out out'
    → Slots NoFill out.responses × Slots NoTrade out.updates
    → Slots NoFill out'.responses × Slots NoTrade out'.updates
unfolding send_client_response send_market_update
SendsNoFill-keeps nothing old = old
SendsNoFill-keeps (response {o} {o'} r other before e) old =
    let (no_fill, no_trade) = SendsNoFill-keeps before old in
    subst (λ out. Slots NoFill out.responses × Slots NoTrade out.updates) (sym e)
      (write-Slots NoFill o.responses r other no_fill, no_trade)
SendsNoFill-keeps (update_sent {o} {o'} u other before e) old =
    let (no_fill, no_trade) = SendsNoFill-keeps before old in
    subst (λ out. Slots NoFill out.responses × Slots NoTrade out.updates) (sym e)
      (no_fill, write-Slots NoTrade o.updates u other no_trade)

pub update_read_index-store :
    {A : Type 0} (q : LfQueue A) {q' : LfQueue A}
    → LfQueue.update_read_index q ≡ ok q'
    → q'.store ≡ q.store
unfolding LfQueue.update_read_index
update_read_index-store q e = ground (arith, e)

pub get_next_to_read-Slots :
    {A : Type 0} (P : A → Type 0) (q : LfQueue A) {v : A}
    → LfQueue.get_next_to_read q ≡ some v
    → Slots P q
    → P v
unfolding LfQueue.get_next_to_read
get_next_to_read-Slots P q {v} e slots =
    elim (Bool-cases (q.next_read_index == q.next_write_index)) [
      | inl empty ↦ let none_there : none ≡ some v = rw empty at e in cc
      | inr some_there ↦
          let there : some (q.store q.next_read_index) ≡ some v = rw some_there at e in
          subst P (some-injective _ _ there) (slots q.next_read_index)
    ]

pub poll-store :
    {A : Type 0} (q : LfQueue A) {next : Option A} {q' : LfQueue A}
    → LfQueue.poll q ≡ ok (next, q')
    → q'.store ≡ q.store
unfolding LfQueue.poll LfQueue.read LfQueue.size LfQueue.get_next_to_read LfQueue.update_read_index
poll-store q e = ground (arith, e)

pub poll-Slots :
    {A : Type 0} (P : A → Type 0) (q : LfQueue A) {v : A} {q' : LfQueue A}
    → LfQueue.poll q ≡ ok (some v, q')
    → Slots P q
    → P v
unfolding LfQueue.poll LfQueue.read LfQueue.size LfQueue.get_next_to_read LfQueue.update_read_index
poll-Slots P q {v} e slots =
    let there : v ≡ q.store q.next_read_index = ground (arith, e) in
    rw there (slots q.next_read_index)
