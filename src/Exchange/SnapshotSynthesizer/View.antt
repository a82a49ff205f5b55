-- ===== src/Exchange/SnapshotSynthesizer/View.antt =====
-- What the synthesizer's table and pool stand for: the live orders by ticker and identifier.
use electronic_trading_ecosy.Base.{
  ℕ, ◌≡◌, true, false, Option, none, some, Option-cases, inl, inr, arith, update,
}
use electronic_trading_ecosy.Common.MemPool.{store}
use electronic_trading_ecosy.Common.MemPool.Search.{occupy}
use electronic_trading_ecosy.Exchange.Messages.{MarketUpdateType, MeMarketUpdate}
use electronic_trading_ecosy.Exchange.SnapshotSynthesizer.{Synthesizer, set_entry}

-- a table of live orders
abbrev pub Orders : Type 0
Orders = ℕ → ℕ → Option MeMarketUpdate

abbrev pub loaded : Synthesizer → Option ℕ → Option MeMarketUpdate
loaded s none = none
loaded s (some p) = some (s.order_pool.object p)

abbrev pub view : Synthesizer → Orders
view s t i = loaded s (s.orders_per_ticker t i)

abbrev pub put : Orders → (ticker order : ℕ) → Option MeMarketUpdate → Orders
put v t o e = update v t (update (v t) o e)

abbrev pub revised : MeMarketUpdate → Option MeMarketUpdate → Option MeMarketUpdate
revised u none = none
revised u (some w) = some (record w { qty = u.qty; price = u.price })

-- what an incremental update means
unfoldable pub apply_update : MarketUpdateType → MeMarketUpdate → Orders → Orders
apply_update MarketUpdateType.add u v = put v u.ticker_id u.order_id (some u)
apply_update MarketUpdateType.modify u v =
    put v u.ticker_id u.order_id (revised u (v u.ticker_id u.order_id))
apply_update MarketUpdateType.cancel u v = put v u.ticker_id u.order_id none
apply_update _ u v = v

-- Every entry has a block of its own, which is in use.
pub record IsOwned (s : Synthesizer) : Type 0 where
  pub in_use : (t i p : ℕ) → s.orders_per_ticker t i ≡ some p → s.order_pool.is_free p ≡ false
  pub owner :
      (t i t' i' p : ℕ)
      → s.orders_per_ticker t i ≡ some p
      → s.orders_per_ticker t' i' ≡ some p
      → (t ≡ t') × (i ≡ i')

pub record Implements (v : Orders) (last : ℕ) (s : Synthesizer) : Type 0 where
  pub owned : IsOwned s
  pub same : (t i : ℕ) → view s t i ≡ v t i
  pub number : s.last_inc_seq_num ≡ last

-- the states after an ADD, a MODIFY and a CANCEL
abbrev pub placed :
    Synthesizer → (ticker order p next_free_index : ℕ) → MeMarketUpdate → Synthesizer
placed s t o p j u =
    set_entry t o (some p)
      (record s { order_pool = record (occupy s.order_pool p u) { next_free_index = j } })

abbrev pub written : Synthesizer → (p : ℕ) → MeMarketUpdate → Synthesizer
written s p w = record s { order_pool = store s.order_pool p w }

abbrev pub cleared : Synthesizer → (ticker order p : ℕ) → Synthesizer
cleared s t o p =
    set_entry t o none (record s {
      order_pool = record s.order_pool { is_free = update s.order_pool.is_free p true };
    })

module _ (s : Synthesizer) (t o : ℕ) (own : IsOwned s) where
  -- A free block becomes the entry's.
  pub placed-IsOwned :
      (p j : ℕ) (u : MeMarketUpdate) → s.order_pool.is_free p ≡ true → IsOwned (placed s t o p j u)
  unfolding update
  placed-IsOwned p j u free = record {
    in_use = λ t' i' q e. ground (arith, own.in_use t' i' q);
    owner = λ t1 i1 t2 i2 q e f.
        ground (arith, own.owner t1 i1 t2 i2 q, own.in_use t1 i1 q, own.in_use t2 i2 q);
  }

  pub placed-same :
      (p j : ℕ) (u : MeMarketUpdate)
      → s.order_pool.is_free p ≡ true
      → (t' i' : ℕ) → view (placed s t o p j u) t' i' ≡ put (view s) t o (some u) t' i'
  unfolding update
  placed-same p j u free t' i' = elim (Option-cases (s.orders_per_ticker t' i')) [
    | inl e ↦ ground arith
    | inr (q, e) ↦ ground (arith, own.in_use t' i' q e)
  ]

  pub written-IsOwned : (p : ℕ) (w : MeMarketUpdate) → IsOwned (written s p w)
  unfolding store
  written-IsOwned p w = record { in_use = own.in_use; owner = own.owner }

  pub written-same :
      (p : ℕ) (w : MeMarketUpdate)
      → s.orders_per_ticker t o ≡ some p
      → (t' i' : ℕ) → view (written s p w) t' i' ≡ put (view s) t o (some w) t' i'
  unfolding store update
  written-same p w mine t' i' = elim (Option-cases (s.orders_per_ticker t' i')) [
    | inl e ↦ ground arith
    | inr (q, e) ↦ ground (arith, own.owner t o t' i' p mine)
  ]

  pub cleared-IsOwned : (p : ℕ) → s.orders_per_ticker t o ≡ some p → IsOwned (cleared s t o p)
  unfolding update
  cleared-IsOwned p mine = record {
    in_use = λ t' i' q e. ground (arith, own.in_use t' i' q, own.owner t o t' i' p mine);
    owner = λ t1 i1 t2 i2 q e f. ground (arith, own.owner t1 i1 t2 i2 q);
  }

  pub cleared-same :
      (p : ℕ) (t' i' : ℕ) → view (cleared s t o p) t' i' ≡ put (view s) t o none t' i'
  unfolding update
  cleared-same p t' i' = ground arith
