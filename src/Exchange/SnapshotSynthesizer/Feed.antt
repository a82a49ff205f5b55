-- ===== src/Exchange/SnapshotSynthesizer/Feed.antt =====
-- A feed of incremental updates, as the synthesizer takes it.
use mathlib.Core.Path.{subst, fun_ext}
use electronic_trading_ecosy.Base.{
  ◌+◌, ◌<◌, ◌≡◌, refl, ap, ◌∙◌, List, [], ◌∷◌, Outcome, ok, ◌>>=◌, >>=-eq-ok, ok-injective, arith,
  length,
}
use electronic_trading_ecosy.Common.Types.{u64_mod}
use electronic_trading_ecosy.Exchange.Messages.{MdpMarketUpdate}
use electronic_trading_ecosy.Exchange.SnapshotSynthesizer.{Synthesizer, add_to_snapshot}
use electronic_trading_ecosy.Exchange.SnapshotSynthesizer.View.{
  Orders, view, apply_update, IsOwned, Implements,
}
use electronic_trading_ecosy.Exchange.SnapshotSynthesizer.Updates.{add_to_snapshot-Implements}

-- the updates one after the other, on the synthesizer and on a table of orders
unfoldable pub add_all : List MdpMarketUpdate → Synthesizer → Outcome Synthesizer
add_all [] s = ok s
add_all (r ∷ rs) s = do s' ← add_to_snapshot r s; add_all rs s'

unfoldable pub apply_all : List MdpMarketUpdate → Orders → Orders
apply_all [] v = v
apply_all (r ∷ rs) v = apply_all rs (apply_update r.me_market_update.type r.me_market_update v)

-- A feed that the synthesizer accepts to the end, from a state in which the entries have blocks of
-- their own and with numbers left, gives the live orders that the updates mean one after the other,
-- in blocks of their own, and the number of the last update counts the feed.
pub add_all-Implements :
    (rs : List MdpMarketUpdate) (s s' : Synthesizer)
    → IsOwned s
    → s.last_inc_seq_num + length rs < u64_mod
    → add_all rs s ≡ ok s'
    → Implements (apply_all rs (view s)) (s.last_inc_seq_num + length rs) s'
unfolding add_all apply_all
add_all-Implements [] s s' own small e =
    subst (Implements (view s) (s.last_inc_seq_num + 0)) (ok-injective e)
      (record { owned = own; same = λ t i. refl; number = omega arith })
add_all-Implements (r ∷ rs) s s' own small e =
    let (s1, e1, r1) = >>=-eq-ok (add_to_snapshot r s) _ e in
    let (first, next) = add_to_snapshot-Implements r s s1 own e1 in
    let up : s1.last_inc_seq_num ≡ s.last_inc_seq_num + 1 = omega (arith, first.number, next) in
    let rest = add_all-Implements rs s1 s' first.owned (omega (arith, up)) r1 in
    let meant : view s1 ≡ apply_update r.me_market_update.type r.me_market_update (view s) =
      fun_ext (λ t. fun_ext (λ i. first.same t i)) in
    record {
      owned = rest.owned;
      same = λ t i. rest.same t i ∙ ap (λ v. apply_all rs v t i) meant;
      number = omega (arith, rest.number, up);
    }
