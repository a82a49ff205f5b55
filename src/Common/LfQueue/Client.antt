-- ===== src/Common/LfQueue/Client.antt =====
-- A producer and a consumer of one queue, as any sequence of their rounds, against a list.
use electronic_trading_ecosy.Base.{
  ℕ, ◌<◌, ◌≡◌, refl, sym, ap, ◌∙◌, List, [], ◌∷◌, ◌++◌, Option, none, some, Outcome, ok, ◌>>=◌,
  arith, length,
}
use mathlib.Core.Path.{subst}
use electronic_trading_ecosy.Common.LfQueue.{LfQueue, size_mod, init, read, write}
use electronic_trading_ecosy.Common.LfQueue.Fifo.{
  IsValid, contents, contents-write, contents-read, read-empty, length-contents,
}

pub data Op (A : Type 0) : Type 0 where
  put : A → Op A
  get : Op A

module _ {A : Type 0} where
  -- the consumer's results in order, and the queue that is left
  unfoldable pub run : LfQueue A → List (Op A) → Outcome (List (Option A) × LfQueue A)
  run q [] = ok ([], q)
  run q (put v ∷ ops) = run (write q v) ops
  run q (get ∷ ops) = do (r, q') ← read q; (rs, q'') ← run q' ops; ok (r ∷ rs, q'')

  -- the same rounds on a list of any length
  unfoldable pub replies : List A → List (Op A) → List (Option A)
  replies xs [] = []
  replies xs (put v ∷ ops) = replies (xs ++ v ∷ []) ops
  replies [] (get ∷ ops) = none ∷ replies [] ops
  replies (x ∷ xs) (get ∷ ops) = some x ∷ replies xs ops

  -- At each moment fewer than `n` elements are waiting.
  abbrev pub StaysBelow : ℕ → List A → List (Op A) → Type 0
  StaysBelow n xs [] = length xs < n
  StaysBelow n xs (put v ∷ ops) = (length xs < n) × StaysBelow n (xs ++ v ∷ []) ops
  StaysBelow n [] (get ∷ ops) = StaysBelow n [] ops
  StaysBelow n (x ∷ xs) (get ∷ ops) = (length (x ∷ xs) < n) × StaysBelow n xs ops

  capacity-write : (q : LfQueue A) (v : A) → (write q v).capacity ≡ q.capacity
  unfolding write
  capacity-write q v = refl

  capacity-init : (n : ℕ) (d : A) → (init n d).capacity ≡ n
  unfolding init
  capacity-init n d = refl

  run-replies :
      (ops : List (Op A)) (q : LfQueue A) (xs : List A)
      → IsValid q
      → contents q ≡ xs
      → StaysBelow q.capacity xs ops
      → (q' : LfQueue A) × (run q ops ≡ ok (replies xs ops, q'))
  unfolding run replies
  run-replies [] q xs inv e b = (q, refl)
  run-replies (put v ∷ ops) q xs inv e b =
      let (inv', e') = contents-write q inv v (ground (arith, length-contents q, ap length e)) in
      run-replies ops (write q v) _ inv' (e' ∙ ap (λ ys. ys ++ v ∷ []) e)
        (subst (λ n. StaysBelow n (xs ++ v ∷ []) ops) (sym (capacity-write q v)) b.1)
  run-replies (get ∷ ops) q [] inv e b =
      let (q', e') = run-replies ops q [] inv e b in (q', rw (read-empty q inv e) (rw e'))
  run-replies (get ∷ ops) q (x ∷ xs) inv e b =
      let (q', took, inv', left, same) =
        contents-read q inv x xs e (ground (arith, length-contents q, ap length e)) in
      let (q'', e') =
        run-replies ops q' xs inv' left (subst (λ n. StaysBelow n xs ops) (sym same) b.1) in
      (q'', rw took (rw e'))

  init-IsValid :
      (n : ℕ) (d : A) → 0 < n → n < size_mod → IsValid (init n d) × (contents (init n d) ≡ [])
  unfolding init
  init-IsValid n d h k = (ground arith, refl)

  -- A queue constructed with `n` slots, `n` above 0 and below 2^64, answers any sequence of writes
  -- and reads as a list does, as long as fewer than `n` elements are waiting at each moment.
  pub run-init :
      (n : ℕ) (d : A) (ops : List (Op A))
      → 0 < n
      → n < size_mod
      → StaysBelow n [] ops
      → (q' : LfQueue A) × (run (init n d) ops ≡ ok (replies [] ops, q'))
  run-init n d ops h k b =
      let (inv, e) = init-IsValid n d h k in
      run-replies ops (init n d) [] inv e
        (subst (λ m. StaysBelow m [] ops) (sym (capacity-init n d)) b)
