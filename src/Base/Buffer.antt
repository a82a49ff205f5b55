-- ===== src/Base/Buffer.antt =====
-- A byte buffer as a function on offsets: `memcpy` into it, and a stretch of it as a list.
use electronic_trading_ecosy.Base.Text.{Bytes}
use electronic_trading_ecosy.Base.Tests.{update}
use electronic_trading_ecosy.Base.Lists.{length}
use Prim.Native.Nat.{ℕ, zero, suc, ◌+◌, ◌≤◌, ◌<◌}
use mathlib.Core.Path.{◌≡◌, refl, ap, ◌∙◌}
use mathlib.Core.List.{[], ◌∷◌, ◌++◌}
use native.Mathlib.Omega.{arith}

abbrev pub Buffer : Type 0
Buffer = ℕ → ℕ

abbrev pub zeros : Buffer
zeros = λ _. 0

unfoldable pub memcpy : Buffer → (offset : ℕ) → Bytes → Buffer
memcpy f i [] = f
memcpy f i (b ∷ bs) = memcpy (update f i b) (suc i) bs

abbrev pub slice : Buffer → (offset n : ℕ) → Bytes
slice f i zero = []
slice f i (suc n) = f i ∷ slice f (suc i) n

pub length-slice : (f : Buffer) (i n : ℕ) → length (slice f i n) ≡ n
length-slice f i zero = refl
length-slice f i (suc n) = ap suc (length-slice f (suc i) n)

memcpy-below : (f : Buffer) (i : ℕ) (bs : Bytes) (j : ℕ) → j < i → memcpy f i bs j ≡ f j
unfolding memcpy update
memcpy-below f i [] j h = refl
memcpy-below f i (b ∷ bs) j h = ground (arith, memcpy-below (update f i b) (suc i) bs j)

slice-below :
    (f : Buffer) (i : ℕ) (bs : Bytes) (s n : ℕ)
    → s + n ≤ i
    → slice (memcpy f i bs) s n ≡ slice f s n
slice-below f i bs s zero h = refl
slice-below f i bs s (suc n) h =
    rw (memcpy-below f i bs s (omega arith), slice-below f i bs (suc s) n (omega arith)) refl

slice-memcpy_self : (f : Buffer) (i : ℕ) (bs : Bytes) → slice (memcpy f i bs) i (length bs) ≡ bs
unfolding memcpy update
slice-memcpy_self f i [] = refl
slice-memcpy_self f i (b ∷ bs) =
    let first : memcpy (update f i b) (suc i) bs i ≡ b =
      memcpy-below (update f i b) (suc i) bs i (omega arith) ∙ ground arith in
    rw (first, slice-memcpy_self (update f i b) (suc i) bs) refl

pub slice-split : (f : Buffer) (i m n : ℕ) → slice f i (m + n) ≡ slice f i m ++ slice f (i + m) n
slice-split f i zero n =
    let none_more : 0 + n ≡ n = omega arith in
    let stays : i + 0 ≡ i = omega arith in rw (none_more, stays) refl
slice-split f i (suc m) n =
    let one_more : suc m + n ≡ suc (m + n) = omega arith in
    let moved : i + suc m ≡ suc i + m = omega arith in
    rw (one_more, moved) (ap (f i ∷◌) (slice-split f (suc i) m n))

-- Bytes copied behind the first `n` stand behind them.
pub slice-memcpy :
    (f : Buffer) (n : ℕ) (bs : Bytes) → slice (memcpy f n bs) 0 (n + length bs) ≡ slice f 0 n ++ bs
slice-memcpy f n bs =
    let start : 0 + n ≡ n = omega arith in
    let at_n : slice (memcpy f n bs) (0 + n) (length bs) ≡ bs =
      rw start (slice-memcpy_self f n bs) in
    slice-split (memcpy f n bs) 0 n (length bs)
    ∙ ap (◌++ slice (memcpy f n bs) (0 + n) (length bs)) (slice-below f n bs 0 n (omega arith))
    ∙ ap (slice f 0 n ++◌) at_n
