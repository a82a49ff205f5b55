-- ===== src/Base/Text.antt =====
-- Texts as lists of character codes, the decimal print of a number (`std::to_string`, and `<<` of
-- an unsigned).
pub mod Fields
use Prim.Native.Nat.{ℕ, zero, suc, ◌+◌, ◌-◌, ◌*◌, ◌/◌, ◌%◌, ◌≤◌, ◌<◌}
use Prim.Native.Char.{code}
use Prim.Native.String
use Prim.Native.String.{String}
use mathlib.Core.Path.{◌≡◌, refl}
use mathlib.Core.Bool.{Bool, true, false, ◌&&◌, ◌||◌}
use mathlib.Core.List.{List, [], ◌∷◌, ◌++◌, map, foldl}
use native.Mathlib.Omega.{arith}
use electronic_trading_ecosy.Base.Tests.{ltb, ◌==◌, if◌then◌else◌}
use electronic_trading_ecosy.Base.Lists.{length, All, drop}

abbrev pub Bytes : Type 0
Bytes = List ℕ

abbrev pub codes : String → Bytes
codes String.[] = []
codes (String.◌∷◌ c s) = code c ∷ codes s

-- what a stream holds after a chain of `<<`
abbrev pub stream : List Bytes → Bytes
stream [] = []
stream (s ∷ more) = s ++ stream more

-- the digits of `n` in front of `out`; `fuel` is more than the digits there are
emit : ℕ → ℕ → Bytes → Bytes
emit zero n out = out
emit (suc fuel) n out =
    let digit = b'0' + n % 10 in
    let rest = emit fuel (n / 10) (digit ∷ out) in if ltb n 10 then digit ∷ out else rest

unfoldable pub decimal : ℕ → Bytes
unfolding emit
decimal n = emit (suc n) n []

-- the number that digits spell behind `n`
abbrev pub value_from : ℕ → Bytes → ℕ
value_from n [] = n
value_from n (c ∷ s) = value_from (n * 10 + (c - b'0')) s

emit-value :
    (fuel n : ℕ) (out : Bytes) → n < fuel → value_from 0 (emit fuel n out) ≡ value_from n out
unfolding emit
emit-value zero n out h = absurd (omega arith)
emit-value (suc fuel) n out h = ground (arith, emit-value fuel (n / 10) ((b'0' + n % 10) ∷ out))

-- A number is read back from its decimal print.
pub value-decimal : (n : ℕ) → value_from 0 (decimal n) ≡ n
unfolding decimal
value-decimal n = emit-value (suc n) n [] (omega arith)

abbrev pub IsDigit : ℕ → Type 0
IsDigit c = (b'0' ≤ c) × (c ≤ b'9')

emit-IsDigit : (fuel n : ℕ) (out : Bytes) → All IsDigit out → All IsDigit (emit fuel n out)
unfolding emit
emit-IsDigit zero n out h = h
emit-IsDigit (suc fuel) n out h = ground (arith, emit-IsDigit fuel (n / 10) ((b'0' + n % 10) ∷ out))

pub decimal-IsDigit : (n : ℕ) → All IsDigit (decimal n)
unfolding decimal
decimal-IsDigit n = emit-IsDigit (suc n) n [] tt
