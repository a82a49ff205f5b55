-- ===== src/Common/Wire.antt =====
-- The layout of a packed struct in memory, which the compiler chooses: its `sizeof`, and the value
-- that `reinterpret_cast` finds at the front of a buffer.
use electronic_trading_ecosy.Base.{ℕ, ◌<◌, List}

pub record Wire (T : Type 0) : Type 0 where
  pub size_of : ℕ
  pub positive : 0 < size_of
  pub decode : List ℕ → T
