-- ===== src/Common/Logging.antt =====
-- common/logging.h: the format's substitution, the queue of log elements and the logger thread's
-- output. A C string is the list of the codes before its terminator. The print of a float and of a
-- double is a parameter.
pub mod Format
pub mod Output
mod Tests
use electronic_trading_ecosy.Base.{
  ℕ, zero, suc, true, false, List, [], ◌∷◌, ◌++◌, none, some, Outcome, ok, fault, fatal, undefined,
  out_of_fuel, ◌>>=◌, ◌==◌, if◌then◌else◌,
}
use electronic_trading_ecosy.Base.Int.{ℤ, pos, negsuc}
use electronic_trading_ecosy.Base.Text.{Bytes, decimal}
use electronic_trading_ecosy.Common.LfQueue.{LfQueue, write, poll}

-- `float` and `double` as the library prints them
pub record Floats : Type 1 where
  pub Float : Type 0
  pub Double : Type 0
  pub print_float : Float → Bytes
  pub print_double : Double → Bytes

-- `<<` of a signed integer
abbrev pub print_int : ℤ → Bytes
print_int (pos n) = decimal n
print_int (negsuc n) = b'-' ∷ decimal (suc n)

pub data LogType : Type 0 where
  char integer long_integer long_long_integer unsigned_integer unsigned_long_integer
        unsigned_long_long_integer float double :
      LogType

-- the text of a `std::string` that `c_str()` shows: up to the first zero
abbrev pub c_str : Bytes → Bytes
c_str [] = []
c_str (ch ∷ s) = let rest = c_str s in if ch == 0 then [] else ch ∷ rest

module _ (F : Floats) where
  -- the union `u_`: its active member
  pub data LogUnion : Type 0 where
    c : ℕ → LogUnion
    i li lli : ℤ → LogUnion
    u ul ull : ℕ → LogUnion
    f : F.Float → LogUnion
    d : F.Double → LogUnion

  pub record LogElement : Type 0 where
    pub type : LogType
    pub value : LogUnion

  -- an argument of `log`, by the overload of `pushValue` that takes it
  pub data Argument : Type 0 where
    char : ℕ → Argument
    int long long_long : ℤ → Argument
    unsigned unsigned_long unsigned_long_long : ℕ → Argument
    float : F.Float → Argument
    double : F.Double → Argument
    c_string string : Bytes → Argument

  unfoldable pub push_element : LfQueue LogElement → LogElement → LfQueue LogElement
  push_element queue element = write queue element

  unfoldable pub push_char : LfQueue LogElement → ℕ → LfQueue LogElement
  push_char queue value =
      push_element queue (record { type = LogType.char; value = LogUnion.c value })

  unfoldable pub push_c_string : LfQueue LogElement → Bytes → LfQueue LogElement
  push_c_string queue [] = queue
  push_c_string queue (ch ∷ s) = push_c_string (push_char queue ch) s

  unfoldable pub push_value : LfQueue LogElement → Argument → LfQueue LogElement
  push_value queue (Argument.char v) = push_char queue v
  push_value queue (Argument.int v) =
      push_element queue (record { type = LogType.integer; value = LogUnion.i v })
  push_value queue (Argument.long v) =
      push_element queue (record { type = LogType.long_integer; value = LogUnion.li v })
  push_value queue (Argument.long_long v) =
      push_element queue (record { type = LogType.long_long_integer; value = LogUnion.lli v })
  push_value queue (Argument.unsigned v) =
      push_element queue (record { type = LogType.unsigned_integer; value = LogUnion.u v })
  push_value queue (Argument.unsigned_long v) =
      push_element queue (record { type = LogType.unsigned_long_integer; value = LogUnion.ul v })
  push_value queue (Argument.unsigned_long_long v) =
      push_element queue
        (record { type = LogType.unsigned_long_long_integer; value = LogUnion.ull v })
  push_value queue (Argument.float v) =
      push_element queue (record { type = LogType.float; value = LogUnion.f v })
  push_value queue (Argument.double v) =
      push_element queue (record { type = LogType.double; value = LogUnion.d v })
  push_value queue (Argument.c_string s) = push_c_string queue s
  push_value queue (Argument.string s) = push_c_string queue (c_str s)

  -- `log(s)`, with no argument left
  unfoldable pub log_text : LfQueue LogElement → Bytes → Outcome (LfQueue LogElement)
  log_text queue [] = ok queue
  log_text queue (ch ∷ []) = if ch == b'%' then fault fatal else ok (push_char queue ch)
  log_text queue (ch ∷ next ∷ s) = elim (ch == b'%') [
    | false ↦ log_text (push_char queue ch) (next ∷ s)
    | true ↦ elim (next == b'%') [ true ↦ log_text (push_char queue next) s | false ↦ fault fatal ]
  ]

  -- `log(s, value, args...)`
  unfoldable pub log : LfQueue LogElement → Bytes → List Argument → Outcome (LfQueue LogElement)
  log queue s [] = log_text queue s
  log queue [] (value ∷ args) = fault fatal
  log queue (ch ∷ []) (value ∷ args) = elim (ch == b'%') [
    | true ↦ log (push_value queue value) [] args
    | false ↦ fault fatal
  ]
  log queue (ch ∷ next ∷ s) (value ∷ args) = elim (ch == b'%') [
    | false ↦ log (push_char queue ch) (next ∷ s) (value ∷ args)
    | true ↦ elim (next == b'%') [
      | true ↦ log (push_char queue next) s (value ∷ args)
      | false ↦ log (push_value queue value) (next ∷ s) args
    ]
  ]

  -- the case of `flushQueue` for the element's type; it reads the union's member of that type
  abbrev pub print_as : LogType → LogUnion → Outcome Bytes
  print_as LogType.char (LogUnion.c v) = ok (v ∷ [])
  print_as LogType.integer (LogUnion.i v) = ok (print_int v)
  print_as LogType.long_integer (LogUnion.li v) = ok (print_int v)
  print_as LogType.long_long_integer (LogUnion.lli v) = ok (print_int v)
  print_as LogType.unsigned_integer (LogUnion.u v) = ok (decimal v)
  print_as LogType.unsigned_long_integer (LogUnion.ul v) = ok (decimal v)
  print_as LogType.unsigned_long_long_integer (LogUnion.ull v) = ok (decimal v)
  print_as LogType.float (LogUnion.f v) = ok (F.print_float v)
  print_as LogType.double (LogUnion.d v) = ok (F.print_double v)
  print_as _ _ = fault undefined

  -- the inner loop of `flushQueue`, on fuel: what is left on the queue, and the file
  unfoldable pub flush_queue : ℕ → LfQueue LogElement → Bytes → Outcome (LfQueue LogElement × Bytes)
  flush_queue zero queue file = fault out_of_fuel
  flush_queue (suc fuel) queue file = do
    (next, after) ← poll queue
    elim next [
      | none ↦ ok (queue, file)
      | some element ↦ do
        text ← print_as element.type element.value
        flush_queue fuel after (file ++ text)
    ]
