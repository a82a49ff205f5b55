-- ===== src/Common/Logging/Format.antt =====
-- What `log` does with a format that is spelled from literal characters and places for arguments.
use electronic_trading_ecosy.Base.{
  ℕ, suc, ◌≡◌, ◌≢◌, refl, ◌∙◌, sym, ap, false, List, [], ◌∷◌, ◌++◌, map, ok, fault, fatal, arith,
  ◌==◌, if◌then◌else◌, length, Bool-cases, inl, inr,
}
use electronic_trading_ecosy.Base.Text.{Bytes}
use electronic_trading_ecosy.Common.LfQueue.{LfQueue, write}
use electronic_trading_ecosy.Common.Logging.{
  Floats, LogType, LogUnion, LogElement, Argument, c_str, push_element, push_char, push_c_string,
  push_value, log_text, log,
}

pub data Piece : Type 0 where
  literal : ℕ → Piece
  hole : Piece

-- how a format is written: a literal percent is doubled
abbrev pub spell : List Piece → Bytes
spell [] = []
spell (Piece.literal ch ∷ pieces) =
    if ch == b'%' then b'%' ∷ b'%' ∷ spell pieces else ch ∷ spell pieces
spell (Piece.hole ∷ pieces) = b'%' ∷ spell pieces

abbrev pub holes : List Piece → ℕ
holes [] = 0
holes (Piece.literal _ ∷ pieces) = holes pieces
holes (Piece.hole ∷ pieces) = suc (holes pieces)

abbrev pub NoPercentFirst : Bytes → Type 0
NoPercentFirst [] = Unit
NoPercentFirst (ch ∷ _) = (ch == b'%') ≡ false

-- No hole stands before another or before a literal percent, which would read as an escape.
abbrev pub Separated : List Piece → Type 0
Separated [] = Unit
Separated (Piece.literal _ ∷ pieces) = Separated pieces
Separated (Piece.hole ∷ pieces) = NoPercentFirst (spell pieces) × Separated pieces

module _ (F : Floats) where
  abbrev Element : Type 0
  Element = LogElement F

  abbrev pub char_element : ℕ → Element
  char_element ch = record { type = LogType.char; value = LogUnion.c ch }

  -- what an argument puts on the queue
  abbrev pub elements : Argument F → List Element
  elements (Argument.char v) = char_element v ∷ []
  elements (Argument.int v) = record { type = LogType.integer; value = LogUnion.i v } ∷ []
  elements (Argument.long v) = record { type = LogType.long_integer; value = LogUnion.li v } ∷ []
  elements (Argument.long_long v) =
      record { type = LogType.long_long_integer; value = LogUnion.lli v } ∷ []
  elements (Argument.unsigned v) =
      record { type = LogType.unsigned_integer; value = LogUnion.u v } ∷ []
  elements (Argument.unsigned_long v) =
      record { type = LogType.unsigned_long_integer; value = LogUnion.ul v } ∷ []
  elements (Argument.unsigned_long_long v) =
      record { type = LogType.unsigned_long_long_integer; value = LogUnion.ull v } ∷ []
  elements (Argument.float v) = record { type = LogType.float; value = LogUnion.f v } ∷ []
  elements (Argument.double v) = record { type = LogType.double; value = LogUnion.d v } ∷ []
  elements (Argument.c_string s) = map char_element s
  elements (Argument.string s) = map char_element (c_str s)

  -- the format with its places filled
  abbrev pub fill : List Piece → List (Argument F) → List Element
  fill [] args = []
  fill (Piece.literal ch ∷ pieces) args = char_element ch ∷ fill pieces args
  fill (Piece.hole ∷ pieces) [] = []
  fill (Piece.hole ∷ pieces) (a ∷ args) = elements a ++ fill pieces args

  abbrev pub push_all : LfQueue Element → List Element → LfQueue Element
  push_all queue [] = queue
  push_all queue (e ∷ es) = push_all (write queue e) es

  push_all-append :
      (queue : LfQueue Element) (es more : List Element)
      → push_all queue (es ++ more) ≡ push_all (push_all queue es) more
  push_all-append queue [] more = refl
  push_all-append queue (e ∷ es) more = push_all-append (write queue e) es more

  push_c_string-all :
      (queue : LfQueue Element) (s : Bytes)
      → push_c_string F queue s ≡ push_all queue (map char_element s)
  unfolding push_c_string push_char push_element
  push_c_string-all queue [] = refl
  push_c_string-all queue (ch ∷ s) = push_c_string-all (write queue (char_element ch)) s

  push_value-all :
      (queue : LfQueue Element) (a : Argument F)
      → push_value F queue a ≡ push_all queue (elements a)
  unfolding push_value push_char push_element
  push_value-all queue (Argument.char v) = refl
  push_value-all queue (Argument.int v) = refl
  push_value-all queue (Argument.long v) = refl
  push_value-all queue (Argument.long_long v) = refl
  push_value-all queue (Argument.unsigned v) = refl
  push_value-all queue (Argument.unsigned_long v) = refl
  push_value-all queue (Argument.unsigned_long_long v) = refl
  push_value-all queue (Argument.float v) = refl
  push_value-all queue (Argument.double v) = refl
  push_value-all queue (Argument.c_string s) = push_c_string-all queue s
  push_value-all queue (Argument.string s) = push_c_string-all queue (c_str s)

  log-plain :
      (queue : LfQueue Element) (ch : ℕ) (s : Bytes) (args : List (Argument F))
      → (ch == b'%') ≡ false
      → log F queue (ch ∷ s) args ≡ log F (push_char F queue ch) s args
  unfolding log log_text
  log-plain queue ch [] [] h = rw h refl
  log-plain queue ch [] (a ∷ args) h = rw (h, log) refl
  log-plain queue ch (next ∷ s) [] h = rw (h, log_text) refl
  log-plain queue ch (next ∷ s) (a ∷ args) h = rw (h, log) refl

  log-escape :
      (queue : LfQueue Element) (s : Bytes) (args : List (Argument F))
      → log F queue (b'%' ∷ b'%' ∷ s) args ≡ log F (push_char F queue b'%') s args
  unfolding log log_text
  log-escape queue s [] = refl
  log-escape queue s (a ∷ args) = refl

  log-hole :
      (queue : LfQueue Element) (s : Bytes) (a : Argument F) (args : List (Argument F))
      → NoPercentFirst s
      → log F queue (b'%' ∷ s) (a ∷ args) ≡ log F (push_value F queue a) s args
  unfolding log
  log-hole queue [] a args h = refl
  log-hole queue (next ∷ s) a args h = rw (h, log) refl

  log-missing :
      (queue : LfQueue Element) (s : Bytes)
      → NoPercentFirst s
      → log F queue (b'%' ∷ s) [] ≡ fault fatal
  unfolding log log_text
  log-missing queue [] h = refl
  log-missing queue (next ∷ s) h = rw (h, log_text) refl

  -- A format with the right number of arguments puts its filled places on the queue.
  pub log-spell :
      (pieces : List Piece) (args : List (Argument F)) (queue : LfQueue Element)
      → Separated pieces
      → holes pieces ≡ length args
      → log F queue (spell pieces) args ≡ ok (push_all queue (fill pieces args))
  unfolding log log_text push_char push_element
  log-spell [] [] queue sep h = refl
  log-spell [] (a ∷ args) queue sep h = absurd (omega arith)
  log-spell (Piece.literal ch ∷ pieces) args queue sep h =
      let rest = log-spell pieces args (push_char F queue ch) sep h in
      elim (Bool-cases (ch == b'%')) [
        | inr plain ↦ rw plain (log-plain queue ch (spell pieces) args plain ∙ rest)
        | inl percent ↦
            let is_percent : ch ≡ b'%' = ground (arith, percent) in
            rw percent (log-escape queue (spell pieces) args ∙ rw (sym is_percent) rest)
      ]
  log-spell (Piece.hole ∷ pieces) [] queue sep h = absurd (omega arith)
  log-spell (Piece.hole ∷ pieces) (a ∷ args) queue (sep, seps) h =
      log-hole queue (spell pieces) a args sep
      ∙ log-spell pieces args (push_value F queue a) seps (omega arith)
      ∙ ap ok (
          ap (λ q. push_all q (fill pieces args)) (push_value-all queue a)
          ∙ sym (push_all-append queue (elements a) (fill pieces args)))

  -- With more or fewer arguments than the format has holes, `log` ends the process, whatever is on
  -- the queue. No hole of the format stands before another hole or a literal percent.
  pub log-mismatch :
      (pieces : List Piece) (args : List (Argument F)) (queue : LfQueue Element)
      → Separated pieces
      → holes pieces ≢ length args
      → log F queue (spell pieces) args ≡ fault fatal
  unfolding log
  log-mismatch [] [] queue sep h = absurd (h refl)
  log-mismatch [] (a ∷ args) queue sep h = refl
  log-mismatch (Piece.literal ch ∷ pieces) args queue sep h = elim (Bool-cases (ch == b'%')) [
    | inr plain ↦ rw plain (
        log-plain queue ch (spell pieces) args plain
        ∙ log-mismatch pieces args (push_char F queue ch) sep h)
    | inl percent ↦ rw percent (
        log-escape queue (spell pieces) args
        ∙ log-mismatch pieces args (push_char F queue b'%') sep h)
  ]
  log-mismatch (Piece.hole ∷ pieces) [] queue (sep, seps) h = log-missing queue (spell pieces) sep
  log-mismatch (Piece.hole ∷ pieces) (a ∷ args) queue (sep, seps) h =
      log-hole queue (spell pieces) a args sep
      ∙ log-mismatch pieces args (push_value F queue a) seps (λ e. h (omega arith))
