-- ===== src/Common/Logging/Tests.antt =====
-- Concrete runs of the logger.
use electronic_trading_ecosy.Base.{ℕ, suc, ◌≡◌, refl, inl, List, [], ◌∷◌, ◌++◌, ok, arith, length}
use electronic_trading_ecosy.Base.Int.{negsuc}
use electronic_trading_ecosy.Base.Text.{codes, decimal}
use electronic_trading_ecosy.Common.LfQueue.{LfQueue, init}
use electronic_trading_ecosy.Common.LfQueue.Fifo.{IsValid, contents}
use electronic_trading_ecosy.Common.Logging.{
  Floats, LogType, LogUnion, LogElement, Argument, log, flush_queue,
}
use electronic_trading_ecosy.Common.Logging.Format.{Piece, spell, fill}
use electronic_trading_ecosy.Common.Logging.Output.{text, log-flush_queue}

abbrev floats : Floats
floats = record { Float = ℕ; Double = ℕ; print_float = decimal; print_double = decimal }

abbrev blank : LogElement floats
blank = record { type = LogType.char; value = LogUnion.c 0 }

abbrev queue : LfQueue (LogElement floats)
queue = init 16 blank

queue-IsValid : IsValid queue
unfolding init
queue-IsValid = record {
  addressable = omega arith;
  read_in = omega arith;
  write_in = omega arith;
  fits = omega arith;
  apart = inl refl;
}

-- `log("5%% of %:%", "ab", -12)`
abbrev pieces : List Piece
pieces =
    Piece.literal b'5'
    ∷ Piece.literal b'%'
    ∷ Piece.literal b' '
    ∷ Piece.hole
    ∷ Piece.literal b':'
    ∷ Piece.hole
    ∷ []

abbrev args : List (Argument floats)
args = Argument.c_string (codes "ab") ∷ Argument.int (negsuc 11) ∷ []

spelled : spell pieces ≡ codes "5%% %:%"
spelled = refl

read_as : text floats pieces args ≡ codes "5% ab:-12"
unfolding decimal
read_as = refl

decimal-max : decimal 18446744073709551615 ≡ codes "18446744073709551615"
unfolding decimal
decimal-max = refl

log-flush_queue_example :
    (logged : LfQueue (LogElement floats)) × (after : LfQueue (LogElement floats)) × (log floats
        queue
        (spell pieces)
        args
      ≡ ok logged)
    × (flush_queue floats (suc (length (fill floats pieces args))) logged (codes "> ")
        ≡ ok (after, codes "> " ++ text floats pieces args))
    × (contents after ≡ [])
unfolding init
log-flush_queue_example =
    log-flush_queue floats pieces args queue (codes "> ") (refl, (tt, tt)) queue-IsValid refl refl
      (omega arith)
