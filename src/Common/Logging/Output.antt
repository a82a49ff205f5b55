-- ===== src/Common/Logging/Output.antt =====
-- What comes out of the logger's thread: the format's text with the arguments' texts in it.
use mathlib.Core.List.{append_assoc, append-nil}
use electronic_trading_ecosy.Base.{
  ℕ, suc, ◌+◌, ◌<◌, ◌≡◌, refl, ◌∙◌, sym, ap, List, [], ◌∷◌, ◌++◌, map, some, ok, arith, length,
}
use electronic_trading_ecosy.Base.Text.{Bytes, decimal}
use electronic_trading_ecosy.Common.LfQueue.{LfQueue, write, poll}
use electronic_trading_ecosy.Common.LfQueue.Fifo.{
  IsValid, contents, contents-write, contents-read, read-empty, poll-read, write-sizes,
  length-contents,
}
use electronic_trading_ecosy.Common.Logging.{
  Floats, LogType, LogUnion, LogElement, Argument, c_str, print_int, print_as, log, flush_queue,
}
use electronic_trading_ecosy.Common.Logging.Format.{
  Piece, spell, holes, Separated, char_element, elements, fill, push_all, log-spell,
}

module _ (F : Floats) where
  abbrev Element : Type 0
  Element = LogElement F

  -- what an argument reads as in the file
  abbrev pub argument_text : Argument F → Bytes
  argument_text (Argument.char v) = v ∷ []
  argument_text (Argument.int v) = print_int v
  argument_text (Argument.long v) = print_int v
  argument_text (Argument.long_long v) = print_int v
  argument_text (Argument.unsigned v) = decimal v
  argument_text (Argument.unsigned_long v) = decimal v
  argument_text (Argument.unsigned_long_long v) = decimal v
  argument_text (Argument.float v) = F.print_float v
  argument_text (Argument.double v) = F.print_double v
  argument_text (Argument.c_string s) = s
  argument_text (Argument.string s) = c_str s

  -- the format's literals, with the arguments' texts at its holes
  abbrev pub text : List Piece → List (Argument F) → Bytes
  text [] args = []
  text (Piece.literal ch ∷ pieces) args = ch ∷ text pieces args
  text (Piece.hole ∷ pieces) [] = []
  text (Piece.hole ∷ pieces) (a ∷ args) = argument_text a ++ text pieces args

  -- `es` prints as `t`
  abbrev Prints : List Element → Bytes → Type 0
  Prints [] t = t ≡ []
  Prints (e ∷ es) t =
      (front : Bytes) × (back : Bytes) × (print_as F e.type e.value ≡ ok front)
      × Prints es back
      × (t ≡ front ++ back)

  chars-Prints : (s : Bytes) → Prints (map (char_element F) s) s
  chars-Prints [] = refl
  chars-Prints (ch ∷ s) = (ch ∷ [], s, refl, chars-Prints s, refl)

  single-Prints :
      (type : LogType) (value : LogUnion F) (t : Bytes)
      → print_as F type value ≡ ok t
      → Prints (record { type = type; value = value } ∷ []) t
  single-Prints type value t h = (t, [], h, refl, sym (append-nil t))

  elements-Prints : (a : Argument F) → Prints (elements F a) (argument_text a)
  elements-Prints (Argument.char v) = single-Prints LogType.char (LogUnion.c v) _ refl
  elements-Prints (Argument.int v) = single-Prints LogType.integer (LogUnion.i v) _ refl
  elements-Prints (Argument.long v) = single-Prints LogType.long_integer (LogUnion.li v) _ refl
  elements-Prints (Argument.long_long v) =
      single-Prints LogType.long_long_integer (LogUnion.lli v) _ refl
  elements-Prints (Argument.unsigned v) =
      single-Prints LogType.unsigned_integer (LogUnion.u v) _ refl
  elements-Prints (Argument.unsigned_long v) =
      single-Prints LogType.unsigned_long_integer (LogUnion.ul v) _ refl
  elements-Prints (Argument.unsigned_long_long v) =
      single-Prints LogType.unsigned_long_long_integer (LogUnion.ull v) _ refl
  elements-Prints (Argument.float v) = single-Prints LogType.float (LogUnion.f v) _ refl
  elements-Prints (Argument.double v) = single-Prints LogType.double (LogUnion.d v) _ refl
  elements-Prints (Argument.c_string s) = chars-Prints s
  elements-Prints (Argument.string s) = chars-Prints (c_str s)

  append-Prints :
      (es : List Element) (s : Bytes) (more : List Element) (t : Bytes)
      → Prints es s
      → Prints more t
      → Prints (es ++ more) (s ++ t)
  append-Prints [] s more t h k = rw h k
  append-Prints (e ∷ es) s more t (front, back, print, h, split) k = (
    front,
    back ++ t,
    print,
    append-Prints es back more t h k,
    ap (◌++ t) split ∙ append_assoc front back t,
  )

  fill-Prints :
      (pieces : List Piece) (args : List (Argument F))
      → Prints (fill F pieces args) (text pieces args)
  fill-Prints [] args = refl
  fill-Prints (Piece.literal ch ∷ pieces) args =
      (ch ∷ [], text pieces args, refl, fill-Prints pieces args, refl)
  fill-Prints (Piece.hole ∷ pieces) [] = refl
  fill-Prints (Piece.hole ∷ pieces) (a ∷ args) =
      append-Prints (elements F a) (argument_text a) (fill F pieces args) (text pieces args)
        (elements-Prints a) (fill-Prints pieces args)

  -- With room for all of them, elements pushed stand behind what the queue held.
  push_all-contents :
      (queue : LfQueue Element) (es : List Element)
      → IsValid queue
      → queue.store_size + length es < queue.capacity
      → IsValid (push_all F queue es)
        × (contents (push_all F queue es) ≡ contents queue ++ es)
        × ((push_all F queue es).store_size < (push_all F queue es).capacity)
  push_all-contents queue [] valid room = (valid, sym (append-nil (contents queue)), omega arith)
  push_all-contents queue (e ∷ es) valid room =
      let (valid', holds) = contents-write queue valid e (omega arith) in
      let (size', capacity') = write-sizes queue e valid (omega arith) in
      let (valid'', holds', room') = push_all-contents (write queue e) es valid' (omega arith) in
      (valid'', holds' ∙ ap (◌++ es) holds ∙ append_assoc (contents queue) (e ∷ []) es, room')

  flush_queue-step :
      (fuel : ℕ) (queue after : LfQueue Element) (file front : Bytes) (e : Element)
      → poll queue ≡ ok (some e, after)
      → print_as F e.type e.value ≡ ok front
      → flush_queue F (suc fuel) queue file ≡ flush_queue F fuel after (file ++ front)
  unfolding flush_queue
  flush_queue-step fuel queue after file front e h print = rw (h, print) refl

  flush_queue-Prints :
      (es : List Element) (t : Bytes) (queue : LfQueue Element) (file : Bytes)
      → IsValid queue
      → queue.store_size < queue.capacity
      → contents queue ≡ es
      → Prints es t
      → (after : LfQueue Element) × (flush_queue F (suc (length es)) queue file
          ≡ ok (after, file ++ t))
        × (contents after ≡ [])
  unfolding flush_queue
  flush_queue-Prints [] t queue file valid room holds h = (
    queue,
    rw (poll-read queue valid, read-empty queue valid holds, h)
        (ap ok (ap (λ t'. (queue, t')) (sym (append-nil file)))),
    holds,
  )
  flush_queue-Prints (e ∷ es) t queue file valid room holds (front, back, print, h, split) =
      let (next, took, valid', holds', capacity') = contents-read queue valid e es holds room in
      let polled : poll queue ≡ ok (some e, next) = poll-read queue valid ∙ took in
      let fewer : next.store_size < next.capacity = omega (
        arith,
        length-contents queue,
        length-contents next,
        ap length holds,
        ap length holds',
        capacity',
        room,
      ) in
      let (after, runs, empty) =
        flush_queue-Prints es back next (file ++ front) valid' fewer holds' h in
      let joined : (file ++ front) ++ back ≡ file ++ t =
        append_assoc file front back ∙ ap (file ++◌) (sym split) in
      (
        after,
        flush_queue-step (suc (length es)) queue next file front e polled print
            ∙ runs
            ∙ ap ok (ap (λ t'. (after, t')) joined),
        empty,
      )

  -- A format with as many arguments as it has holes, logged on an empty queue with room for what it
  -- puts there, comes out of a pass of the logger's thread as its text, behind what the file has, and
  -- leaves the queue empty. No hole of the format stands before another hole or a literal percent.
  pub log-flush_queue :
      (pieces : List Piece) (args : List (Argument F)) (queue : LfQueue Element) (file : Bytes)
      → Separated pieces
      → IsValid queue
      → contents queue ≡ []
      → holes pieces ≡ length args
      → length (fill F pieces args) < queue.capacity
      → (logged : LfQueue Element) × (after : LfQueue Element) × (log F queue (spell pieces) args
          ≡ ok logged)
        × (flush_queue F (suc (length (fill F pieces args))) logged file
            ≡ ok (after, file ++ text pieces args))
        × (contents after ≡ [])
  log-flush_queue pieces args queue file sep valid empty matched room =
      let es : List Element = fill F pieces args in
      let none_left : queue.store_size ≡ 0 =
        omega (arith, length-contents queue, ap length empty) in
      let (valid', holds, room') = push_all-contents queue es valid (omega arith) in
      let (after, runs, left) =
        flush_queue-Prints es (text pieces args) (push_all F queue es) file valid' room'
          (holds ∙ ap (◌++ es) empty) (fill-Prints pieces args) in
      (push_all F queue es, after, log-spell F pieces args queue sep matched, runs, left)
