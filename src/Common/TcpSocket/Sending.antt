-- ===== src/Common/TcpSocket/Sending.antt =====
-- What the kernel gets of the bytes that are sent through a socket.
use mathlib.Core.List.{append_assoc, append-nil}
use electronic_trading_ecosy.Base.{
  ℕ, zero, suc, ◌+◌, ◌-◌, ◌^◌, ◌≤◌, ◌<◌, min, ◌≡◌, refl, ◌∙◌, sym, ap, Bool, true, false, not, ◌||◌,
  List, [], ◌∷◌, ◌++◌, none, Outcome, ok, fault, out_of_fuel, ◌>>=◌, arith, length, length-append,
  ltb,
}
use electronic_trading_ecosy.Base.Text.{Bytes, stream}
use electronic_trading_ecosy.Base.Buffer.{slice, memcpy, slice-memcpy, length-slice}
use electronic_trading_ecosy.Common.TcpSocket.{
  tcp_buffer_size, TcpSocket, SendReply, Kernel, RecvCallback, send, receive, send_loop,
  send_and_recv,
}

-- the bytes that wait to be sent
abbrev pub pending : TcpSocket → Bytes
pending s = slice s.send_buffer 0 s.next_send_valid_index

-- a client's sends, one after the other
abbrev pub send_each : TcpSocket → List Bytes → Outcome TcpSocket
send_each s [] = ok s
send_each s (bytes ∷ more) = do s' ← send s bytes; send_each s' more

-- nothing comes in
abbrev pub IsQuiet : Kernel → Type 0
IsQuiet kernel = (room : ℕ) → kernel.recv room ≡ none

-- each call of `::send` takes the whole message
abbrev pub TakesAll : Kernel → Type 0
TakesAll kernel =
    (call : ℕ) (bytes : Bytes) (more : Bool)
    → kernel.send call bytes more ≡ SendReply.sent (length bytes)

abbrev pub Refuses : Kernel → Type 0
Refuses kernel =
    (call : ℕ) (bytes : Bytes) (more : Bool)
    → (would_block : Bool) × (kernel.send call bytes more ≡ SendReply.failed would_block)

-- A send that fits the buffer stands behind what waits.
send-pending :
    (s : TcpSocket) (bytes : Bytes)
    → s.next_send_valid_index + length bytes ≤ tcp_buffer_size
    → (s' : TcpSocket) × (send s bytes ≡ ok s')
      × (s'.next_send_valid_index ≡ s.next_send_valid_index + length bytes)
      × (pending s' ≡ pending s ++ bytes)
unfolding send
send-pending s [] fits = (s, refl, omega arith, sym (append-nil (pending s)))
send-pending s (b ∷ bs) fits = (
  record s {
    send_buffer = memcpy s.send_buffer s.next_send_valid_index (b ∷ bs);
    next_send_valid_index = s.next_send_valid_index + length (b ∷ bs);
  },
  ground arith,
  refl,
  slice-memcpy s.send_buffer s.next_send_valid_index (b ∷ bs),
)

pub send_each-pending :
    (sends : List Bytes) (s : TcpSocket)
    → s.next_send_valid_index + length (stream sends) ≤ tcp_buffer_size
    → (s' : TcpSocket) × (send_each s sends ≡ ok s')
      × (s'.next_send_valid_index ≡ s.next_send_valid_index + length (stream sends))
      × (pending s' ≡ pending s ++ stream sends)
send_each-pending [] s fits = (s, refl, omega arith, sym (append-nil (pending s)))
send_each-pending (bytes ∷ more) s fits =
    let sizes : length (bytes ++ stream more) ≡ length bytes + length (stream more) =
      length-append bytes (stream more) in
    let (s1, sent, next1, holds1) = send-pending s bytes (omega arith) in
    let (s2, each, next2, holds2) = send_each-pending more s1 (omega arith) in
    (
      s2,
      rw sent each,
      omega arith,
      holds2 ∙ ap (◌++ stream more) holds1 ∙ append_assoc (pending s) bytes (stream more),
    )

receive-quiet :
    (kernel : Kernel) (callback : RecvCallback) (s : TcpSocket)
    → IsQuiet kernel
    → receive kernel callback s ≡ ok (false, s)
unfolding receive
receive-quiet kernel callback s quiet =
    rw (quiet (tcp_buffer_size - s.next_rcv_valid_index), receive) refl

send_loop-done :
    (fuel : ℕ) (kernel : Kernel) (call : ℕ) (s : TcpSocket) (taken : Bytes)
    → send_loop (suc fuel) kernel call 0 s taken ≡ ok (s, taken)
unfolding send_loop
send_loop-done fuel kernel call s taken = refl

-- A call of which the kernel takes `n` bytes.
send_loop-sent :
    (fuel : ℕ) (kernel : Kernel) (call n_send n : ℕ) (s : TcpSocket) (taken : Bytes)
    → 0 < n_send
    → n_send ≤ s.next_send_valid_index
    → kernel.send call (slice s.send_buffer 0 n_send) false ≡ SendReply.sent n
    → send_loop (suc fuel) kernel call n_send s taken
      ≡ send_loop fuel kernel
          (suc call)
          (n_send - n)
          s
          (taken ++ slice s.send_buffer 0 (min n n_send))
unfolding send_loop
send_loop-sent fuel kernel call n_send n s taken some_left waits reply =
    let positive : ltb 0 n_send ≡ true = ground arith in
    let whole : min s.next_send_valid_index n_send ≡ n_send = omega arith in
    let not_more : ltb n_send n_send ≡ false = ground arith in
    rw (positive, whole, not_more, reply, send_loop)
      (ap
        (λ m.
          send_loop fuel kernel (suc call) (n_send - n) s
            (taken ++ slice s.send_buffer 0 (min n m)))
        whole)

-- A call that fails makes the loop longer.
send_loop-failed :
    (fuel : ℕ) (kernel : Kernel) (call n_send : ℕ) (s : TcpSocket) (taken : Bytes)
    → Refuses kernel
    → 0 < n_send
    → n_send + 1 < 2 ^ 63
    → (s' : TcpSocket) × (send_loop (suc fuel) kernel call n_send s taken
        ≡ send_loop fuel kernel (suc call) (n_send + 1) s' taken)
unfolding send_loop
send_loop-failed fuel kernel call n_send s taken refuses some_left below =
    let positive : ltb 0 n_send ≡ true = ground arith in
    let fits : ltb (n_send + 1) (2 ^ 63) ≡ true = ground arith in
    let this_msg : ℕ = min s.next_send_valid_index n_send in
    let (would_block, reply) =
      refuses call (slice s.send_buffer 0 this_msg) (ltb this_msg n_send) in
    (
      record s { send_disconnected = s.send_disconnected || not would_block },
      rw (positive, reply, fits, send_loop) refl,
    )

send_loop-stuck :
    (fuel : ℕ) (kernel : Kernel) (call n_send : ℕ) (s : TcpSocket) (taken : Bytes)
    → Refuses kernel
    → 0 < n_send
    → n_send + fuel < 2 ^ 63
    → send_loop fuel kernel call n_send s taken ≡ fault out_of_fuel
unfolding send_loop
send_loop-stuck zero kernel call n_send s taken refuses some_left below = refl
send_loop-stuck (suc fuel) kernel call n_send s taken refuses some_left below =
    let (s', step) =
      send_loop-failed fuel kernel call n_send s taken refuses some_left (omega arith) in
    step
    ∙ send_loop-stuck fuel kernel (suc call) (n_send + 1) s' taken refuses (omega arith)
        (omega arith)

-- The kernel takes the last `m` bytes whole.
send_loop-last :
    (kernel : Kernel) (call m : ℕ) (s : TcpSocket) (taken : Bytes)
    → m ≤ s.next_send_valid_index
    → ((bytes : Bytes) → kernel.send call bytes false ≡ SendReply.sent (length bytes))
    → send_loop 2 kernel call m s taken ≡ ok (s, taken ++ slice s.send_buffer 0 m)
send_loop-last kernel call zero s taken h takes =
    send_loop-done 1 kernel call s taken ∙ ap (λ t. ok (s, t)) (sym (append-nil taken))
send_loop-last kernel call (suc m) s taken h takes =
    let reply : kernel.send call (slice s.send_buffer 0 (suc m)) false ≡ SendReply.sent (suc m) =
      takes (slice s.send_buffer 0 (suc m))
      ∙ ap SendReply.sent (length-slice s.send_buffer 0 (suc m)) in
    let over : suc m - suc m ≡ 0 = omega arith in
    let whole : min (suc m) (suc m) ≡ suc m = omega arith in
    send_loop-sent 1 kernel call (suc m) (suc m) s taken (omega arith) h reply
    ∙ rw (over, whole)
        (send_loop-done 0 kernel (suc call) s (taken ++ slice s.send_buffer 0 (suc m)))

-- a round in which the kernel takes all that waits
send_once :
    (kernel : Kernel) (s : TcpSocket)
    → TakesAll kernel
    → s.next_send_valid_index ≤ tcp_buffer_size
    → send_loop 2 kernel 0 (min tcp_buffer_size s.next_send_valid_index) s [] ≡ ok (s, pending s)
send_once kernel s takes fits =
    let waits : min tcp_buffer_size s.next_send_valid_index ≡ s.next_send_valid_index =
      omega arith in
    rw waits (
      send_loop-last kernel 0 s.next_send_valid_index s [] (omega arith)
        (λ bytes. takes 0 bytes false))

send_twice :
    (kernel : Kernel) (s : TcpSocket) (n : ℕ)
    → kernel.send 0 (pending s) false ≡ SendReply.sent n
    → ((bytes : Bytes) → kernel.send 1 bytes false ≡ SendReply.sent (length bytes))
    → s.next_send_valid_index ≤ tcp_buffer_size
    → n < s.next_send_valid_index
    → send_loop 3 kernel 0 (min tcp_buffer_size s.next_send_valid_index) s []
      ≡ ok (s, slice s.send_buffer 0 n ++ slice s.send_buffer 0 (s.next_send_valid_index - n))
send_twice kernel s n first second fits part =
    let waits : min tcp_buffer_size s.next_send_valid_index ≡ s.next_send_valid_index =
      omega arith in
    let front : min n s.next_send_valid_index ≡ n = omega arith in
    rw waits (
      send_loop-sent 2 kernel 0 s.next_send_valid_index n s [] (omega arith) (omega arith) first
      ∙ rw front (
          send_loop-last kernel 1 (s.next_send_valid_index - n) s (slice s.send_buffer 0 n)
            (omega arith) second))

module _ (kernel : Kernel) (callback : RecvCallback) (s : TcpSocket) where
  -- Bytes sent through a socket with nothing waiting, which fit its buffer, come to the kernel in the
  -- order of the sends at the next `send_and_recv`, which leaves nothing waiting, when nothing comes in
  -- and the kernel takes each message whole.
  pub send_each-send_and_recv :
      (sends : List Bytes)
      → IsQuiet kernel
      → TakesAll kernel
      → s.next_send_valid_index ≡ 0
      → length (stream sends) ≤ tcp_buffer_size
      → (filled : TcpSocket) × (after : TcpSocket) × (send_each s sends ≡ ok filled)
        × (send_and_recv 2 kernel callback filled ≡ ok (false, after, stream sends))
        × (pending after ≡ [])
  unfolding send_and_recv
  send_each-send_and_recv sends quiet takes empty fits =
      let (filled, each, next, holds) = send_each-pending sends s (omega arith) in
      let waits : pending filled ≡ stream sends =
        holds ∙ ap (λ n. slice s.send_buffer 0 n ++ stream sends) empty in
      (
        filled,
        record filled { next_send_valid_index = 0 },
        each,
        rw (receive-quiet kernel callback filled quiet) (
            let q = send_once kernel filled takes (omega arith) in
            rw q (ap (λ t. ok (false, record filled { next_send_valid_index = 0 }, t)) waits)),
        refl,
      )

  -- When the kernel refuses each message, `send_and_recv` with bytes waiting does not come to an end:
  -- no number of rounds below 2^62 is enough.
  pub send_and_recv-stuck :
      (fuel : ℕ)
      → IsQuiet kernel
      → Refuses kernel
      → 0 < s.next_send_valid_index
      → fuel < 2 ^ 62
      → send_and_recv fuel kernel callback s ≡ fault out_of_fuel
  unfolding send_and_recv
  send_and_recv-stuck fuel quiet refuses waits below =
      let stuck =
        send_loop-stuck fuel kernel 0 (min tcp_buffer_size s.next_send_valid_index) s [] refuses
          (omega arith) (omega arith) in
      rw (receive-quiet kernel callback s quiet) (rw stuck refl)

  -- When the kernel takes `n` of the bytes that wait, and whole what it is given then, what it gets
  -- second is the start of the buffer again, and not the bytes behind the first `n`.
  pub send_and_recv-repeats :
      (n : ℕ)
      → IsQuiet kernel
      → kernel.send 0 (pending s) false ≡ SendReply.sent n
      → ((bytes : Bytes) → kernel.send 1 bytes false ≡ SendReply.sent (length bytes))
      → s.next_send_valid_index ≤ tcp_buffer_size
      → n < s.next_send_valid_index
      → (after : TcpSocket) × (send_and_recv 3 kernel callback s
          ≡ ok (
            false,
            after,
            slice s.send_buffer 0 n ++ slice s.send_buffer 0 (s.next_send_valid_index - n),
          ))
        × (pending after ≡ [])
  unfolding send_and_recv
  send_and_recv-repeats n quiet first second fits part = (
    record s { next_send_valid_index = 0 },
    rw (receive-quiet kernel callback s quiet)
        (rw (send_twice kernel s n first second fits part) refl),
    refl,
  )
