-- ===== src/Common/TcpSocket.antt =====
-- common/tcp_socket.h and tcp_socket.cpp: the buffers of a TCP socket. What the kernel answers to
-- `recvmsg` and `::send` is a parameter; closing, connecting and the log are left out.
pub mod Connecting
pub mod Sending
mod Tests
use electronic_trading_ecosy.Base.{
  ℕ, zero, suc, ◌+◌, ◌-◌, ◌*◌, ◌^◌, min, Bool, true, false, not, ◌||◌, [], ◌++◌, Option, none, some,
  Outcome, ok, fault, undefined, out_of_fuel, ◌>>=◌, ltb, leb, if◌then◌else◌, length,
}
use electronic_trading_ecosy.Base.Text.{Bytes}
use electronic_trading_ecosy.Base.Buffer.{Buffer, zeros, memcpy, slice}

abbrev pub tcp_buffer_size : ℕ
tcp_buffer_size = 64 * 1024 * 1024

-- `fd` is `none` for -1.
pub record TcpSocket : Type 0 where
  pub fd : Option ℕ
  pub send_disconnected : Bool
  pub send_buffer : Buffer
  pub next_send_valid_index : ℕ
  pub rcv_disconnected : Bool
  pub rcv_buffer : Buffer
  pub next_rcv_valid_index : ℕ

-- `new TCPSocket(logger)`
abbrev pub new_socket : TcpSocket
new_socket = record {
  fd = none;
  send_disconnected = false;
  send_buffer = zeros;
  next_send_valid_index = 0;
  rcv_disconnected = false;
  rcv_buffer = zeros;
  next_rcv_valid_index = 0;
}

-- what `recvmsg` reads: the bytes, and the seconds and microseconds of the kernel's time stamp
pub record Received : Type 0 where
  pub bytes : Bytes
  pub timestamp : Option (ℕ × ℕ)

-- what `::send` returns: the number of bytes taken, or -1, with the answer of `wouldBlock()`
pub data SendReply : Type 0 where
  sent : ℕ → SendReply
  failed : (would_block : Bool) → SendReply

-- The kernel: `recv` answers a read into that much room, with `none` for a result of 0 or -1; `send`
-- answers the n-th call of `::send` for these bytes, and the flag `MSG_MORE`.
pub record Kernel : Type 0 where
  pub recv : (room : ℕ) → Option Received
  pub send : (call : ℕ) → Bytes → (more : Bool) → SendReply

-- `recv_callback_`, with the socket and the kernel's time
abbrev pub RecvCallback : Type 0
RecvCallback = TcpSocket → ℕ → Outcome TcpSocket

-- `memcpy` behind the buffer's end is undefined.
unfoldable pub send : TcpSocket → Bytes → Outcome TcpSocket
send s bytes =
    if ltb 0 (length bytes)
    then if leb (s.next_send_valid_index + length bytes) tcp_buffer_size
      then ok (record s {
        send_buffer = memcpy s.send_buffer s.next_send_valid_index bytes;
        next_send_valid_index = s.next_send_valid_index + length bytes;
      })
      else fault undefined
    else ok s

abbrev pub kernel_time : Option (ℕ × ℕ) → ℕ
kernel_time none = 0
kernel_time (some (seconds, micros)) = seconds * 1000000000 + micros * 1000

-- `sendAndRecv` up to the callback
unfoldable pub receive : Kernel → RecvCallback → TcpSocket → Outcome (Bool × TcpSocket)
receive kernel callback s = elim (kernel.recv (tcp_buffer_size - s.next_rcv_valid_index)) [
  | none ↦ ok (false, s)
  | some received ↦ do
    s' ←
        callback
          (record s {
            rcv_buffer = memcpy s.rcv_buffer s.next_rcv_valid_index received.bytes;
            next_rcv_valid_index = s.next_rcv_valid_index + length received.bytes;
          })
          (kernel_time received.timestamp)
    ok (true, s')
]

-- The loop under `n_send > 0`, on fuel, with the calls made and the bytes the kernel has taken.
-- A failed call subtracts -1 from `n_send`, which is signed.
unfoldable pub send_loop :
    (fuel : ℕ)
    → Kernel
    → (call n_send : ℕ) → TcpSocket
    → (taken : Bytes) → Outcome (TcpSocket × Bytes)
send_loop zero kernel call n_send s taken = fault out_of_fuel
send_loop (suc fuel) kernel call n_send s taken = elim (ltb 0 n_send) [
  | false ↦ ok (s, taken)
  | true ↦
      let this_msg = min s.next_send_valid_index n_send in
      elim (kernel.send call (slice s.send_buffer 0 this_msg) (ltb this_msg n_send)) [
        | SendReply.sent n ↦
            send_loop fuel kernel (suc call) (n_send - n) s
              (taken ++ slice s.send_buffer 0 (min n this_msg))
        | SendReply.failed would_block ↦ elim (ltb (n_send + 1) (2 ^ 63)) [
          | false ↦ fault undefined
          | true ↦
              send_loop fuel kernel (suc call) (n_send + 1)
                (record s { send_disconnected = s.send_disconnected || not would_block }) taken
        ]
      ]
]

-- The result, the socket, and the bytes that the kernel took.
unfoldable pub send_and_recv :
    (fuel : ℕ) → Kernel → RecvCallback → TcpSocket → Outcome (Bool × TcpSocket × Bytes)
unfolding receive send_loop
send_and_recv fuel kernel callback s = do
  (read, s) ← receive kernel callback s
  (s, taken) ← send_loop fuel kernel 0 (min tcp_buffer_size s.next_send_valid_index) s []
  ok (read, record s { next_send_valid_index = 0 }, taken)
