-- ===== src/Common/MulticastSocket.antt =====
-- common/multicast_socket.h and multicast_socket.cpp: the buffers of a multicast socket. What the
-- kernel answers to `recv` is a parameter, and its answer to `::send` is not used; the log is left out.
use electronic_trading_ecosy.Base.{
  ℕ, ◌+◌, ◌-◌, ◌*◌, Bool, true, false, Option, none, some, Outcome, ok, fault, undefined, assert,
  ◌>>=◌, ◌>>◌, ltb, leb, if◌then◌else◌, length,
}
use electronic_trading_ecosy.Base.Int.{ℤ}
use electronic_trading_ecosy.Base.Text.{Bytes}
use electronic_trading_ecosy.Base.Buffer.{Buffer, zeros, memcpy, slice}
use electronic_trading_ecosy.Common.SocketUtils.{System, History, Kind, create_socket, descriptor}

abbrev pub multicast_buffer_size : ℕ
multicast_buffer_size = 64 * 1024 * 1024

-- `socket_fd` is `none` for -1.
pub record MulticastSocket : Type 0 where
  pub socket_fd : Option ℕ
  pub outbound_data : Buffer
  pub next_send_valid_index : ℕ
  pub inbound_data : Buffer
  pub next_rcv_valid_index : ℕ

-- `MulticastSocket(logger)`
abbrev pub new_socket : MulticastSocket
new_socket = record {
  socket_fd = none;
  outbound_data = zeros;
  next_send_valid_index = 0;
  inbound_data = zeros;
  next_rcv_valid_index = 0;
}

abbrev pub multicast_kind : (is_listening : Bool) → Kind
multicast_kind is_listening = record {
  is_udp = true;
  is_blocking = false;
  is_listening = is_listening;
  ttl = 1;
  needs_so_timestamp = false;
}

-- the descriptor that it returns, the socket, and the calls made
unfoldable pub init :
    System
    → (ip iface : Bytes) → (port : ℤ) → (is_listening : Bool) → MulticastSocket
    → History
    → ℤ × MulticastSocket × History
unfolding create_socket
init os ip iface port is_listening s h =
    let (fd, calls) = create_socket os (multicast_kind is_listening) ip iface port h in
    (fd, record s { socket_fd = descriptor fd }, calls)

unfoldable pub leave : MulticastSocket → MulticastSocket
leave s = record s { socket_fd = none }

-- `memcpy` behind the buffer's end is undefined; the test comes behind it.
unfoldable pub send : MulticastSocket → Bytes → Outcome MulticastSocket
send s bytes =
    if leb (s.next_send_valid_index + length bytes) multicast_buffer_size
    then assert (ltb (s.next_send_valid_index + length bytes) multicast_buffer_size)
      >> ok (record s {
        outbound_data = memcpy s.outbound_data s.next_send_valid_index bytes;
        next_send_valid_index = s.next_send_valid_index + length bytes;
      })
    else fault undefined

-- `recv_callback_`
abbrev pub RecvCallback : Type 0
RecvCallback = MulticastSocket → Outcome MulticastSocket

-- `received` is what `recv` reads, for a result above 0.
unfoldable pub receive :
    (received : Option Bytes) → RecvCallback → MulticastSocket → Outcome (Bool × MulticastSocket)
receive none callback s = ok (false, s)
receive (some bytes) callback s = do
  s ← callback (record s {
    inbound_data = memcpy s.inbound_data s.next_rcv_valid_index bytes;
    next_rcv_valid_index = s.next_rcv_valid_index + length bytes;
  })
  ok (true, s)

-- The result, the socket, and the message that is given to the kernel, if any. `recv` reads into the
-- room that is left.
unfoldable pub send_and_recv :
    (recv : (room : ℕ) → Option Bytes)
    → RecvCallback
    → MulticastSocket
    → Outcome (Bool × MulticastSocket × Option Bytes)
unfolding receive
send_and_recv recv callback s = do
  (read, s) ← receive (recv (multicast_buffer_size - s.next_rcv_valid_index)) callback s
  let message =
      if ltb 0 s.next_send_valid_index
      then some (slice s.outbound_data 0 s.next_send_valid_index)
      else none
  ok (read, record s { next_send_valid_index = 0 }, message)
