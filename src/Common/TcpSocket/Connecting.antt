-- ===== src/Common/TcpSocket/Connecting.antt =====
-- common/tcp_socket.cpp: closing a socket and making a new one. The address that `connect` keeps for
-- `recvmsg` is left out.
use electronic_trading_ecosy.Base.{none, Bool, true, false}
use electronic_trading_ecosy.Base.Int.{ℤ}
use electronic_trading_ecosy.Base.Text.{Bytes}
use electronic_trading_ecosy.Common.SocketUtils.{System, History, Kind, create_socket, descriptor}
use electronic_trading_ecosy.Common.TcpSocket.{TcpSocket}

unfoldable pub destroy : TcpSocket → TcpSocket
destroy s = record s { fd = none }

abbrev pub tcp_kind : (is_listening : Bool) → Kind
tcp_kind is_listening = record {
  is_udp = false;
  is_blocking = false;
  is_listening = is_listening;
  ttl = 0;
  needs_so_timestamp = true;
}

-- the descriptor that it returns, the socket, and the calls made
unfoldable pub connect :
    System
    → (ip iface : Bytes) → (port : ℤ) → (is_listening : Bool) → TcpSocket
    → History
    → ℤ × TcpSocket × History
unfolding destroy create_socket
connect os ip iface port is_listening s h =
    let s = destroy s in
    let (fd, calls) = create_socket os (tcp_kind is_listening) ip iface port h in
    (fd, record s { fd = descriptor fd }, calls)
