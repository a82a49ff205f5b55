-- ===== src/Common/SocketUtils/Tests.antt =====
-- Two systems, of which one refuses every connection.
use electronic_trading_ecosy.Base.{◌≡◌, refl, true, false, List, [], ◌∷◌, some, none}
use electronic_trading_ecosy.Base.Int.{ℤ, pos, negsuc}
use electronic_trading_ecosy.Base.Text.{codes}
use electronic_trading_ecosy.Common.SocketUtils.{
  SockType, Protocol, Address, SysCall, History, System, Kind, create_socket, is_minus_one,
  is_multicast,
}
use electronic_trading_ecosy.Common.TcpSocket.Connecting.{tcp_kind}
use electronic_trading_ecosy.Common.SocketUtils.Listener.{Listens, create_socket-IsListening}
use electronic_trading_ecosy.Common.SocketUtils.Creating.{
  is_connect, DifferInConnect, create_socket-connect,
}

abbrev addresses : List Address
addresses =
    record { family = 2; socktype = SockType.sock_stream; protocol = Protocol.tcp; addr = 1 }
    ∷ record { family = 2; socktype = SockType.sock_stream; protocol = Protocol.tcp; addr = 2 }
    ∷ []

-- the next descriptor, and 0 for each other call, but for `connect`
abbrev answer : (connected : ℤ) → SysCall → ℤ
answer connected (SysCall.socket a) = pos a.addr
answer connected (SysCall.connect fd addr) = connected
answer connected _ = pos 0

abbrev system : (connected : ℤ) → System
system connected = record {
  reply = λ h c. answer connected c;
  would_block = λ h. false;
  getaddrinfo = λ ip port hints. some addresses;
  getifaddrs = none;
}

answer-others : (c : SysCall) → is_connect c ≡ false → answer (pos 0) c ≡ answer (negsuc 0) c
answer-others (SysCall.socket a) other = refl
answer-others (SysCall.get_flags fd) other = refl
answer-others (SysCall.set_flags fd flags) other = refl
answer-others (SysCall.set_option fd level option value) other = refl
answer-others (SysCall.connect fd addr) other = cc
answer-others (SysCall.bind fd addr) other = refl
answer-others (SysCall.listen fd backlog) other = refl
answer-others (SysCall.add_membership fd ip) other = refl

differ : DifferInConnect (system (pos 0)) (system (negsuc 0))
differ = record {
  others = λ h c other. answer-others c other;
  connect_a = λ h fd addr. refl;
  connect_b = λ h fd addr. refl;
  lookup = λ ip port hints. refl;
  interfaces = refl;
}

abbrev client : Kind
client = record {
  is_udp = false;
  is_blocking = false;
  is_listening = false;
  ttl = 0;
  needs_so_timestamp = true;
}

create_socket-connect_example :
    create_socket (system (pos 0)) client (codes "127.0.0.1") [] (pos 12345) []
    ≡ create_socket (system (negsuc 0)) client (codes "127.0.0.1") [] (pos 12345) []
create_socket-connect_example =
    create_socket-connect (system (pos 0)) (system (negsuc 0)) differ client (codes "127.0.0.1") []
      (pos 12345) []

-- an address below 224 that is taken for a multicast group
local_multicast : is_multicast (codes "127.0.0.1") ≡ true
unfolding is_multicast
local_multicast = refl

listener :
    (q : ℤ × History) × (create_socket
        (system (pos 0))
        (tcp_kind true)
        (codes "127.0.0.1")
        []
        (pos 12345)
        []
      ≡ q)
    × (is_minus_one q.0 ≡ false)
unfolding create_socket
listener = (_, refl, refl)

create_socket-IsListening_example : Listens (system (pos 0)) listener.0.0 listener.0.1
create_socket-IsListening_example =
    create_socket-IsListening (system (pos 0)) (codes "127.0.0.1") [] (pos 12345) [] listener.2
      listener.1
