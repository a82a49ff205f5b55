-- ===== src/Common/TcpServer.antt =====
-- common/tcp_server.h and tcp_server.cpp: the server's lists of sockets. A `TCPSocket*` is a number;
-- what `epoll_wait`, `accept` and the other calls of the system answer is a parameter.
pub mod Lists
pub mod Serving
mod Tests
use electronic_trading_ecosy.Base.{
  ℕ, suc, ◌+◌, Bool, true, false, List, [], ◌∷◌, ◌++◌, Option, none, some, Outcome, ok, assert,
  ◌>>=◌, ◌>>◌, ◌||◌, ◌&&◌, ◌==◌, if◌then◌else◌, length, update,
}
use electronic_trading_ecosy.Base.Text.{Bytes}
use electronic_trading_ecosy.Base.Pointers.{add_absent, remove}
use electronic_trading_ecosy.Common.TcpSocket.{
  TcpSocket, new_socket, Kernel, RecvCallback, send_and_recv,
}

-- `store` is the memory of the sockets, and `next_pointer` the next that `new` gives; `efd` is `none`
-- for -1.
pub record TcpServer : Type 0 where
  pub efd : Option ℕ
  pub listener_socket : ℕ
  pub store : ℕ → TcpSocket
  pub next_pointer : ℕ
  pub sockets : List ℕ
  pub recv_sockets : List ℕ
  pub send_sockets : List ℕ
  pub disconnected_sockets : List ℕ

-- `TCPServer(logger)`
unfoldable pub new_server : TcpServer
new_server = record {
  efd = none;
  listener_socket = 0;
  store = λ p. new_socket;
  next_pointer = 1;
  sockets = [];
  recv_sockets = [];
  send_sockets = [];
  disconnected_sockets = [];
}

-- an `epoll_event`: the socket, and its bits `EPOLLIN`, `EPOLLOUT` and `EPOLLERR | EPOLLHUP`
pub record Event : Type 0 where
  pub socket : ℕ
  pub input : Bool
  pub output : Bool
  pub error_or_hup : Bool

-- A connection that `accept` gives: its descriptor, the result of `setNonBlocking(fd) && setNoDelay(fd)`
-- and that of `addToEpollList`.
pub record Accepted : Type 0 where
  pub fd : ℕ
  pub options_set : Bool
  pub added_to_epoll : Bool

-- the answers of the system to one `poll`; `accept` gives these connections and then -1
pub record Answers : Type 0 where
  pub epoll_wait : (max_events : ℕ) → List Event
  pub accepted : List Accepted

unfoldable pub destroy : TcpServer → TcpServer
destroy server = record server {
  efd = none;
  store =
      update server.store server.listener_socket
        (record (server.store server.listener_socket) { fd = none });
}

-- `efd` and `fd` are what `epoll_create` and `createSocket` return.
unfoldable pub listen : (efd fd : Option ℕ) → TcpServer → TcpServer
unfolding destroy
listen efd fd server =
    let server = destroy server in
    record server {
      efd = efd;
      store =
          update server.store server.listener_socket
            (record (server.store server.listener_socket) { fd = fd });
    }

-- The result of `removeFromEpollList` is not used.
unfoldable pub delete_socket : TcpServer → ℕ → TcpServer
delete_socket server socket = record server {
  sockets = remove socket server.sockets;
  recv_sockets = remove socket server.recv_sockets;
  send_sockets = remove socket server.send_sockets;
}

unfoldable pub delete_each : TcpServer → List ℕ → TcpServer
unfolding delete_socket
delete_each server [] = server
delete_each server (socket ∷ more) = delete_each (delete_socket server socket) more

abbrev pub list_if : Bool → List ℕ → ℕ → List ℕ
list_if true sockets socket = add_absent sockets socket
list_if false sockets socket = sockets

-- One event of the loop; the listener's is left by `continue`.
unfoldable pub take_event : Event → Bool × TcpServer → Bool × TcpServer
take_event event (have_new_connections, server) =
    if event.input && event.socket == server.listener_socket then (true, server) else (
      have_new_connections,
      record server {
        recv_sockets = list_if event.input server.recv_sockets event.socket;
        send_sockets = list_if event.output server.send_sockets event.socket;
        disconnected_sockets = list_if event.error_or_hup server.disconnected_sockets event.socket;
      },
    )

unfoldable pub take_events : List Event → Bool × TcpServer → Bool × TcpServer
unfolding take_event
take_events [] state = state
take_events (event ∷ events) state = take_events events (take_event event state)

unfoldable pub accept_each : List Accepted → TcpServer → Outcome TcpServer
accept_each [] server = ok server
accept_each (a ∷ more) server = do
  assert a.options_set
  assert a.added_to_epoll
  let socket = server.next_pointer
  accept_each more (record server {
    store = update server.store socket (record new_socket { fd = some a.fd });
    next_pointer = suc socket;
    recv_sockets = add_absent server.recv_sockets socket;
  })

abbrev pub max_events : TcpServer → ℕ
max_events server = 1 + length server.sockets

unfoldable pub poll : Answers → TcpServer → Outcome TcpServer
unfolding delete_each take_events accept_each
poll os server =
    let events = os.epoll_wait (max_events server) in
    let (have_new_connections, polled) =
      take_events events (false, delete_each server server.disconnected_sockets) in
    if have_new_connections then accept_each os.accepted polled else ok polled

-- a loop over sockets: whether one has received, and what the kernel took of each
unfoldable pub serve_each :
    (fuel : ℕ)
    → (ℕ → Kernel)
    → RecvCallback
    → List ℕ
    → TcpServer
    → Outcome (Bool × TcpServer × List (ℕ × Bytes))
serve_each fuel kernel callback [] server = ok (false, server, [])
serve_each fuel kernel callback (socket ∷ more) server = do
  (received, s, taken) ← send_and_recv fuel (kernel socket) callback (server.store socket)
  (recv, server, rest) ←
      serve_each fuel kernel callback more (record server { store = update server.store socket s })
  ok (received || recv, server, (socket, taken) ∷ rest)

-- `kernel` answers the calls of the first loop, and `kernel_send` those of the second. The callback
-- takes no argument, and none of the program's changes the server.
unfoldable pub server_send_and_recv :
    (fuel : ℕ)
    → (kernel kernel_send : ℕ → Kernel) → RecvCallback
    → (recv_finished_callback : Outcome (Unit {0})) → TcpServer
    → Outcome (TcpServer × List (ℕ × Bytes))
unfolding serve_each
server_send_and_recv fuel kernel kernel_send callback recv_finished_callback server = do
  (recv, server, taken) ← serve_each fuel kernel callback server.recv_sockets server
  if recv then recv_finished_callback else ok tt
  (_, server, taken_send) ← serve_each fuel kernel_send callback server.send_sockets server
  ok (server, taken ++ taken_send)

-- what the owner of a server calls
pub data Call : Type 0 where
  poll_call : Answers → Call
  serve_call : ℕ → (ℕ → Kernel) → (ℕ → Kernel) → RecvCallback → Outcome (Unit {0}) → Call

unfoldable pub call : TcpServer → Call → Outcome TcpServer
unfolding poll server_send_and_recv
call server (Call.poll_call os) = poll os server
call server (Call.serve_call fuel kernel kernel_send callback finished) = do
  (server, _) ← server_send_and_recv fuel kernel kernel_send callback finished server
  ok server

unfoldable pub run : TcpServer → List Call → Outcome TcpServer
unfolding call
run server [] = ok server
run server (c ∷ calls) = do server ← call server c; run server calls
