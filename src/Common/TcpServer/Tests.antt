-- ===== src/Common/TcpServer/Tests.antt =====
-- A run of the server: a connection comes, has data, and ends.
use electronic_trading_ecosy.Base.{
  ℕ, ◌≡◌, refl, false, true, not, ◌&&◌, ◌||◌, List, [], ◌∷◌, ok, none, arith, update,
}
use electronic_trading_ecosy.Base.Pointers.{contains}
use electronic_trading_ecosy.Common.TcpSocket.{Kernel, SendReply, send_and_recv, receive, send_loop}
use electronic_trading_ecosy.Common.TcpServer.{
  TcpServer, new_server, Answers, delete_socket, delete_each, take_event, take_events, accept_each,
  max_events, poll, serve_each, server_send_and_recv, Call, call, run,
}
use electronic_trading_ecosy.Common.TcpServer.Lists.{IsTidy, run-IsTidy}
use electronic_trading_ecosy.Common.TcpServer.Serving.{signals, poll_lem}

abbrev connection : Answers
connection = record {
  epoll_wait = λ n. record { socket = 0; input = true; output = false; error_or_hup = false } ∷ [];
  accepted = record { fd = 7; options_set = true; added_to_epoll = true } ∷ [];
}

abbrev hang_up : Answers
hang_up = record {
  epoll_wait = λ n. record { socket = 1; input = true; output = false; error_or_hup = true } ∷ [];
  accepted = [];
}

abbrev quiet : ℕ → Kernel
quiet p = record { recv = λ room. none; send = λ n bytes more. SendReply.failed true }

abbrev calls : List Call
calls =
    Call.poll_call connection
    ∷ Call.serve_call 1 quiet quiet (λ s t. ok s) (ok tt)
    ∷ Call.poll_call hang_up
    ∷ []

a_run : (server : TcpServer) × (run new_server calls ≡ ok server)
unfolding run call poll delete_each delete_socket take_events take_event accept_each
    server_send_and_recv serve_each new_server update send_and_recv receive send_loop
a_run = (_, refl)

run-IsTidy_example : IsTidy a_run.0 × (max_events a_run.0 ≡ 1)
run-IsTidy_example = run-IsTidy calls a_run.1

abbrev served : TcpServer
unfolding new_server
served = record new_server {
  next_pointer = 3;
  recv_sockets = 1 ∷ 2 ∷ [];
  disconnected_sockets = 2 ∷ [];
}

a_poll : (server : TcpServer) × (poll hang_up served ≡ ok server)
unfolding poll delete_each delete_socket take_events take_event accept_each served new_server
a_poll = (_, refl)

-- the disconnected socket 2 is served no more
poll_lem_example :
    let events = hang_up.epoll_wait (max_events served) in
    let listener = served.listener_socket in
    let connected = not (contains 2 served.disconnected_sockets) in
    (contains 2 a_poll.0.recv_sockets
      ≡ (contains 2 served.recv_sockets && connected) || signals listener (λ e. e.input) 2 events)
    × (contains 2 a_poll.0.send_sockets
        ≡ (contains 2 served.send_sockets && connected)
          || signals listener (λ e. e.output) 2 events)
    × (contains 2 a_poll.0.disconnected_sockets
        ≡ contains 2 served.disconnected_sockets || signals listener (λ e. e.error_or_hup) 2 events)
unfolding served new_server
poll_lem_example = poll_lem hang_up served 2 a_poll.1 (omega arith)
