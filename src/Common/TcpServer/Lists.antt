-- ===== src/Common/TcpServer/Lists.antt =====
-- The server's lists of sockets over any run of its calls.
use mathlib.Core.Path.{subst}
use electronic_trading_ecosy.Base.{
  ℕ, ◌≡◌, refl, sym, Bool, true, false, List, [], ◌∷◌, ok, assert, >>=-eq-ok, ok-injective,
  if◌then◌else◌, ◌&&◌, ◌==◌, Bool-cases, inl, inr, update,
}
use electronic_trading_ecosy.Base.Text.{Bytes}
use electronic_trading_ecosy.Base.Pointers.{
  NoRepeats, NoRepeats-add_absent, NoRepeats-remove, remove,
}
use electronic_trading_ecosy.Common.TcpSocket.{Kernel, RecvCallback, send_and_recv}
use electronic_trading_ecosy.Common.TcpServer.{
  TcpServer, new_server, Event, Accepted, Answers, delete_each, list_if, take_event, take_events,
  accept_each, max_events, poll, serve_each, server_send_and_recv, Call, call, run,
}

-- No list holds a socket twice, and the list of all sockets is empty.
pub record IsTidy (server : TcpServer) : Type 0 where
  pub none_listed : server.sockets ≡ []
  pub recv_once : NoRepeats server.recv_sockets
  pub send_once : NoRepeats server.send_sockets
  pub disconnected_once : NoRepeats server.disconnected_sockets

delete_each-IsTidy :
    (server : TcpServer) (sockets : List ℕ) → IsTidy server → IsTidy (delete_each server sockets)
unfolding delete_each
delete_each-IsTidy server [] tidy = tidy
delete_each-IsTidy server (p ∷ more) tidy =
    let deleted : TcpServer = record server {
      sockets = remove p server.sockets;
      recv_sockets = remove p server.recv_sockets;
      send_sockets = remove p server.send_sockets;
    } in
    let tidy' : IsTidy deleted = record {
      none_listed = rw tidy.none_listed refl;
      recv_once = NoRepeats-remove p server.recv_sockets tidy.recv_once;
      send_once = NoRepeats-remove p server.send_sockets tidy.send_once;
      disconnected_once = tidy.disconnected_once;
    } in
    delete_each-IsTidy deleted more tidy'

list_if-NoRepeats : (b : Bool) (ps : List ℕ) (p : ℕ) → NoRepeats ps → NoRepeats (list_if b ps p)
list_if-NoRepeats true ps p n = NoRepeats-add_absent p ps n
list_if-NoRepeats false ps p n = n

take_event-IsTidy :
    (event : Event) (have_new : Bool) (server : TcpServer)
    → IsTidy server
    → IsTidy (take_event event (have_new, server)).1
unfolding take_event
take_event-IsTidy event have_new server tidy =
    elim (Bool-cases (event.input && event.socket == server.listener_socket)) [
      | inl listener ↦ rw listener tidy
      | inr other ↦ rw other (record {
        none_listed = tidy.none_listed;
        recv_once = list_if-NoRepeats event.input server.recv_sockets event.socket tidy.recv_once;
        send_once = list_if-NoRepeats event.output server.send_sockets event.socket tidy.send_once;
        disconnected_once =
            list_if-NoRepeats event.error_or_hup server.disconnected_sockets event.socket
              tidy.disconnected_once;
      })
    ]

take_events-IsTidy :
    (events : List Event) (have_new : Bool) (server : TcpServer)
    → IsTidy server
    → IsTidy (take_events events (have_new, server)).1
unfolding take_events
take_events-IsTidy [] have_new server tidy = tidy
take_events-IsTidy (event ∷ events) have_new server tidy =
    take_events-IsTidy events (take_event event (have_new, server)).0
      (take_event event (have_new, server)).1 (take_event-IsTidy event have_new server tidy)

accept_each-IsTidy :
    (accepted : List Accepted) (server : TcpServer) {after : TcpServer}
    → accept_each accepted server ≡ ok after
    → IsTidy server
    → IsTidy after
unfolding accept_each
accept_each-IsTidy [] server h tidy = subst IsTidy (ok-injective h) tidy
accept_each-IsTidy (a ∷ more) server h tidy =
    let (_, _, h1) = >>=-eq-ok (assert a.options_set) _ h in
    let (_, _, h2) = >>=-eq-ok (assert a.added_to_epoll) _ h1 in
    accept_each-IsTidy more _ h2 (record {
      none_listed = tidy.none_listed;
      recv_once = NoRepeats-add_absent server.next_pointer server.recv_sockets tidy.recv_once;
      send_once = tidy.send_once;
      disconnected_once = tidy.disconnected_once;
    })

poll-IsTidy :
    (os : Answers) (server : TcpServer) {after : TcpServer}
    → poll os server ≡ ok after
    → IsTidy server
    → IsTidy after
unfolding poll
poll-IsTidy os server h tidy =
    let events : List Event = os.epoll_wait (max_events server) in
    let deleted : TcpServer = delete_each server server.disconnected_sockets in
    let polled : Bool × TcpServer = take_events events (false, deleted) in
    let tidy' : IsTidy polled.1 =
      take_events-IsTidy events false deleted
        (delete_each-IsTidy server server.disconnected_sockets tidy) in
    elim (Bool-cases polled.0) [
      | inl new ↦ accept_each-IsTidy os.accepted polled.1 (rw new at h) tidy'
      | inr none_new ↦
          let same : ok polled.1 ≡ ok _ = rw none_new at h in subst IsTidy (ok-injective same) tidy'
    ]

-- the four lists of one server are those of another
abbrev SameLists : TcpServer → TcpServer → Type 0
SameLists a b =
    (a.sockets ≡ b.sockets)
    × (a.recv_sockets ≡ b.recv_sockets)
    × (a.send_sockets ≡ b.send_sockets)
    × (a.disconnected_sockets ≡ b.disconnected_sockets)

serve_each-SameLists :
    (fuel : ℕ) (kernel : ℕ → Kernel) (callback : RecvCallback) (sockets : List ℕ)
    (server : TcpServer) {q : Bool × TcpServer × List (ℕ × Bytes)}
    → serve_each fuel kernel callback sockets server ≡ ok q
    → SameLists server q.1
unfolding serve_each
serve_each-SameLists fuel kernel callback [] server {q} h =
    subst (λ q'. SameLists server q'.1) (ok-injective h) (refl, refl, refl, refl)
serve_each-SameLists fuel kernel callback (p ∷ more) server {q} h =
    let ((received, s, taken), _, h1) =
      >>=-eq-ok (send_and_recv fuel (kernel p) callback (server.store p)) _ h in
    let served : TcpServer = record server { store = update server.store p s } in
    let ((recv, after, rest), each, h2) =
      >>=-eq-ok (serve_each fuel kernel callback more served) _ h1 in
    let lists : SameLists served after =
      serve_each-SameLists fuel kernel callback more served each in
    subst (λ q'. SameLists server q'.1) (ok-injective h2) lists

SameLists-IsTidy : (a b : TcpServer) → SameLists a b → IsTidy a → IsTidy b
SameLists-IsTidy a b (all, recv, send, disconnected) tidy = record {
  none_listed = rw all at tidy.none_listed;
  recv_once = subst NoRepeats recv tidy.recv_once;
  send_once = subst NoRepeats send tidy.send_once;
  disconnected_once = subst NoRepeats disconnected tidy.disconnected_once;
}

call-IsTidy :
    (server : TcpServer) (c : Call) {after : TcpServer}
    → call server c ≡ ok after
    → IsTidy server
    → IsTidy after
unfolding call server_send_and_recv
call-IsTidy server (Call.poll_call os) h tidy = poll-IsTidy os server h tidy
call-IsTidy server (Call.serve_call fuel kernel kernel_send callback finished) h tidy =
    let (q, sent, h1) =
      >>=-eq-ok (server_send_and_recv fuel kernel kernel_send callback finished server) _ h in
    let ((recv, s1, taken), first, g1) =
      >>=-eq-ok (serve_each fuel kernel callback server.recv_sockets server) _ sent in
    let (_, _, g2) = >>=-eq-ok (if recv then finished else ok tt) _ g1 in
    let ((_, s2, taken2), second, g3) =
      >>=-eq-ok (serve_each fuel kernel_send callback s1.send_sockets s1) _ g2 in
    let tidy1 : IsTidy s1 =
      SameLists-IsTidy server s1
        (serve_each-SameLists fuel kernel callback server.recv_sockets server first) tidy in
    let tidy2 : IsTidy s2 =
      SameLists-IsTidy s1 s2
        (serve_each-SameLists fuel kernel_send callback s1.send_sockets s1 second) tidy1 in
    let last : ok s2 ≡ ok _ = rw (sym (ok-injective g3)) at h1 in
    subst IsTidy (ok-injective last) tidy2

run-keeps :
    (calls : List Call) (server : TcpServer) {after : TcpServer}
    → run server calls ≡ ok after
    → IsTidy server
    → IsTidy after
unfolding run
run-keeps [] server h tidy = subst IsTidy (ok-injective h) tidy
run-keeps (c ∷ calls) server h tidy =
    let (next, step, h1) = >>=-eq-ok (call server c) _ h in
    run-keeps calls next h1 (call-IsTidy server c step tidy)

new_server-IsTidy : IsTidy new_server
unfolding new_server
new_server-IsTidy = record {
  none_listed = refl;
  recv_once = tt;
  send_once = tt;
  disconnected_once = tt;
}

-- Over any run of polls and of rounds of sending and receiving from a new server, whatever the system
-- answers, no list of the server holds a socket twice, and `sockets` stays empty, so that each poll
-- asks for one event.
pub run-IsTidy :
    (calls : List Call) {server : TcpServer}
    → run new_server calls ≡ ok server
    → IsTidy server × (max_events server ≡ 1)
run-IsTidy calls h =
    let tidy = run-keeps calls new_server h new_server-IsTidy in (tidy, rw tidy.none_listed refl)
