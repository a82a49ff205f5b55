-- ===== src/Common/TcpServer/Serving.antt =====
-- Which sockets the server serves after a poll.
use electronic_trading_ecosy.Base.{
  ℕ, suc, ◌<◌, ◌≡◌, refl, sym, ap, ◌∙◌, Bool, true, false, not, ◌&&◌, ◌||◌, List, [], ◌∷◌, ok,
  arith, assert, >>=-eq-ok, ok-injective, ◌==◌, Bool-cases, inl, inr, update, some,
}
use electronic_trading_ecosy.Base.Pointers.{
  contains, contains-remove, add_absent, contains-add_absent,
}
use electronic_trading_ecosy.Common.TcpSocket.{new_socket}
use electronic_trading_ecosy.Common.TcpServer.{
  TcpServer, Event, Accepted, Answers, delete_socket, delete_each, list_if, take_event, take_events,
  accept_each, max_events, poll,
}

-- the listener's event, which says that there are connections
abbrev pub connects : (listener : ℕ) → Event → Bool
connects listener e = e.input && e.socket == listener

-- Some event other than the listener's has the bit `bit` for this socket.
abbrev pub signals : (listener : ℕ) → (bit : Event → Bool) → ℕ → List Event → Bool
signals listener bit p [] = false
signals listener bit p (e ∷ events) =
    (not (connects listener e) && bit e && p == e.socket) || signals listener bit p events

contains-list_if :
    (b : Bool) (ps : List ℕ) (p q : ℕ)
    → contains p (list_if b ps q) ≡ contains p ps || (b && p == q)
contains-list_if true ps p q = contains-add_absent p q ps
contains-list_if false ps p q = ground arith

-- what a poll may change of the lists, as far as the socket `p` is concerned
abbrev lists : ℕ → TcpServer → Bool × Bool × Bool
lists p server = (
  contains p server.recv_sockets,
  contains p server.send_sockets,
  contains p server.disconnected_sockets,
)

delete_each-lists :
    (p : ℕ) (gone : List ℕ) (server : TcpServer)
    → (contains p (delete_each server gone).recv_sockets
        ≡ contains p server.recv_sockets && not (contains p gone))
      × (contains p (delete_each server gone).send_sockets
          ≡ contains p server.send_sockets && not (contains p gone))
      × ((delete_each server gone).disconnected_sockets ≡ server.disconnected_sockets)
      × ((delete_each server gone).listener_socket ≡ server.listener_socket)
      × ((delete_each server gone).next_pointer ≡ server.next_pointer)
unfolding delete_each delete_socket
delete_each-lists p [] server = (ground arith, ground arith, refl, refl, refl)
delete_each-lists p (q ∷ gone) server =
    let deleted : TcpServer = delete_socket server q in
    let (recv, send, disconnected, listener, next) = delete_each-lists p gone deleted in
    (
      ground (arith, recv, contains-remove p q server.recv_sockets),
      ground (arith, send, contains-remove p q server.send_sockets),
      disconnected,
      listener,
      next,
    )

take_event-lists :
    (p : ℕ) (event : Event) (have_new : Bool) (server : TcpServer)
    → (contains p (take_event event (have_new, server)).1.recv_sockets
        ≡ contains p server.recv_sockets
          || (not (connects server.listener_socket event) && event.input && p == event.socket))
      × (contains p (take_event event (have_new, server)).1.send_sockets
          ≡ contains p server.send_sockets
            || (not (connects server.listener_socket event) && event.output && p == event.socket))
      × (contains p (take_event event (have_new, server)).1.disconnected_sockets
          ≡ contains p server.disconnected_sockets
            || (not (connects server.listener_socket event)
                && event.error_or_hup
                && p == event.socket))
      × ((take_event event (have_new, server)).1.listener_socket ≡ server.listener_socket)
      × ((take_event event (have_new, server)).1.next_pointer ≡ server.next_pointer)
unfolding take_event
take_event-lists p event have_new server =
    elim (Bool-cases (connects server.listener_socket event)) [
      | inl listener ↦ rw (listener) (ground arith, ground arith, ground arith, refl, refl)
      | inr other ↦ rw (other) (
        contains-list_if event.input server.recv_sockets p event.socket,
        contains-list_if event.output server.send_sockets p event.socket,
        contains-list_if event.error_or_hup server.disconnected_sockets p event.socket,
        refl,
        refl,
      )
    ]

or-join : (a c d : Bool) {b e : Bool} → b ≡ a || c → e ≡ b || d → e ≡ a || (c || d)
or-join a c d {b} {e} h k = ground (arith, h, k)

take_events-lists :
    (p : ℕ) (events : List Event) (have_new : Bool) (server : TcpServer)
    → let after = (take_events events (have_new, server)).1 in
      let listener = server.listener_socket in
      (contains p after.recv_sockets
        ≡ contains p server.recv_sockets || signals listener (λ e. e.input) p events)
      × (contains p after.send_sockets
          ≡ contains p server.send_sockets || signals listener (λ e. e.output) p events)
      × (contains p after.disconnected_sockets
          ≡ contains p server.disconnected_sockets
            || signals listener (λ e. e.error_or_hup) p events)
      × (after.next_pointer ≡ server.next_pointer)
unfolding take_events
take_events-lists p [] have_new server = (ground arith, ground arith, ground arith, refl)
take_events-lists p (event ∷ events) have_new server =
    let next : Bool × TcpServer = take_event event (have_new, server) in
    let (recv1, send1, disconnected1, listener1, pointer1) =
      take_event-lists p event have_new server in
    let (recv2, send2, disconnected2, pointer2) = take_events-lists p events next.0 next.1 in
    (
      or-join _ _ _ recv1 (rw listener1 at recv2),
      or-join _ _ _ send1 (rw listener1 at send2),
      or-join _ _ _ disconnected1 (rw listener1 at disconnected2),
      pointer2 ∙ pointer1,
    )

accept_each-lists :
    (p : ℕ) (accepted : List Accepted) (server : TcpServer) {after : TcpServer}
    → accept_each accepted server ≡ ok after
    → p < server.next_pointer
    → lists p after ≡ lists p server
unfolding accept_each
accept_each-lists p [] server h old = ap (lists p) (sym (ok-injective h))
accept_each-lists p (a ∷ more) server {after} h old =
    let (_, _, h1) = >>=-eq-ok (assert a.options_set) _ h in
    let (_, _, h2) = >>=-eq-ok (assert a.added_to_epoll) _ h1 in
    let added : TcpServer = record server {
      store = update server.store server.next_pointer (record new_socket { fd = some a.fd });
      next_pointer = suc server.next_pointer;
      recv_sockets = add_absent server.recv_sockets server.next_pointer;
    } in
    let rest : lists p after ≡ lists p added = accept_each-lists p more added h2 (omega arith) in
    let other : (p == server.next_pointer) ≡ false = ground (arith, old) in
    let kept : contains p added.recv_sockets ≡ contains p server.recv_sockets =
      contains-add_absent p server.next_pointer server.recv_sockets ∙ ground (arith, other) in
    rest
    ∙ ap (λ b. (b, contains p server.send_sockets, contains p server.disconnected_sockets)) kept

-- A poll that ends well serves, of the sockets that were there before it, those that it served and that
-- were not disconnected, and those with an event: the lists for receiving, for sending and of the
-- disconnected each get the sockets with their bit, and the last is never cleared. The events are
-- those of one `epoll_wait`, the listener's connections left aside.
pub poll_lem :
    (os : Answers) (server : TcpServer) {after : TcpServer} (p : ℕ)
    → poll os server ≡ ok after
    → p < server.next_pointer
    → let events = os.epoll_wait (max_events server) in
      let listener = server.listener_socket in
      let connected = not (contains p server.disconnected_sockets) in
      (contains p after.recv_sockets
        ≡ (contains p server.recv_sockets && connected) || signals listener (λ e. e.input) p events)
      × (contains p after.send_sockets
          ≡ (contains p server.send_sockets && connected)
            || signals listener (λ e. e.output) p events)
      × (contains p after.disconnected_sockets
          ≡ contains p server.disconnected_sockets
            || signals listener (λ e. e.error_or_hup) p events)
unfolding poll
poll_lem os server {after} p h old =
    let events : List Event = os.epoll_wait (max_events server) in
    let deleted : TcpServer = delete_each server server.disconnected_sockets in
    let polled : Bool × TcpServer = take_events events (false, deleted) in
    let (recv0, send0, disconnected0, listener0, pointer0) =
      delete_each-lists p server.disconnected_sockets server in
    let (recv1, send1, disconnected1, pointer1) = take_events-lists p events false deleted in
    let same : lists p after ≡ lists p polled.1 = elim (Bool-cases polled.0) [
      | inl new ↦ accept_each-lists p os.accepted polled.1 (rw new at h) (omega arith)
      | inr none_new ↦
          let e : ok polled.1 ≡ ok after = rw none_new at h in ap (lists p) (sym (ok-injective e))
    ] in
    (
      ap (λ l. l.0) same
          ∙ rw listener0 at recv1
          ∙ ap (◌|| signals server.listener_socket (λ e. e.input) p events) recv0,
      ap (λ l. l.1) same
          ∙ rw listener0 at send1
          ∙ ap (◌|| signals server.listener_socket (λ e. e.output) p events) send0,
      ap (λ l. l.2) same
          ∙ rw listener0 at disconnected1
          ∙ ap
              (λ ps. contains p ps || signals server.listener_socket (λ e. e.error_or_hup) p events)
              disconnected0,
    )
