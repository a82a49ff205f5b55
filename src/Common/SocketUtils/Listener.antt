-- ===== src/Common/SocketUtils/Listener.antt =====
-- What `createSocket` has done when it returns a listening TCP socket.
use mathlib.Core.Option.{some-injective}
use electronic_trading_ecosy.Base.{
  ◌≡◌, ◌⊎◌, refl, sym, ap, ◌∙◌, true, false, List, [], ◌∷◌, Option, none, some, inl, inr,
}
use electronic_trading_ecosy.Base.Int.{ℤ}
use electronic_trading_ecosy.Base.Text.{Bytes}
use electronic_trading_ecosy.Common.SocketUtils.{
  Address, History, System, is_minus_one, minus_one, open_address, open_each, returned,
  with_addresses, create_socket, address_text, hints_for, c_str, print_int,
}
use electronic_trading_ecosy.Common.TcpSocket.Connecting.{tcp_kind}
use electronic_trading_ecosy.Common.SocketUtils.Listening.{
  IsListening, resume-some, open_address-IsListening,
}

-- some address's socket that has gone through all the calls, whatever came before them
abbrev pub Listens : System → ℤ → History → Type 0
Listens os fd h' = (a : Address) × (h : History) × IsListening os a h fd h'

-- The loop returns the last socket that it opened.
open_each-Listens :
    (os : System) (ip : Bytes) (addresses : List Address) (start : ℤ) (h : History) {fd : ℤ}
    {h' : History}
    → open_each os (tcp_kind true) ip addresses start h ≡ (some fd, h')
    → ((fd ≡ start) × (h' ≡ h)) ⊎ Listens os fd h'
unfolding open_each
open_each-Listens os ip [] start h e =
    inl (some-injective _ _ (ap (λ r. r.0) (sym e)), ap (λ r. r.1) (sym e))
open_each-Listens os ip (a ∷ more) start h {fd} {h'} e =
    let (f, h1, opened, rest) =
      resume-some (open_each os (tcp_kind true) ip more) (open_address os (tcp_kind true) ip a h)
        e in
    elim (open_each-Listens os ip more f h1 rest) [
      | inl (same_fd, same_h) ↦ inr (a, h, open_address-IsListening os ip a h cc)
      | inr later ↦ inr later
    ]

true_false {ℓ} : {A : Type ℓ} → true ≡ false → A
true_false e = cc

returned-Listens :
    (os : System) (ip : Bytes) (addresses : List Address) (h : History) (r : Option ℤ × History)
    {fd : ℤ} {h' : History}
    → is_minus_one fd ≡ false
    → open_each os (tcp_kind true) ip addresses minus_one h ≡ r
    → returned r ≡ (fd, h')
    → Listens os fd h'
returned-Listens os ip addresses h (none, g) valid opened e =
    true_false (ap (λ r. is_minus_one r.0) e ∙ valid)
returned-Listens os ip addresses h (some f, g) valid opened e =
    elim (open_each-Listens os ip addresses minus_one h (opened ∙ ap (λ r. (some r.0, r.1)) e)) [
      | inl (none_opened, _) ↦ true_false (sym (ap is_minus_one none_opened) ∙ valid)
      | inr listens ↦ listens
    ]

with_addresses-Listens :
    (os : System) (ip : Bytes) (addresses : Option (List Address)) (h : History) {fd : ℤ}
    {h' : History}
    → is_minus_one fd ≡ false
    → with_addresses os (tcp_kind true) ip addresses h ≡ (fd, h')
    → Listens os fd h'
unfolding with_addresses
with_addresses-Listens os ip none h valid e = true_false (ap (λ r. is_minus_one r.0) e ∙ valid)
with_addresses-Listens os ip (some addresses) h valid e =
    returned-Listens os ip addresses h (open_each os (tcp_kind true) ip addresses minus_one h) valid
      refl e

-- When `create_socket`, asked for a listening TCP socket the way `connect` of TcpSocket asks, returns
-- another number than -1, then the last calls that it made are these, all on that socket and in this order: `socket`, its flags read and set to
-- have O_NONBLOCK where they do not, TCP_NODELAY, SO_REUSEADDR, `bind`, `listen`, SO_TIMESTAMP; and
-- neither `bind` nor `listen` has answered -1.
pub create_socket-IsListening :
    (os : System) (t_ip iface : Bytes) (port : ℤ) (h : History) {fd : ℤ} {h' : History}
    → is_minus_one fd ≡ false
    → create_socket os (tcp_kind true) t_ip iface port h ≡ (fd, h')
    → Listens os fd h'
unfolding create_socket
create_socket-IsListening os t_ip iface port h valid e =
    let ip : Bytes = address_text os t_ip iface in
    with_addresses-Listens os ip
      (os.getaddrinfo (c_str ip) (print_int port) (hints_for (tcp_kind true) ip)) h valid e
