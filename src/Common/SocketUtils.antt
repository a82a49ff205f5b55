-- ===== src/Common/SocketUtils.antt =====
-- common/socket_utils.h and socket_utils.cpp: the system calls by which a socket is made. What the
-- system answers is a parameter; the log is left out. Constants of the system's headers are names.
pub mod Creating
pub mod Listening
pub mod Listener
pub mod Config
mod Tests
use electronic_trading_ecosy.Base.{
  ℕ, ◌+◌, ◌-◌, ◌*◌, ◌/◌, ◌%◌, Bool, true, false, not, ◌&&◌, ◌||◌, List, [], ◌∷◌, ◌++◌, Option, none,
  some, leb, ◌==◌, if◌then◌else◌,
}
use electronic_trading_ecosy.Base.Int.{ℤ, pos, negsuc, ◌+ℤ◌}
use electronic_trading_ecosy.Base.Text.{Bytes, decimal}
use electronic_trading_ecosy.Base.Text.Fields.{same_text}
use electronic_trading_ecosy.Common.Logging.{print_int, c_str}

pub data Level : Type 0 where
  sol_socket ipproto_ip ipproto_tcp : Level

pub data SockOption : Type 0 where
  so_reuseaddr so_timestamp so_timestampns tcp_nodelay ip_ttl ip_multicast_ttl : SockOption

pub data SockType : Type 0 where
  sock_stream sock_dgram : SockType

pub data Protocol : Type 0 where
  tcp udp : Protocol

-- an `addrinfo` that `getaddrinfo` gives; `addr` stands for `ai_addr`
pub record Address : Type 0 where
  pub family : ℕ
  pub socktype : SockType
  pub protocol : Protocol
  pub addr : ℕ

-- `hints`; the family is `AF_INET`, and `AI_NUMERICSERV` is always set.
pub record Hints : Type 0 where
  pub socktype : SockType
  pub protocol : Protocol
  pub ai_passive : Bool
  pub ai_numerichost : Bool

-- an `ifaddrs`: whether it has an address of the family `AF_INET`, its name, and its number as text
pub record Interface : Type 0 where
  pub is_inet : Bool
  pub name : Bytes
  pub ip : Bytes

pub data SysCall : Type 0 where
  socket : Address → SysCall
  get_flags : ℤ → SysCall
  set_flags : ℤ → (flags : ℤ) → SysCall
  set_option : ℤ → Level → SockOption → (value : ℕ) → SysCall
  connect bind : ℤ → (addr : ℕ) → SysCall
  listen : ℤ → (backlog : ℕ) → SysCall
  add_membership : ℤ → (ip : Bytes) → SysCall

-- the calls made so far, the latest first
abbrev pub History : Type 0
History = List SysCall

-- The system: the results of the calls, `wouldBlock()` behind a call, and the two look-ups, with `none`
-- for a failure.
pub record System : Type 0 where
  pub reply : History → SysCall → ℤ
  pub would_block : History → Bool
  pub getaddrinfo : (ip port : Bytes) → Hints → Option (List Address)
  pub getifaddrs : Option (List Interface)

-- A computation that makes calls; `none` is a `return -1` on the way.
abbrev pub Sys {ℓ} : Type ℓ → Type ℓ
Sys A = History → Option A × History

abbrev pub pure {ℓ} : {A : Type ℓ} → A → Sys A
pure a h = (some a, h)

abbrev pub resume {ℓ κ} :
    {A : Type ℓ} {B : Type κ} → (A → Sys B) → Option A × History → Option B × History
resume rest (none, h) = (none, h)
resume rest (some a, h) = rest a h

infixl 5 ◌>>=◌ ◌>>◌
abbrev pub ◌>>=◌ {ℓ κ} : {A : Type ℓ} {B : Type κ} → Sys A → (A → Sys B) → Sys B
(m >>= rest) h = resume rest (m h)

abbrev pub ◌>>◌ {ℓ} : {B : Type ℓ} → Sys (Unit {0}) → Sys B → Sys B
m >> k = m >>= λ _. k

abbrev pub perform : System → SysCall → Sys ℤ
perform os c h = (some (os.reply h c), c ∷ h)

abbrev pub ask_would_block : System → Sys Bool
ask_would_block os h = (some (os.would_block h), h)

-- `if (failed) return -1;`
abbrev pub unless : Bool → Sys (Unit {0})
unless true h = (none, h)
unless false h = (some tt, h)

abbrev pub is_minus_one : ℤ → Bool
is_minus_one (pos n) = false
is_minus_one (negsuc n) = n == 0

abbrev pub is_one : ℤ → Bool
is_one (pos n) = n == 1
is_one (negsuc n) = false

-- `o_nonblock` is `O_NONBLOCK`, and a negative number has the bits of its complement.
abbrev pub o_nonblock : ℕ
o_nonblock = 2048

abbrev pub has_nonblock : ℤ → Bool
has_nonblock (pos n) = n / o_nonblock % 2 == 1
has_nonblock (negsuc n) = n / o_nonblock % 2 == 0

abbrev pub when : Bool → Sys (Unit {0}) → Sys (Unit {0})
when true m = m
when false m = pure tt

-- The text of `getIfaceIP`: the number of the first interface of that name with an address.
unfoldable pub interface_ip : List Interface → Bytes → Bytes
interface_ip [] iface = []
interface_ip (i ∷ more) iface =
    let rest = interface_ip more iface in if i.is_inet && same_text iface i.name then i.ip else rest

unfoldable pub get_iface_ip : System → Bytes → Bytes
unfolding interface_ip
get_iface_ip os iface = elim os.getifaddrs [
  | none ↦ []
  | some interfaces ↦ interface_ip interfaces iface
]

abbrev pub set_flags_unless : (already : Bool) → System → ℤ → (flags : ℤ) → Sys Bool
set_flags_unless true os fd flags = pure true
set_flags_unless false os fd flags = do
  rc ← perform os (SysCall.set_flags fd (flags +ℤ pos o_nonblock))
  pure (not (is_minus_one rc))

unfoldable pub set_non_blocking : System → ℤ → Sys Bool
set_non_blocking os fd = do
  flags ← perform os (SysCall.get_flags fd)
  set_flags_unless (has_nonblock flags) os fd flags

-- `setsockopt(fd, level, option, &value, …) != -1`
abbrev pub set_option_ok : System → ℤ → Level → SockOption → ℕ → Sys Bool
set_option_ok os fd level option value = do
  rc ← perform os (SysCall.set_option fd level option value)
  pure (not (is_minus_one rc))

unfoldable pub set_no_delay : System → ℤ → Sys Bool
set_no_delay os fd = set_option_ok os fd Level.ipproto_tcp SockOption.tcp_nodelay 1

unfoldable pub set_so_timestamp : System → ℤ → Sys Bool
set_so_timestamp os fd = set_option_ok os fd Level.sol_socket SockOption.so_timestamp 1

unfoldable pub set_so_timestamp_ns : System → ℤ → Sys Bool
set_so_timestamp_ns os fd = set_option_ok os fd Level.sol_socket SockOption.so_timestampns 1

-- `join`, of the group with this address
unfoldable pub join : System → ℤ → (ip : Bytes) → Sys Bool
join os fd ip = do rc ← perform os (SysCall.add_membership fd ip); pure (not (is_minus_one rc))

-- The level is the one of the source, `IPPROTO_TCP`.
unfoldable pub set_ttl : System → ℤ → (ttl : ℕ) → Sys Bool
set_ttl os fd ttl = set_option_ok os fd Level.ipproto_tcp SockOption.ip_ttl ttl

unfoldable pub set_mcast_ttl : System → ℤ → (mcast_ttl : ℕ) → Sys Bool
set_mcast_ttl os fd mcast_ttl =
    set_option_ok os fd Level.ipproto_ip SockOption.ip_multicast_ttl mcast_ttl

abbrev is_digit : ℕ → Bool
is_digit c = leb b'0' c && leb c b'9'

-- `atoi` of a text with no blank and no sign in front
abbrev pub atoi_from : ℕ → Bytes → ℕ
atoi_from n [] = n
atoi_from n (c ∷ s) = let rest = atoi_from (n * 10 + (c - b'0')) s in if is_digit c then rest else n

-- `atoi(ip) & 0xe0`, as a truth value
unfoldable pub is_multicast : Bytes → Bool
is_multicast ip = not (atoi_from 0 ip / 32 % 8 == 0)

abbrev starts_with_digit : Bytes → Bool
starts_with_digit [] = false
starts_with_digit (c ∷ s) = is_digit c

abbrev pub max_tcp_server_backlog : ℕ
max_tcp_server_backlog = 1024

-- the arguments of `createSocket` that say what kind of socket to make
pub record Kind : Type 0 where
  pub is_udp : Bool
  pub is_blocking : Bool
  pub is_listening : Bool
  pub ttl : ℕ
  pub needs_so_timestamp : Bool

unfoldable pub hints_for : Kind → Bytes → Hints
hints_for kind ip = record {
  socktype = if kind.is_udp then SockType.sock_dgram else SockType.sock_stream;
  protocol = if kind.is_udp then Protocol.udp else Protocol.tcp;
  ai_passive = kind.is_listening;
  ai_numerichost = starts_with_digit ip;
}

abbrev pub require : Sys Bool → Sys (Unit {0})
require m = do done ← m; unless (not done)

abbrev pub require_call : System → SysCall → Sys (Unit {0})
require_call os c = do rc ← perform os c; unless (is_minus_one rc)

unfoldable pub configure_mode : System → Kind → ℤ → Sys (Unit {0})
unfolding set_non_blocking set_no_delay
configure_mode os kind fd =
    when (not kind.is_blocking)
      (do require (set_non_blocking os fd); when (not kind.is_udp) (require (set_no_delay os fd)))

-- The result of `connect` is compared with 1.
unfoldable pub try_connect : System → ℤ → Address → Sys (Unit {0})
try_connect os fd a = do
  rc ← perform os (SysCall.connect fd a.addr)
  when (is_one rc) (do blocks ← ask_would_block os; unless (not blocks))

unfoldable pub set_hops : System → (ip : Bytes) → ℤ → (ttl : ℕ) → Sys (Unit {0})
unfolding set_ttl set_mcast_ttl is_multicast
set_hops os ip fd ttl =
    require (if is_multicast ip then set_mcast_ttl os fd ttl else set_ttl os fd ttl)

-- the loop's body
unfoldable pub open_address : System → Kind → (ip : Bytes) → Address → Sys ℤ
unfolding configure_mode try_connect set_hops set_so_timestamp
open_address os kind ip a = do
  fd ← perform os (SysCall.socket a)
  unless (is_minus_one fd)
  configure_mode os kind fd
  when (not kind.is_listening) (try_connect os fd a)
  when kind.is_listening
      (require_call os (SysCall.set_option fd Level.sol_socket SockOption.so_reuseaddr 1))
  when kind.is_listening (require_call os (SysCall.bind fd a.addr))
  when (not kind.is_udp && kind.is_listening)
      (require_call os (SysCall.listen fd max_tcp_server_backlog))
  when (kind.is_udp && not (kind.ttl == 0)) (set_hops os ip fd kind.ttl)
  when kind.needs_so_timestamp (require (set_so_timestamp os fd))
  pure fd

-- The loop over the addresses has no `break`.
unfoldable pub open_each : System → Kind → (ip : Bytes) → List Address → (fd : ℤ) → Sys ℤ
unfolding open_address
open_each os kind ip [] fd = pure fd
open_each os kind ip (a ∷ more) fd = do fd ← open_address os kind ip a; open_each os kind ip more fd

abbrev pub minus_one : ℤ
minus_one = negsuc 0

abbrev pub returned : Option ℤ × History → ℤ × History
returned (none, h) = (minus_one, h)
returned (some fd, h) = (fd, h)

abbrev pub address_text : System → (t_ip iface : Bytes) → Bytes
unfolding get_iface_ip
address_text os [] iface = get_iface_ip os iface
address_text os (c ∷ s) iface = c ∷ s

-- from the result of `getaddrinfo` on
unfoldable pub with_addresses :
    System → Kind → (ip : Bytes) → Option (List Address) → History → ℤ × History
unfolding open_each
with_addresses os kind ip none h = (minus_one, h)
with_addresses os kind ip (some addresses) h = returned (open_each os kind ip addresses minus_one h)

-- The descriptor or -1, and the calls behind those made before.
unfoldable pub create_socket :
    System → Kind → (t_ip iface : Bytes) → (port : ℤ) → History → ℤ × History
unfolding hints_for with_addresses address_text
create_socket os kind t_ip iface port h =
    let ip = address_text os t_ip iface in
    with_addresses os kind ip (os.getaddrinfo (c_str ip) (print_int port) (hints_for kind ip)) h

-- a descriptor, or `none` for a negative number
abbrev pub descriptor : ℤ → Option ℕ
descriptor (pos n) = some n
descriptor (negsuc n) = none
