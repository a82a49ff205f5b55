-- ===== src/Common/SocketUtils/Creating.antt =====
-- What `createSocket` makes of the answer to `connect`.
use electronic_trading_ecosy.Base.{
  ℕ, ◌≡◌, refl, ap, ◌∙◌, Bool, true, false, not, ◌&&◌, List, [], ◌∷◌, Option, none, some, ◌==◌,
  Bool-cases, inl, inr,
}
use electronic_trading_ecosy.Base.Int.{ℤ, pos, ◌+ℤ◌}
use electronic_trading_ecosy.Base.Text.{Bytes}
use electronic_trading_ecosy.Common.Logging.{print_int, c_str}
use electronic_trading_ecosy.Common.SocketUtils.{
  Level, SockOption, Address, Hints, SysCall, History, System, Sys, pure, ◌>>=◌, ◌>>◌, perform,
  unless, when, is_minus_one, is_one, has_nonblock, o_nonblock, resume, get_iface_ip,
  set_flags_unless, set_non_blocking, set_no_delay, set_so_timestamp, set_ttl, set_mcast_ttl,
  set_option_ok, is_multicast, Kind, require, require_call, configure_mode, try_connect, set_hops,
  open_address, open_each, address_text, with_addresses, returned, minus_one, hints_for,
  create_socket, max_tcp_server_backlog,
}

abbrev pub is_connect : SysCall → Bool
is_connect (SysCall.connect fd addr) = true
is_connect _ = false

-- Two systems that answer alike but for `connect`, which neither answers with 1.
pub record DifferInConnect (a b : System) : Type 0 where
  pub others : (h : History) (c : SysCall) → is_connect c ≡ false → a.reply h c ≡ b.reply h c
  pub connect_a :
      (h : History) (fd : ℤ) (addr : ℕ) → is_one (a.reply h (SysCall.connect fd addr)) ≡ false
  pub connect_b :
      (h : History) (fd : ℤ) (addr : ℕ) → is_one (b.reply h (SysCall.connect fd addr)) ≡ false
  pub lookup :
      (ip port : Bytes) (hints : Hints) → a.getaddrinfo ip port hints ≡ b.getaddrinfo ip port hints
  pub interfaces : a.getifaddrs ≡ b.getifaddrs

abbrev Alike {ℓ} : {A : Type ℓ} → Sys A → Sys A → Type ℓ
Alike m n = (h : History) → m h ≡ n h

resume-Alike {ℓ κ} :
    {A : Type ℓ} {B : Type κ} (rest more : A → Sys B)
    → ((x : A) → Alike (rest x) (more x))
    → (r : Option A × History) → resume rest r ≡ resume more r
resume-Alike rest more alike (none, h) = refl
resume-Alike rest more alike (some x, h) = alike x h

>>=-Alike {ℓ κ} :
    {A : Type ℓ} {B : Type κ} (m n : Sys A) (rest more : A → Sys B)
    → Alike m n
    → ((x : A) → Alike (rest x) (more x))
    → Alike (m >>= rest) (n >>= more)
>>=-Alike m n rest more same alike h =
    ap (resume rest) (same h) ∙ resume-Alike rest more alike (n h)

when-Alike : (b : Bool) (m n : Sys (Unit {0})) → Alike m n → Alike (when b m) (when b n)
when-Alike true m n same h = same h
when-Alike false m n same h = refl

-- pairs of calls, made one after the other in front of another
abbrev lefts : List (Sys (Unit {0}) × Sys (Unit {0})) → Sys ℤ → Sys ℤ
lefts [] k = k
lefts ((m, n) ∷ steps) k = m >> lefts steps k

abbrev rights : List (Sys (Unit {0}) × Sys (Unit {0})) → Sys ℤ → Sys ℤ
rights [] k = k
rights ((m, n) ∷ steps) k = n >> rights steps k

abbrev EachAlike : List (Sys (Unit {0}) × Sys (Unit {0})) → Type 0
EachAlike [] = Unit
EachAlike ((m, n) ∷ steps) = Alike m n × EachAlike steps

lefts-Alike :
    (steps : List (Sys (Unit {0}) × Sys (Unit {0}))) (k : Sys ℤ)
    → EachAlike steps
    → Alike (lefts steps k) (rights steps k)
lefts-Alike [] k same h = refl
lefts-Alike ((m, n) ∷ steps) k (first, others) h =
    >>=-Alike m n (λ _. lefts steps k) (λ _. rights steps k) first (λ _. lefts-Alike steps k others)
      h

module _ (a b : System) (differ : DifferInConnect a b) where
  perform-Alike :
      {A : Type 0} (c : SysCall) (rest : ℤ → Sys A)
      → is_connect c ≡ false
      → Alike (perform a c >>= rest) (perform b c >>= rest)
  perform-Alike c rest other h = ap (λ rc. rest rc (c ∷ h)) (differ.others h c other)

  require_call-Alike :
      (c : SysCall) → is_connect c ≡ false → Alike (require_call a c) (require_call b c)
  require_call-Alike c other = perform-Alike c (λ rc. unless (is_minus_one rc)) other

  require-Alike : (m n : Sys Bool) → Alike m n → Alike (require m) (require n)
  require-Alike m n same h = ap (resume (λ done. unless (not done))) (same h)

  set_option_ok-Alike :
      (fd : ℤ) (level : Level) (option : SockOption) (value : ℕ)
      → Alike (set_option_ok a fd level option value) (set_option_ok b fd level option value)
  set_option_ok-Alike fd level option value =
      perform-Alike (SysCall.set_option fd level option value) (λ rc. pure (not (is_minus_one rc)))
        refl

  set_flags_unless-Alike :
      (already : Bool) (fd flags : ℤ)
      → Alike (set_flags_unless already a fd flags) (set_flags_unless already b fd flags)
  set_flags_unless-Alike true fd flags h = refl
  set_flags_unless-Alike false fd flags h =
      perform-Alike (SysCall.set_flags fd (flags +ℤ pos o_nonblock))
        (λ rc. pure (not (is_minus_one rc))) refl h

  set_non_blocking-Alike : (fd : ℤ) → Alike (set_non_blocking a fd) (set_non_blocking b fd)
  unfolding set_non_blocking
  set_non_blocking-Alike fd h =
      let c : SysCall = SysCall.get_flags fd in
      set_flags_unless-Alike (has_nonblock (a.reply h c)) fd (a.reply h c) (c ∷ h)
      ∙ ap (λ flags. set_flags_unless (has_nonblock flags) b fd flags (c ∷ h))
          (differ.others h c refl)

  configure_mode-Alike :
      (kind : Kind) (fd : ℤ) → Alike (configure_mode a kind fd) (configure_mode b kind fd)
  unfolding configure_mode set_no_delay
  configure_mode-Alike kind fd =
      when-Alike (not kind.is_blocking)
        (do require (set_non_blocking a fd); when (not kind.is_udp) (require (set_no_delay a fd)))
        (do require (set_non_blocking b fd); when (not kind.is_udp) (require (set_no_delay b fd)))
        (>>=-Alike (require (set_non_blocking a fd)) (require (set_non_blocking b fd))
          (λ _. when (not kind.is_udp) (require (set_no_delay a fd)))
          (λ _. when (not kind.is_udp) (require (set_no_delay b fd)))
          (require-Alike (set_non_blocking a fd) (set_non_blocking b fd)
            (set_non_blocking-Alike fd))
          (λ _.
            when-Alike (not kind.is_udp) (require (set_no_delay a fd)) (require (set_no_delay b fd))
              (require-Alike (set_no_delay a fd) (set_no_delay b fd)
                (set_option_ok-Alike fd Level.ipproto_tcp SockOption.tcp_nodelay 1))))

  -- Neither call fails, and what it answers is dropped.
  try_connect-Alike :
      (fd : ℤ) (address : Address) → Alike (try_connect a fd address) (try_connect b fd address)
  unfolding try_connect
  try_connect-Alike fd address h =
      rw (differ.connect_a h fd address.addr, differ.connect_b h fd address.addr) refl

  set_hops-Alike :
      (ip : Bytes) (fd : ℤ) (ttl : ℕ) → Alike (set_hops a ip fd ttl) (set_hops b ip fd ttl)
  unfolding set_hops set_mcast_ttl set_ttl
  set_hops-Alike ip fd ttl h = elim (Bool-cases (is_multicast ip)) [
    | inl multicast ↦ rw multicast (
        require-Alike (set_mcast_ttl a fd ttl) (set_mcast_ttl b fd ttl)
          (set_option_ok-Alike fd Level.ipproto_ip SockOption.ip_multicast_ttl ttl) h)
    | inr unicast ↦ rw unicast (
        require-Alike (set_ttl a fd ttl) (set_ttl b fd ttl)
          (set_option_ok-Alike fd Level.ipproto_tcp SockOption.ip_ttl ttl) h)
  ]

  -- what follows `socket`, for both systems
  abbrev steps : Kind → Bytes → Address → ℤ → List (Sys (Unit {0}) × Sys (Unit {0}))
  unfolding configure_mode try_connect set_hops set_so_timestamp
  steps kind ip address fd =
      let reuse = SysCall.set_option fd Level.sol_socket SockOption.so_reuseaddr 1 in
      let bind = SysCall.bind fd address.addr in
      let listen = SysCall.listen fd max_tcp_server_backlog in
      (unless (is_minus_one fd), unless (is_minus_one fd))
      ∷ (configure_mode a kind fd, configure_mode b kind fd)
      ∷ (
        when (not kind.is_listening) (try_connect a fd address),
        when (not kind.is_listening) (try_connect b fd address),
      )
      ∷ (
        when kind.is_listening (require_call a reuse),
        when kind.is_listening (require_call b reuse),
      )
      ∷ (when kind.is_listening (require_call a bind), when kind.is_listening (require_call b bind))
      ∷ (
        when (not kind.is_udp && kind.is_listening) (require_call a listen),
        when (not kind.is_udp && kind.is_listening) (require_call b listen),
      )
      ∷ (
        when (kind.is_udp && not (kind.ttl == 0)) (set_hops a ip fd kind.ttl),
        when (kind.is_udp && not (kind.ttl == 0)) (set_hops b ip fd kind.ttl),
      )
      ∷ (
        when kind.needs_so_timestamp (require (set_so_timestamp a fd)),
        when kind.needs_so_timestamp (require (set_so_timestamp b fd)),
      )
      ∷ []

  steps-EachAlike :
      (kind : Kind) (ip : Bytes) (address : Address) (fd : ℤ) → EachAlike (steps kind ip address fd)
  unfolding steps set_so_timestamp
  steps-EachAlike kind ip address fd = (
    λ h. refl,
    (
      configure_mode-Alike kind fd,
      (
        when-Alike (not kind.is_listening) (try_connect a fd address) (try_connect b fd address)
            (try_connect-Alike fd address),
        (
          when-Alike kind.is_listening _ _ (
              require_call-Alike (SysCall.set_option fd Level.sol_socket SockOption.so_reuseaddr 1)
                refl),
          (
            when-Alike kind.is_listening _ _
                (require_call-Alike (SysCall.bind fd address.addr) refl),
            (
              when-Alike (not kind.is_udp && kind.is_listening) _ _
                  (require_call-Alike (SysCall.listen fd max_tcp_server_backlog) refl),
              (
                when-Alike (kind.is_udp && not (kind.ttl == 0)) _ _ (set_hops-Alike ip fd kind.ttl),
                (
                  when-Alike kind.needs_so_timestamp _ _ (
                      require-Alike _ _
                        (set_option_ok-Alike fd Level.sol_socket SockOption.so_timestamp 1)),
                  tt,
                ),
              ),
            ),
          ),
        ),
      ),
    ),
  )

  open_address-Alike :
      (kind : Kind) (ip : Bytes) (address : Address)
      → Alike (open_address a kind ip address) (open_address b kind ip address)
  unfolding open_address steps
  open_address-Alike kind ip address h =
      let c : SysCall = SysCall.socket address in
      lefts-Alike (steps kind ip address (a.reply h c)) (pure (a.reply h c))
        (steps-EachAlike kind ip address (a.reply h c)) (c ∷ h)
      ∙ ap (λ fd. rights (steps kind ip address fd) (pure fd) (c ∷ h)) (differ.others h c refl)

  open_each-Alike :
      (kind : Kind) (ip : Bytes) (addresses : List Address) (fd : ℤ)
      → Alike (open_each a kind ip addresses fd) (open_each b kind ip addresses fd)
  unfolding open_each
  open_each-Alike kind ip [] fd h = refl
  open_each-Alike kind ip (address ∷ more) fd h =
      >>=-Alike (open_address a kind ip address) (open_address b kind ip address)
        (open_each a kind ip more) (open_each b kind ip more) (open_address-Alike kind ip address)
        (open_each-Alike kind ip more) h

  get_iface_ip-Alike : (iface : Bytes) → get_iface_ip a iface ≡ get_iface_ip b iface
  unfolding get_iface_ip
  get_iface_ip-Alike iface = rw differ.interfaces refl

  address_text-Alike : (t_ip iface : Bytes) → address_text a t_ip iface ≡ address_text b t_ip iface
  unfolding address_text
  address_text-Alike [] iface = get_iface_ip-Alike iface
  address_text-Alike (c ∷ s) iface = refl

  with_addresses-Alike :
      (kind : Kind) (ip : Bytes) (addresses : Option (List Address)) (h : History)
      → with_addresses a kind ip addresses h ≡ with_addresses b kind ip addresses h
  unfolding with_addresses
  with_addresses-Alike kind ip none h = refl
  with_addresses-Alike kind ip (some addresses) h =
      ap returned (open_each-Alike kind ip addresses minus_one h)

  -- The outcome of `connect` has no part in what `create_socket` returns nor in the calls that it makes:
  -- two systems that answer every other call alike, neither of which answers `connect` with 1, give the
  -- same descriptor by the same calls, even where `connect` fails with -1 in one and succeeds in the
  -- other.
  pub create_socket-connect :
      (kind : Kind) (t_ip iface : Bytes) (port : ℤ) (h : History)
      → create_socket a kind t_ip iface port h ≡ create_socket b kind t_ip iface port h
  unfolding create_socket
  create_socket-connect kind t_ip iface port h =
      let ip : Bytes = address_text b t_ip iface in
      let found : Option (List Address) =
        b.getaddrinfo (c_str ip) (print_int port) (hints_for kind ip) in
      rw (address_text-Alike t_ip iface) (
        rw (differ.lookup (c_str ip) (print_int port) (hints_for kind ip))
          (with_addresses-Alike kind ip found h))
