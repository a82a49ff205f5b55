-- ===== src/Common/SocketUtils/Listening.antt =====
-- What a listening TCP socket has gone through when `createSocket` returns it.
use mathlib.Core.Path.{subst}
use mathlib.Core.Option.{some-injective}
use electronic_trading_ecosy.Base.{
  ℕ, ◌≡◌, ◌⊎◌, refl, sym, ap, ◌∙◌, Bool, true, false, not, ◌∷◌, Option, none, some, Bool-cases, inl,
  inr,
}
use electronic_trading_ecosy.Base.Int.{ℤ, pos, ◌+ℤ◌}
use electronic_trading_ecosy.Base.Text.{Bytes}
use electronic_trading_ecosy.Common.SocketUtils.{
  Level, SockOption, Address, SysCall, History, System, Sys, resume, unless, is_minus_one,
  has_nonblock, o_nonblock, set_non_blocking, set_no_delay, set_so_timestamp, set_option_ok,
  require, require_call, configure_mode, open_address, max_tcp_server_backlog,
}
use electronic_trading_ecosy.Common.TcpSocket.Connecting.{tcp_kind}

-- What a computation that came to a value had before it.
pub resume-some {ℓ κ} :
    {A : Type ℓ} {B : Type κ} (rest : A → Sys B) (r : Option A × History) {x : B} {h' : History}
    → resume rest r ≡ (some x, h')
    → (a : A) × (h1 : History) × (r ≡ (some a, h1)) × (rest a h1 ≡ (some x, h'))
resume-some rest (none, h1) e = cc
resume-some rest (some a, h1) e = (a, h1, refl, e)

unless-some :
    (b : Bool) (h : History) {u : Unit {0}} {h' : History}
    → unless b h ≡ (some u, h')
    → (b ≡ false) × (h' ≡ h)
unless-some true h e = cc
unless-some false h e = (refl, sym (ap (λ r. r.1) e))

require_call-some :
    (os : System) (c : SysCall) (h : History) {u : Unit {0}} {h' : History}
    → require_call os c h ≡ (some u, h')
    → (is_minus_one (os.reply h c) ≡ false) × (h' ≡ c ∷ h)
require_call-some os c h e = unless-some (is_minus_one (os.reply h c)) (c ∷ h) e

require_option-some :
    (os : System) (fd : ℤ) (level : Level) (option : SockOption) (value : ℕ) (h : History)
    {u : Unit {0}} {h' : History}
    → require (set_option_ok os fd level option value) h ≡ (some u, h')
    → h' ≡ SysCall.set_option fd level option value ∷ h
require_option-some os fd level option value h e =
    (unless-some (not (not (is_minus_one (os.reply h (SysCall.set_option fd level option value)))))
      (SysCall.set_option fd level option value ∷ h) e).1

-- the calls of `setNonBlocking`: the flags have O_NONBLOCK, or are set with it added
abbrev pub FlagCalls : System → ℤ → History → History → Type 0
FlagCalls os fd h h' =
    let get : SysCall = SysCall.get_flags fd in
    let flags : ℤ = os.reply h get in
    ((has_nonblock flags ≡ true) × (h' ≡ get ∷ h))
    ⊎ ((has_nonblock flags ≡ false)
        × (h' ≡ SysCall.set_flags fd (flags +ℤ pos o_nonblock) ∷ get ∷ h))

require_non_blocking-some :
    (os : System) (fd : ℤ) (h : History) {u : Unit {0}} {h' : History}
    → require (set_non_blocking os fd) h ≡ (some u, h')
    → FlagCalls os fd h h'
unfolding set_non_blocking
require_non_blocking-some os fd h {u} {h'} e =
    let c : SysCall = SysCall.get_flags fd in
    let flags : ℤ = os.reply h c in
    let set : SysCall = SysCall.set_flags fd (flags +ℤ pos o_nonblock) in
    elim (Bool-cases (has_nonblock flags)) [
      | inl already ↦ inl (already, (unless-some false (c ∷ h) (rw already at e)).1)
      | inr not_yet ↦ inr (
        not_yet,
        (unless-some (not (not (is_minus_one (os.reply (c ∷ h) set)))) (set ∷ c ∷ h)
            (rw not_yet at e)).1,
      )
    ]

configure_mode-some :
    (os : System) (fd : ℤ) (h : History) {u : Unit {0}} {h' : History}
    → configure_mode os (tcp_kind true) fd h ≡ (some u, h')
    → (h1 : History) × FlagCalls os fd h h1
      × (h' ≡ SysCall.set_option fd Level.ipproto_tcp SockOption.tcp_nodelay 1 ∷ h1)
unfolding configure_mode set_no_delay
configure_mode-some os fd h e =
    let (_, h1, flags, e1) = resume-some _ (require (set_non_blocking os fd) h) e in
    (
      h1,
      require_non_blocking-some os fd h flags,
      require_option-some os fd Level.ipproto_tcp SockOption.tcp_nodelay 1 h1 e1,
    )

-- A socket that has gone through the calls of a listening socket: behind the calls `h`, the descriptor
-- `fd` came from `socket`, then its flags and options were set, it was bound to its address, and it
-- listened; neither it nor the answers to `bind` and `listen` are -1.
pub record IsListening (os : System) (a : Address) (h : History) (fd : ℤ) (h' : History)
    : Type 0 where
  pub flagged : History
  pub flag_calls : FlagCalls os fd (SysCall.socket a ∷ h) flagged
  pub optioned : History
  pub options :
      optioned
      ≡ SysCall.set_option fd Level.sol_socket SockOption.so_reuseaddr 1
        ∷ SysCall.set_option fd Level.ipproto_tcp SockOption.tcp_nodelay 1
        ∷ flagged
  pub calls :
      h'
      ≡ SysCall.set_option fd Level.sol_socket SockOption.so_timestamp 1
        ∷ SysCall.listen fd max_tcp_server_backlog
        ∷ SysCall.bind fd a.addr
        ∷ optioned
  pub valid : is_minus_one fd ≡ false
  pub bound : is_minus_one (os.reply optioned (SysCall.bind fd a.addr)) ≡ false
  pub listens :
      is_minus_one
        (os.reply (SysCall.bind fd a.addr ∷ optioned) (SysCall.listen fd max_tcp_server_backlog))
      ≡ false

-- the calls one by one, put together
assemble :
    (os : System) (a : Address) (h : History) (f fd : ℤ) (g1 h1 g2 g3 g4 g5 g6 h' : History)
    → is_minus_one f ≡ false
    → g1 ≡ SysCall.socket a ∷ h
    → FlagCalls os f g1 h1
    → g2 ≡ SysCall.set_option f Level.ipproto_tcp SockOption.tcp_nodelay 1 ∷ h1
    → g3 ≡ SysCall.set_option f Level.sol_socket SockOption.so_reuseaddr 1 ∷ g2
    → is_minus_one (os.reply g3 (SysCall.bind f a.addr)) ≡ false
    → g4 ≡ SysCall.bind f a.addr ∷ g3
    → is_minus_one (os.reply g4 (SysCall.listen f max_tcp_server_backlog)) ≡ false
    → g5 ≡ SysCall.listen f max_tcp_server_backlog ∷ g4
    → g6 ≡ SysCall.set_option f Level.sol_socket SockOption.so_timestamp 1 ∷ g5
    → ◌≡◌ {A = Option ℤ × History} (some f, g6) (some fd, h')
    → IsListening os a h fd h'
assemble os a h f fd g1 h1 g2 g3 g4 g5 g6 h' valid e1 flags e2 e3 bound e4 listens e5 e6 last =
    let stamp : SysCall = SysCall.set_option f Level.sol_socket SockOption.so_timestamp 1 in
    let listen : SysCall = SysCall.listen f max_tcp_server_backlog in
    let reuse : SysCall = SysCall.set_option f Level.sol_socket SockOption.so_reuseaddr 1 in
    let same_fd : f ≡ fd = some-injective _ _ (ap (λ r. r.0) last) in
    let same_h : g6 ≡ h' = ap (λ r. r.1) last in
    let here : IsListening os a h f g6 = record {
      flagged = h1;
      flag_calls = subst (λ g. FlagCalls os f g h1) e1 flags;
      optioned = g3;
      options = e3 ∙ ap (reuse ∷◌) e2;
      calls = e6 ∙ ap (stamp ∷◌) (e5 ∙ ap (listen ∷◌) e4);
      valid = valid;
      bound = bound;
      listens = subst (λ g. is_minus_one (os.reply g listen) ≡ false) e4 listens;
    } in
    subst (λ d. IsListening os a h d h') same_fd (subst (IsListening os a h f) same_h here)

-- What the loop's body made of a listening TCP socket that it came to its end with.
pub open_address-IsListening :
    (os : System) (ip : Bytes) (a : Address) (h : History) {fd : ℤ} {h' : History}
    → open_address os (tcp_kind true) ip a h ≡ (some fd, h')
    → IsListening os a h fd h'
unfolding open_address set_so_timestamp
open_address-IsListening os ip a h {fd} {h'} e =
    let s : SysCall = SysCall.socket a in
    let f : ℤ = os.reply h s in
    let (_, g1, made, e1) = resume-some _ (unless (is_minus_one f) (s ∷ h)) e in
    let (valid, same1) = unless-some (is_minus_one f) (s ∷ h) made in
    let (_, g2, mode, e2) = resume-some _ (configure_mode os (tcp_kind true) f g1) e1 in
    let (h1, flags, same2) = configure_mode-some os f g1 mode in
    let reuse : SysCall = SysCall.set_option f Level.sol_socket SockOption.so_reuseaddr 1 in
    let (_, g3, reused, e3) = resume-some _ (require_call os reuse g2) e2 in
    let (_, same3) = require_call-some os reuse g2 reused in
    let bind : SysCall = SysCall.bind f a.addr in
    let (_, g4, bound, e4) = resume-some _ (require_call os bind g3) e3 in
    let (bind_ok, same4) = require_call-some os bind g3 bound in
    let listen : SysCall = SysCall.listen f max_tcp_server_backlog in
    let (_, g5, listens, e5) = resume-some _ (require_call os listen g4) e4 in
    let (listen_ok, same5) = require_call-some os listen g4 listens in
    let (_, g6, stamped, e6) =
      resume-some _ (require (set_option_ok os f Level.sol_socket SockOption.so_timestamp 1) g5)
        e5 in
    let same6 = require_option-some os f Level.sol_socket SockOption.so_timestamp 1 g5 stamped in
    assemble os a h f fd g1 h1 g2 g3 g4 g5 g6 h' valid same1 flags same2 same3 bind_ok same4
      listen_ok same5 same6 e6
