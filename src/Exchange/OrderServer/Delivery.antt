-- ===== src/Exchange/OrderServer/Delivery.antt =====
-- The loop that sends the responses on the queue, in whole.
use mathlib.Core.List.{append_assoc, append-nil}
use electronic_trading_ecosy.Base.{
  ℕ, zero, suc, ◌+◌, ◌%◌, ◌<◌, ◌≡◌, refl, sym, ap, ◌∙◌, Option, some, List, [], ◌∷◌, ◌++◌, ok,
  arith, length, All, lt→ltb, ◌==◌, same_ptr, if◌then◌else◌, update, update_self, update_other,
  Bool-cases, inl, inr,
}
use electronic_trading_ecosy.Common.LfQueue
use electronic_trading_ecosy.Common.LfQueue.{LfQueue}
use electronic_trading_ecosy.Common.LfQueue.Fifo.{
  IsValid, contents, contents-front, next-empty, length-contents,
}
use electronic_trading_ecosy.Common.Types.{u64_mod}
use electronic_trading_ecosy.Exchange.Messages.{MeClientResponse}
use electronic_trading_ecosy.Exchange.OrderServer.{
  OrderServer, Sent, seq_num, response, send_response, send_responses,
}

-- how many of the responses are for the client
abbrev pub count_for : ℕ → List MeClientResponse → ℕ
count_for c [] = 0
count_for c (r ∷ rs) = let n = count_for c rs in if r.client_id == c then n + 1 else n

module _ (sockets : ℕ → Option ℕ) (first : ℕ → ℕ) (w : ℕ) where
  -- What goes through the socket `w` for the responses `rs`, behind those in `done`: two sends of eight
  -- bytes for each response to a client of that socket, the first of them with the client's first
  -- number and as many more as the client has had responses.
  abbrev pub delivered : (done rs : List MeClientResponse) → List Sent
  delivered done [] = []
  delivered done (r ∷ rs) =
      let rest = delivered (done ++ r ∷ []) rs in
      if same_ptr (sockets r.client_id) (some w)
      then (seq_num ((first r.client_id + count_for r.client_id done) % u64_mod) 8
          ∷ response r 8
          ∷ rest)
      else rest

-- The response's client is within bounds and has a socket.
abbrev pub IsServable : OrderServer → MeClientResponse → Type 0
IsServable s r =
    (r.client_id < s.limits.max_num_clients)
    × (socket : ℕ) × (s.client_socket r.client_id ≡ some socket)

count_for-append :
    (c : ℕ) (rs qs : List MeClientResponse)
    → count_for c (rs ++ qs) ≡ count_for c rs + count_for c qs
count_for-append c [] qs = omega arith
count_for-append c (r ∷ rs) qs = ground (arith, count_for-append c rs qs)

-- the server after a response to the client of the socket
abbrev answered :
    MeClientResponse → (socket : ℕ) → LfQueue MeClientResponse → OrderServer → OrderServer
answered r socket q s = record s {
  sent =
      update s.sent socket
        (s.sent socket ++ seq_num (s.outgoing_seq_num r.client_id) 8 ∷ response r 8 ∷ []);
  client_responses = q;
  outgoing_seq_num =
      update s.outgoing_seq_num r.client_id ((s.outgoing_seq_num r.client_id + 1) % u64_mod);
}

send_response-answered :
    (r : MeClientResponse) (socket : ℕ) (q : LfQueue MeClientResponse) (s : OrderServer)
    → r.client_id < s.limits.max_num_clients
    → s.client_socket r.client_id ≡ some socket
    → LfQueue.update_read_index s.client_responses ≡ ok q
    → send_response r s ≡ ok (answered r socket q s)
unfolding send_response
send_response-answered r socket q s inside known took =
    rw (lt→ltb r.client_id s.limits.max_num_clients inside, known, took) refl

-- One response more, in each socket's list.
sent-more :
    (f : ℕ → List Sent) (socket w : ℕ) (a b : Sent) (rest : List Sent)
    → update f socket (f socket ++ a ∷ b ∷ []) w ++ rest
      ≡ f w ++ (if same_ptr (some socket) (some w) then a ∷ b ∷ rest else rest)
sent-more f socket w a b rest = elim (Bool-cases (socket == w)) [
  | inl same ↦
      let e : socket ≡ w = ground (arith, same) in
      rw same (
        rw e (
          ap (λ xs. xs ++ rest) (update_self f w (f w ++ a ∷ b ∷ []))
          ∙ append_assoc (f w) (a ∷ b ∷ []) rest))
  | inr differs ↦
      rw differs
        (ap (λ xs. xs ++ rest) (update_other f socket w _ (λ e. ground (arith, e, differs))))
]

numbers-more :
    (f first : ℕ → ℕ) (done : List MeClientResponse) (r : MeClientResponse)
    → ((c : ℕ) → f c ≡ (first c + count_for c done) % u64_mod)
    → (c : ℕ)
    → update f r.client_id ((f r.client_id + 1) % u64_mod) c
      ≡ (first c + count_for c (done ++ r ∷ [])) % u64_mod
numbers-more f first done r numbers c = elim (Bool-cases (r.client_id == c)) [
  | inl same ↦
      let e : r.client_id ≡ c = ground (arith, same) in
      let more : count_for c (done ++ r ∷ []) ≡ count_for c done + 1 =
        count_for-append c done (r ∷ []) ∙ rw same refl in
      let next : ℕ → ℕ = update f r.client_id ((f r.client_id + 1) % u64_mod) in
      rw more (
        ap next (sym e)
        ∙ update_self f r.client_id ((f r.client_id + 1) % u64_mod)
        ∙ ap (λ k. (f k + 1) % u64_mod) e
        ∙ omega (arith, numbers c))
  | inr differs ↦
      let as_many : count_for c (done ++ r ∷ []) ≡ count_for c done =
        count_for-append c done (r ∷ []) ∙ rw differs (omega arith) in
      rw as_many (update_other f r.client_id c _ (λ e. ground (arith, e, differs)) ∙ numbers c)
]

-- The server has sent the responses `rs`, behind those in `done`, since `s`, when the clients' numbers
-- were `first` before these: the sockets' lists, the numbers, the queue, and what stays.
pub record HasDelivered (first : ℕ → ℕ) (done rs : List MeClientResponse) (s s' : OrderServer)
    : Type 0 where
  pub sent : (w : ℕ) → s'.sent w ≡ s.sent w ++ delivered s.client_socket first w done rs
  pub numbers : (c : ℕ) → s'.outgoing_seq_num c ≡ (first c + count_for c (done ++ rs)) % u64_mod
  pub left : contents s'.client_responses ≡ []
  pub sockets : s'.client_socket ≡ s.client_socket
  pub sequencer : s'.sequencer ≡ s.sequencer

send_responses-delivers :
    (first : ℕ → ℕ) (rs done : List MeClientResponse) (fuel : ℕ) (s : OrderServer)
    → IsValid s.client_responses
    → contents s.client_responses ≡ rs
    → length rs < s.client_responses.capacity
    → length rs < fuel
    → All (IsServable s) rs
    → ((c : ℕ) → s.outgoing_seq_num c ≡ (first c + count_for c done) % u64_mod)
    → (s' : OrderServer) × (send_responses fuel s ≡ ok s') × HasDelivered first done rs s s'
unfolding send_responses
send_responses-delivers first rs done zero s inv holds room enough known numbers =
    absurd (omega arith)
send_responses-delivers first [] done (suc fuel) s inv holds room enough known numbers = (
  s,
  rw (next-empty s.client_responses inv holds, send_responses) refl,
  record {
    sent = λ w. sym (append-nil (s.sent w));
    numbers = λ c. rw (append-nil done) (numbers c);
    left = holds;
    sockets = refl;
    sequencer = refl;
  },
)
send_responses-delivers first (r ∷ rs) done (suc fuel) s inv holds room enough
      ((inside, socket, found), known) numbers =
    let (next, some_left, q, took, inv', rest, same) =
      contents-front s.client_responses inv r rs holds
        (omega (arith, length-contents s.client_responses, ap length holds)) in
    let s1 : OrderServer = answered r socket q s in
    let number : s.outgoing_seq_num r.client_id
        ≡ (first r.client_id + count_for r.client_id done) % u64_mod =
      numbers r.client_id in
    let (s', sends, h) =
      send_responses-delivers first rs (done ++ r ∷ []) fuel s1 inv' rest (omega arith)
        (omega arith) known (numbers-more s.outgoing_seq_num first done r numbers) in
    (
      s',
      rw (next, some_left, send_response-answered r socket q s inside found took, send_responses)
          sends,
      record {
        sent = λ w.
            h.sent w
            ∙ sent-more s.sent socket w (seq_num (s.outgoing_seq_num r.client_id) 8) (response r 8)
                (delivered s.client_socket first w (done ++ r ∷ []) rs)
            ∙ rw (found, number) refl;
        numbers = λ c.
            h.numbers c
            ∙ ap (λ l. (first c + count_for c l) % u64_mod) (append_assoc done (r ∷ []) rs);
        left = h.left;
        sockets = h.sockets;
        sequencer = h.sequencer;
      },
    )

-- With one round more than there are responses, the server sends all responses on a queue that is valid
-- and not full, where each response's client is within bounds and has a socket and no client's number
-- has left the `size_t` range: each goes to its client's socket, in the queue's order and under the
-- client's numbers one after the other, as two sends of eight bytes. The queue is empty after that,
-- each client's number has moved on by its responses, and the sockets and the sequencer stay.
pub send_responses_lem :
    (s : OrderServer)
    → IsValid s.client_responses
    → s.client_responses.store_size < s.client_responses.capacity
    → All (IsServable s) (contents s.client_responses)
    → ((c : ℕ) → s.outgoing_seq_num c < u64_mod)
    → (s' : OrderServer) × (send_responses (s.client_responses.store_size + 1) s ≡ ok s')
      × HasDelivered s.outgoing_seq_num [] (contents s.client_responses) s s'
send_responses_lem s inv room known small =
    let n = length-contents s.client_responses in
    send_responses-delivers s.outgoing_seq_num (contents s.client_responses) []
      (s.client_responses.store_size + 1) s inv refl (omega arith) (omega arith) known
      (λ c. omega (arith, small c))
