-- ===== src/Common/TcpSocket/Tests.antt =====
-- Runs of a socket against three kernels.
use electronic_trading_ecosy.Base.{
  ℕ, zero, suc, ◌-◌, ◌≡◌, refl, false, true, [], ◌∷◌, ◌++◌, none, ok, fault, out_of_fuel, arith,
  length, update,
}
use electronic_trading_ecosy.Base.Text.{Bytes, codes, stream}
use electronic_trading_ecosy.Base.Buffer.{slice, memcpy}
use electronic_trading_ecosy.Common.TcpSocket.{
  TcpSocket, new_socket, SendReply, Kernel, RecvCallback, send_and_recv,
}
use electronic_trading_ecosy.Common.TcpSocket.Sending.{
  pending, send_each, send_each-send_and_recv, send_and_recv-stuck, send_and_recv-repeats,
}

abbrev callback : RecvCallback
callback s time = ok s

abbrev takes_all : Kernel
takes_all = record { recv = λ room. none; send = λ call bytes more. SendReply.sent (length bytes) }

abbrev refuses_all : Kernel
refuses_all = record { recv = λ room. none; send = λ call bytes more. SendReply.failed true }

abbrev takes_two_first : ℕ → Bytes → SendReply
takes_two_first zero bytes = SendReply.sent 2
takes_two_first (suc call) bytes = SendReply.sent (length bytes)

abbrev takes_part : Kernel
takes_part = record { recv = λ room. none; send = λ call bytes more. takes_two_first call bytes }

abbrev loaded : TcpSocket
unfolding memcpy
loaded = record new_socket {
  send_buffer = memcpy new_socket.send_buffer 0 (codes "abcde");
  next_send_valid_index = 5;
}

send_each-send_and_recv_example :
    (filled : TcpSocket) × (after : TcpSocket) × (send_each new_socket
        (codes "ab" ∷ codes "" ∷ codes "cd" ∷ [])
      ≡ ok filled)
    × (send_and_recv 2 takes_all callback filled
        ≡ ok (false, after, stream (codes "ab" ∷ codes "" ∷ codes "cd" ∷ [])))
    × (pending after ≡ [])
send_each-send_and_recv_example =
    send_each-send_and_recv takes_all callback new_socket (codes "ab" ∷ codes "" ∷ codes "cd" ∷ [])
      (λ room. refl) (λ call bytes more. refl) refl (omega arith)

send_and_recv-stuck_example : send_and_recv 100 refuses_all callback loaded ≡ fault out_of_fuel
unfolding loaded
send_and_recv-stuck_example =
    send_and_recv-stuck refuses_all callback loaded 100 (λ room. refl)
      (λ call bytes more. (true, refl)) (omega arith) (omega arith)

send_and_recv-repeats_example :
    (after : TcpSocket) × (send_and_recv 3 takes_part callback loaded
      ≡ ok (false, after, slice loaded.send_buffer 0 2 ++ slice loaded.send_buffer 0 (5 - 2)))
    × (pending after ≡ [])
unfolding loaded
send_and_recv-repeats_example =
    send_and_recv-repeats takes_part callback loaded 2 (λ room. refl) refl (λ bytes. refl)
      (omega arith) (omega arith)

-- of `abcde`, the kernel gets `ababc`
repeats : slice loaded.send_buffer 0 2 ++ slice loaded.send_buffer 0 (5 - 2) ≡ codes "ababc"
unfolding memcpy update
repeats = refl
