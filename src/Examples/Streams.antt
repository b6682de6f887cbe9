-- ===== src/Examples/Streams.antt =====
-- A socket whose system takes and yields bytes in pieces.
use nfs_client_simulator.Common.{
  ℕ, ◌+◌, ◌^◌, ◌≤◌, ◌≡◌, length, refl, List, [], ◌∷◌, ok, fault, blocked, some, false, arith,
  replicate,
}
use nfs_client_simulator.Common.Int.{pos, minus_one}
use nfs_client_simulator.System.{taken, send_failed, received, recv_failed, eagain}
use nfs_client_simulator.Context.{Context, Client, make_context}
use nfs_client_simulator.Context.Connection.{print_status, connect, disconnect, connect_port}
use nfs_client_simulator.Context.Connection.Laws.{answers, refuses, connect-refuses}
use nfs_client_simulator.Context.Connection.Totals.{
  IsFresh, made, called, connected, disconnected, Reachable-IsFresh,
}
use nfs_client_simulator.Context.Send.{send, send_loop, finish_send, kernel_read}
use nfs_client_simulator.Context.Send.Delivery.{Handed, send-Handed}
use nfs_client_simulator.Context.Send.Progress.{Obliges, finished, send-Obliges}
use nfs_client_simulator.Context.Send.Progress
use nfs_client_simulator.Context.Receive.{receive, recv_loop, start_receive}
use nfs_client_simulator.Context.Receive.Framing.{fed, piece, retry, waiting}
use nfs_client_simulator.Context.Receive.Records.{receive-record}
use nfs_client_simulator.Context.Receive.Failure.{
  closed, timeout, recv_loop-AllIdle, recv_loop_overrun,
}
use nfs_client_simulator.Examples.{quiet, open_context, open_client}

abbrev message : List ℕ
message = 1 ∷ 2 ∷ 3 ∷ 4 ∷ 5 ∷ []

-- Three bytes are taken, then two.
abbrev sender : Client
sender = record open_client { system = record quiet { sends = taken 3 ∷ taken 2 ∷ [] } }

abbrev sent_client : Client
sent_client = record open_client {
  context = record open_context { total_sent = 5 };
  system = record quiet { sent = message };
}

-- Three bytes are taken, and then the connection breaks.
abbrev broken : Client
broken = record open_client {
  system = record quiet { sends = taken 3 ∷ send_failed (pos 32) ∷ [] };
}

send-Handed_example :
    Handed broken
      (record open_client {
        context = record open_context { error = pos 32 };
        system = record quiet { sent = 1 ∷ 2 ∷ 3 ∷ [] };
      })
      message
      5
      minus_one
unfolding send send_loop finish_send kernel_read
send-Handed_example = send-Handed broken _ message 5 minus_one (λ e. cc) refl

-- The mark in two pieces, a timeout, and the five bytes in two pieces.
abbrev receiver : Client
receiver = record open_client {
  system = record quiet {
    options = (pos 0, pos 0) ∷ [];
    recvs =
        received (128 ∷ [])
        ∷ received (0 ∷ 0 ∷ 5 ∷ [])
        ∷ recv_failed eagain
        ∷ received (1 ∷ 2 ∷ [])
        ∷ received (3 ∷ 4 ∷ 5 ∷ [])
        ∷ [];
  };
}

receive-record_example :
    receive receiver (replicate 8 9) 0
    ≡ ok (
      pos 0,
      5,
      1 ∷ 2 ∷ 3 ∷ 4 ∷ 5 ∷ 9 ∷ 9 ∷ 9 ∷ [],
      record open_client { context = record open_context { error = pos 3; total_received = 9 } },
    )
receive-record_example =
    receive-record receiver (2 ^ 31 + 5) message (replicate 8 9) 0 [] (pos 0) [] (λ e. cc) refl refl
      (piece (128 ∷ []) (0 ∷ 0 ∷ 5 ∷ []) refl (omega arith)
        (piece (0 ∷ 0 ∷ 5 ∷ []) [] refl (omega arith) fed))
      (retry eagain refl (omega arith) (
        piece (1 ∷ 2 ∷ []) (3 ∷ 4 ∷ 5 ∷ []) refl (omega arith)
          (piece (3 ∷ 4 ∷ 5 ∷ []) [] refl (omega arith) fed)))
      (omega arith) (omega arith) (omega arith) (omega arith) (omega arith)

recv_loop-AllIdle_example :
    recv_loop
      (received [] ∷ recv_failed eagain ∷ received [] ∷ [])
      (waiting (1 ∷ []) (9 ∷ 9 ∷ 9 ∷ 9 ∷ []) 4 3 false (pos 1) 1)
    ≡ blocked
recv_loop-AllIdle_example =
    recv_loop-AllIdle (received [] ∷ recv_failed eagain ∷ received [] ∷ []) (1 ∷ [])
      (9 ∷ 9 ∷ 9 ∷ 9 ∷ []) 4 3 false (pos 1) 1 (omega arith) (omega arith)
      (closed, (timeout eagain refl, (closed, tt)))

-- Five bytes for an array of four.
recv_loop_overrun_example :
    recv_loop
      (received (128 ∷ 0 ∷ 0 ∷ 5 ∷ []) ∷ received message ∷ [])
      (start_receive (replicate 4 9) (pos 0) 0)
    ≡ fault
recv_loop_overrun_example =
    recv_loop_overrun (2 ^ 31 + 5) message (replicate 4 9) (pos 0) 0 []
      (piece (128 ∷ 0 ∷ 0 ∷ 5 ∷ []) [] refl (omega arith) fed)
      (piece message [] refl (omega arith) fed) (omega arith) (omega arith) (omega arith)
      (omega arith) (omega arith)

-- A context that was connected and disconnected.
abbrev fresh : Client
fresh = record {
  context = make_context (b'h' ∷ []) (pos 111) 9;
  system = answers quiet (pos 4) (pos 0) (pos 0);
}

abbrev connected_client : Client
connected_client = record {
  context = record (make_context (b'h' ∷ []) (pos 111) 9) {
    socket_fd = pos 4;
    connect_error = pos 0;
    connect_time = 7;
    timem = some 7;
  };
  system = record quiet { dialed = minus_one ∷ [] };
}

Reachable-IsFresh_example : IsFresh (disconnect connected_client)
unfolding make_context connect nfs_client_simulator.Context.Connection.open_socket
    nfs_client_simulator.Context.Connection.set_timeout
Reachable-IsFresh_example = Reachable-IsFresh (disconnect connected_client) (
    called connected_client (disconnect connected_client)
      (called fresh connected_client
        (made (b'h' ∷ []) (pos 111) 9 (answers quiet (pos 4) (pos 0) (pos 0)))
        (connected fresh connected_client (pos 0) refl))
      (disconnected connected_client))

-- The same socket with a kernel that answers five times.
abbrev obliging : Client
obliging = record open_client {
  system = record quiet { sends = taken 3 ∷ taken 2 ∷ taken 1 ∷ taken 1 ∷ taken 1 ∷ [] };
}

send-Obliges_example :
    (c : Client) × (send obliging message 5 ≡ ok (pos 0, c))
    × (c.sent ≡ message)
    × (5 ≤ length c.sends + 5)
send-Obliges_example =
    send-Obliges obliging message 5 (λ e. cc) (omega arith) (omega arith)
      (Progress.answers {n = 3} (omega arith) (omega arith)
        (Progress.answers {n = 2} (omega arith) (omega arith) finished))
      (omega arith)

-- setsockopt fails with the errno 22 on a new context.
connect-refuses_example :
    (c : Client) × (connect (record {
      context = make_context (b'h' ∷ []) (pos 111) 9;
      system = refuses quiet (pos 3) (pos 22);
    })
      ≡ ok (minus_one, c))
    × (c.context.socket_fd ≡ pos 3)
    × (c.context.error ≡ pos 22)
    × (connect c ≡ ok (minus_one, c))
    × (print_status c.context ≡ fault)
unfolding make_context
connect-refuses_example =
    connect-refuses (make_context (b'h' ∷ []) (pos 111) 9) quiet 3 (pos 22) refl
