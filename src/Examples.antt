-- ===== src/Examples.antt =====
-- Concrete inputs of the theorems: an open and a closed context, a server that answers, and two calls.
pub mod Items
pub mod Headers
pub mod Streams
pub mod Calls
pub mod Mounts
pub mod Lookups
pub mod Run
pub mod Objects
pub mod Names
pub mod Whole
pub mod Mounting
pub mod Sequences
use nfs_client_simulator.Common.{
  ℕ, suc, ◌+◌, ◌-◌, ◌^◌, ◌<◌, ◌≡◌, refl, sym, append-nil, List, [], ◌∷◌, ◌++◌, length, none, some,
  arith, take, drop,
}
use nfs_client_simulator.Common.Int.{ℤ, pos, minus_one}
use nfs_client_simulator.GenericEnums.{auth_sys, rpc_version2, program_version2}
use nfs_client_simulator.System.{System, SendEvent, taken, RecvEvent, received, recv_failed, eagain}
use nfs_client_simulator.Context.{Context, Client}
use nfs_client_simulator.Context.Send.Delivery.{Takes, all_taken, part}
use nfs_client_simulator.Context.Receive.Framing.{Feeds, fed, piece, retry}
use nfs_client_simulator.Xdr.Encode.{be32}
use nfs_client_simulator.Call.{World, Memory}
use nfs_client_simulator.Call.Answer.{Answer}

abbrev pub quiet : System
quiet = record {
  lookups = [];
  sockets = [];
  connects = [];
  options = [];
  sends = [];
  recvs = [];
  now = 7;
  dialed = [];
  sent = [];
  closed = [];
}

abbrev pub open_context : Context
open_context = record {
  server = b'h' ∷ [];
  port = pos 111;
  port_mapper_port = pos 111;
  error = pos 0;
  connect_error = pos 0;
  return_value = pos 0;
  socket_fd = pos 3;
  total_sent = 0;
  total_received = 0;
  connect_time = 5;
  disconnect_time = 0;
  timem = some 5;
  mount_port = pos 635;
  nfs_port = pos 2049;
}

abbrev pub closed_context : Context
closed_context = record open_context { socket_fd = minus_one }

abbrev pub open_client : Client
open_client = record { context = open_context; system = quiet }

abbrev pub memory : Memory
memory = record { request = λ i. 170; credentials = λ i. 187; response = λ i. 204 }

abbrev pub host : List ℕ
host = b'm' ∷ b'e' ∷ []

-- A system that takes a request of this size in one piece, and yields the record in three, after a timeout.
abbrev pub answer :
    (size : ℕ) (body : List ℕ)
    → 0 < size
    → 0 < length body
    → length body < 2 ^ 31
    → Answer size body
answer size body some_size some_body small = record {
  send_events = taken size ∷ [];
  takes = part some_size (omega arith) all_taken;
  head_events = recv_failed eagain ∷ received (be32 (length body + 2 ^ 31)) ∷ [];
  body_events = received body ∷ [];
  mark = length body + 2 ^ 31;
  is_word = omega arith;
  marked = omega arith;
  heads =
      retry eagain refl (omega arith)
        (piece (be32 (length body + 2 ^ 31)) [] refl (omega arith) fed);
  feeds = piece body [] (sym (append-nil body)) some_body fed;
  errno = pos 0;
  later_options = [];
  later_sends = [];
  later_recvs = [];
}
