-- ===== src/Examples/Mounting.antt =====
-- The session up to the mounted export.
use nfs_client_simulator.Common.{
  ℕ, ◌+◌, ◌^◌, ◌≡◌, ◌<◌, refl, List, [], ◌∷◌, ◌++◌, some, ok, arith, length,
}
use nfs_client_simulator.Common.Int.{ℤ, pos}
use nfs_client_simulator.GenericEnums.{mountproc3_mnt}
use nfs_client_simulator.System.{System, SendEvent, RecvEvent}
use nfs_client_simulator.Rpc.Reply.{done}
use nfs_client_simulator.Context.{Context, Client, make_context, set_mount_port, set_nfs_port}
use nfs_client_simulator.Context.Connection.{
  connect_port_mapper_port, connect_mount_port, connect_port, connect, disconnect, open_socket,
  set_timeout,
}
use nfs_client_simulator.Call.{World}
use nfs_client_simulator.Call.Answer.{Answer}
use nfs_client_simulator.Mount.{make_mount_context}
use nfs_client_simulator.Mount.Reply.{mount_reply}
use nfs_client_simulator.Mount.Wire.{mount_message}
use nfs_client_simulator.Mount.Answer.{mounted, after_mount}
use nfs_client_simulator.Session.{remote, Memories, mount_export, set_ports}
use nfs_client_simulator.Session.Mounted.{
  PortReply, MountReply, port_message, port_body, PortTalk, after_port, mount_body, MountTalk,
  mount_export-Talk, with_ports, root_directory,
}
use nfs_client_simulator.Examples.{quiet, memory, host, answer}

abbrev memories : Memories
memories = record {
  for_mount_port = memory;
  for_nfs_port = memory;
  for_mount = memory;
  for_lookup = memory;
  for_umount = memory;
}

-- The port mapper answers 635 and 2049, and the mount daemon gives a handle.
abbrev mount_port : PortReply
mount_port = record {
  flavor = 0;
  message_type = 1;
  port = 635;
  post = [];
  flavor_fits = omega arith;
  type_fits = omega arith;
  port_fits = omega arith;
}

abbrev nfs_port : PortReply
nfs_port = record {
  flavor = 0;
  message_type = 1;
  port = 2049;
  post = [];
  flavor_fits = omega arith;
  type_fits = omega arith;
  port_fits = omega arith;
}

abbrev mount_answer : MountReply
mount_answer = record {
  flavor = 0;
  message_type = 1;
  handle = 1 ∷ 2 ∷ 3 ∷ 4 ∷ [];
  auths = 1 ∷ [];
  post = [];
  flavor_fits = omega arith;
  type_fits = omega arith;
  handle_fits = omega arith;
  few = omega arith;
  auths_fit = (omega arith, tt);
}

-- An answer with what the system yields later.
abbrev answer_then :
    (size : ℕ) (body : List ℕ)
    → 0 < size
    → 0 < length body
    → length body < 2 ^ 31
    → List (ℤ × ℤ)
    → List SendEvent
    → List RecvEvent
    → Answer size body
answer_then size body h k l options sends recvs = record (answer size body h k l) {
  later_options = options;
  later_sends = sends;
  later_recvs = recvs;
}

-- The context, and a world with a system that answers all three calls.
abbrev context : Context
context = make_context (b'h' ∷ []) (pos 111) 9

abbrev world : System → World
world s = record {
  client = record { context = context; system = s };
  sequential = 5;
  self_fqdn = host;
}

-- From the last answer to the first. The mount message does not depend on the client.
abbrev last_world : World
last_world = record (world quiet) { sequential = 9 }

abbrev third :
    Answer
      (4 + length (mount_message last_world remote mountproc3_mnt))
      (mount_body last_world mount_answer)
third = answer _ _ (omega arith) (omega arith) (omega arith)

abbrev success : ℤ × ℤ
success = (pos 0, pos 0)

abbrev second_world : World
second_world = record (world quiet) { sequential = 7 }

abbrev second :
    Answer (4 + length (port_message second_world 100_003)) (port_body second_world nfs_port)
second =
    answer_then _ _ (omega arith) (omega arith) (omega arith) (success ∷ success ∷ [])
      third.send_events (third.head_events ++ third.body_events)

abbrev first :
    Answer (4 + length (port_message (world quiet) 100_005)) (port_body (world quiet) mount_port)
first =
    answer_then _ _ (omega arith) (omega arith) (omega arith) (success ∷ success ∷ success ∷ [])
      (second.send_events ++ second.later_sends)
      (second.head_events ++ (second.body_events ++ second.later_recvs))

abbrev start : World
start = world (record quiet {
  lookups = pos 0 ∷ pos 0 ∷ [];
  sockets = pos 3 ∷ pos 4 ∷ [];
  connects = pos 0 ∷ pos 0 ∷ [];
  options = success ∷ success ∷ first.later_options;
  sends = first.send_events ++ first.later_sends;
  recvs = first.head_events ++ (first.body_events ++ first.later_recvs);
})

abbrev at_port_mapper : Client
at_port_mapper = record {
  context = record context {
    port = pos 111;
    socket_fd = pos 3;
    error = pos 0;
    connect_error = pos 0;
    connect_time = 7;
    timem = some 7;
  };
  system = record quiet {
    lookups = pos 0 ∷ [];
    sockets = pos 4 ∷ [];
    connects = pos 0 ∷ [];
    dialed = pos 111 ∷ [];
  };
}

talk₁ : PortTalk start 100_005 mount_port
unfolding make_context connect_port_mapper_port connect_port connect disconnect open_socket
    set_timeout
talk₁ = record {
  client = at_port_mapper;
  answer = first;
  result = pos 0;
  connected = refl;
  has_socket = λ e. cc;
  small = omega arith;
  counted = omega arith;
}

abbrev world₁ : World
world₁ = after_port start memory 100_005 mount_port talk₁

talk₂ : PortTalk world₁ 100_003 nfs_port
unfolding talk₁ make_context connect_port_mapper_port connect_port connect disconnect open_socket
    set_timeout
talk₂ = record {
  client = world₁.client;
  answer = second;
  result = pos 0;
  connected = refl;
  has_socket = λ e. cc;
  small = omega arith;
  counted = omega arith;
}

abbrev world₃ : World
world₃ = with_ports (after_port world₁ memory 100_003 nfs_port talk₂) 635 2049

abbrev at_mount : Client
at_mount = record {
  context = record (world₃.client.context) {
    port = pos 635;
    socket_fd = pos 4;
    error = pos 0;
    connect_error = pos 0;
    total_sent = 0;
    total_received = 0;
    connect_time = 7;
    disconnect_time = 7;
    timem = some 7;
  };
  system = record (world₃.client.system) {
    lookups = [];
    sockets = [];
    connects = [];
    dialed = pos 635 ∷ pos 111 ∷ [];
    closed = pos 3 ∷ [];
  };
}

talk₃ : MountTalk world₃ mount_answer
unfolding talk₁ talk₂ set_ports set_mount_port set_nfs_port make_context connect_mount_port
    connect_port connect disconnect open_socket set_timeout
talk₃ = record {
  client = at_mount;
  answer = third;
  result = pos 0;
  connected = refl;
  has_socket = λ e. cc;
  small = omega arith;
  counted = omega arith;
}

mount_export-Talk_example :
    mount_export start memories
    ≡ ok (
      mounted make_mount_context remote 3 0 (1 ∷ 2 ∷ 3 ∷ 4 ∷ []),
      (remote, root_directory) ∷ [],
      after_mount world₃ talk₃.client memory remote 1
          (done 0)
          (mount_reply 0 (1 ∷ 2 ∷ 3 ∷ 4 ∷ []) (1 ∷ []) [])
          talk₃.answer,
    )
mount_export-Talk_example =
    mount_export-Talk start memories mount_port nfs_port mount_answer talk₁ talk₂ talk₃
      (omega arith)
