-- ===== src/Examples/Sequences.antt =====
-- Calls in a row: two mounts with another authentication, on a context from its constructor, and a call that is
-- answered late.
use mathlib.Core.List.{Memᴰ}
use nfs_client_simulator.Common.{
  ℕ, ◌+◌, ◌^◌, ◌-◌, ◌≡◌, refl, List, [], ◌∷◌, ◌++◌, ok, some, arith, length,
}
use nfs_client_simulator.Common.Int.{ℤ, pos}
use nfs_client_simulator.GenericEnums.{auth_none, rpc_version2, program_version2, portmap}
use nfs_client_simulator.Xdr.Encode.{be32}
use nfs_client_simulator.Rpc.Reply.{done, reply_bytes}
use nfs_client_simulator.System.{System}
use nfs_client_simulator.Context.{Context, Client, make_context, set_mount_port}
use nfs_client_simulator.Context.Connection.{
  connect_port_mapper_port, connect_mount_port, connect_nfs_port, connect_port, connect, disconnect,
  open_socket, set_timeout,
}
use nfs_client_simulator.Context.Connection.Laws.{answers}
use nfs_client_simulator.Call.{World}
use nfs_client_simulator.Call.Message.{call_message, request_array}
use nfs_client_simulator.Call.Answer.{Answer, asked, answered}
use nfs_client_simulator.PortMapper.{get_port}
use nfs_client_simulator.PortMapper.Wire.{mapping}
use nfs_client_simulator.Mount.{
  MountContext, make_mount_context, make_mount_call, set_mount_path, set_mount_prot_version,
}
use nfs_client_simulator.Auth.{connected_only, calls_other_auth}
use nfs_client_simulator.Session.{remote, port_mapper}
use nfs_client_simulator.Runs.{Run, start, called, mount_port_told, port_asked, mounted}
use nfs_client_simulator.Runs.Sockets.{opened, Run-owned}
use nfs_client_simulator.Runs.Transactions.{Distinct, Run-Distinct}
use nfs_client_simulator.Runs.Late.{get_port-late}
use nfs_client_simulator.Runs.Zero.{Run-zero}
use nfs_client_simulator.Runs.Dated.{Run-print_status}
use nfs_client_simulator.Context.Connection.{Status, print_status}
use nfs_client_simulator.Examples.{quiet, open_context, open_client, memory, host, answer}
use nfs_client_simulator.Inode.{make_inode, nfs3dir}

abbrev system_before : System
system_before = answers (answers quiet (pos 4) (pos 0) (pos 0)) (pos 3) (pos 0) (pos 0)

abbrev fresh_world : World
fresh_world = record {
  client = record { context = make_context (b'h' ∷ []) (pos 111) 0; system = system_before };
  sequential = 4_294_967_295;
  self_fqdn = host;
}

abbrev told_world : World
told_world = record fresh_world {
  client = record fresh_world.client { context = set_mount_port fresh_world.client.context 635 };
}

-- The context on the mount port, with the descriptor `fd`.
abbrev at_mount : ℤ → ℕ → Context
at_mount fd since = record (set_mount_port fresh_world.client.context 635) {
  port = pos 635;
  socket_fd = fd;
  connect_error = pos 0;
  connect_time = 7;
  disconnect_time = since;
  timem = some 7;
}

abbrev first_mount : World
first_mount = connected_only told_world (record {
  context = at_mount (pos 3) 0;
  system = record (answers quiet (pos 4) (pos 0) (pos 0)) { dialed = pos 635 ∷ [] };
})

abbrev second_mount : World
second_mount = connected_only first_mount (record {
  context = at_mount (pos 4) 7;
  system = record quiet { dialed = pos 635 ∷ pos 635 ∷ []; closed = pos 3 ∷ [] };
})

abbrev mounted_context : MountContext
mounted_context = set_mount_prot_version (set_mount_path make_mount_context remote) 3

mount_first :
    make_mount_call make_mount_context told_world memory remote 3 auth_none
    ≡ ok (mounted_context, first_mount)
unfolding connect_port_mapper_port connect_nfs_port connect_mount_port connect_port connect
    disconnect open_socket set_timeout make_context set_mount_port
mount_first =
    (calls_other_auth auth_none told_world memory _ _ _ _ first_mount.client _ port_mapper 100_005 3
      make_mount_context remote [] (make_inode remote [] nfs3dir) (λ e. cc) refl refl refl).1

mount_second :
    make_mount_call make_mount_context first_mount memory remote 3 auth_none
    ≡ ok (mounted_context, second_mount)
unfolding connect_port_mapper_port connect_nfs_port connect_mount_port connect_port connect
    disconnect open_socket set_timeout make_context set_mount_port
mount_second =
    (calls_other_auth auth_none first_mount memory _ _ _ _ second_mount.client _ port_mapper 100_005
      3 make_mount_context remote [] (make_inode remote [] nfs3dir) (λ e. cc) refl refl refl).1

two_mounts : Run fresh_world (0 ∷ 4_294_967_295 ∷ []) second_mount
two_mounts =
    called fresh_world first_mount second_mount (4_294_967_295 ∷ []) (0 ∷ 4_294_967_295 ∷ [])
      (called fresh_world told_world first_mount [] (4_294_967_295 ∷ [])
        (mount_port_told fresh_world fresh_world [] 635 (start fresh_world))
        (mounted told_world first_mount make_mount_context mounted_context memory remote 3 auth_none
          mount_first)
        refl)
      (mounted first_mount second_mount make_mount_context mounted_context memory remote 3 auth_none
        mount_second)
      refl

Run-owned_example :
    (fds : List ℤ) × (system_before.sockets ≡ fds ++ []) × (pos 4 ∷ pos 3 ∷ [] ≡ opened fds [])
Run-owned_example =
    Run-owned (b'h' ∷ []) (pos 111) 0 fresh_world second_mount (0 ∷ 4_294_967_295 ∷ []) refl refl
      two_mounts

-- The counter wraps around between the two.
two_mounts-Distinct : Distinct (1 ∷ 0 ∷ 4_294_967_295 ∷ [])
two_mounts-Distinct =
    Run-Distinct fresh_world second_mount (0 ∷ 4_294_967_295 ∷ []) (omega arith) two_mounts

-- getPort with the transaction 5, which is answered with a reply to the call before.
abbrev late_message : List ℕ
late_message = call_message 5 rpc_version2 portmap program_version2 3 6 host (mapping 100_005 3)

abbrev late_reply : List ℕ
late_reply = reply_bytes 4 1 (done 0) (be32 635)

abbrev late_answer : Answer (4 + length late_message) late_reply
late_answer = answer (4 + length late_message) late_reply (omega arith) (omega arith) (omega arith)

abbrev late_client : Client
late_client = record open_client { system = answers quiet (pos 4) (pos 0) (pos 0) }

abbrev earlier_world : World
earlier_world = record { client = asked late_client late_answer; sequential = 4; self_fqdn = host }

abbrev late_world : World
late_world = connected_only earlier_world earlier_world.client

port_asked_before :
    get_port (record port_mapper { auth_type = auth_none }) earlier_world memory 100_005 3
    ≡ ok (2 ^ 32 - 1, late_world)
unfolding connect_port_mapper_port connect_nfs_port connect_mount_port connect_port connect
    disconnect open_socket set_timeout
port_asked_before =
    (calls_other_auth auth_none earlier_world memory _ _ _ earlier_world.client _ _ port_mapper
      100_005 3 make_mount_context remote [] (make_inode remote [] nfs3dir) (λ e. cc) refl refl
      refl).0

get_port-late_example :
    get_port port_mapper late_world memory 100_005 3
    ≡ ok (
      2 ^ 32 - 1,
      record late_world {
        client =
            answered late_client
              (request_array late_message (memory.request))
              (4 + length late_message)
              late_reply
              late_answer;
        sequential = 7;
      },
    )
unfolding connect_port_mapper_port
get_port-late_example =
    get_port-late earlier_world late_world (4 ∷ []) 4 port_mapper late_client (pos 0) memory 100_005
      3 1 (done 0) (be32 635) late_answer
      (called earlier_world earlier_world late_world [] (4 ∷ []) (start earlier_world)
        (port_asked earlier_world late_world (record port_mapper { auth_type = auth_none }) memory
          100_005 3 (2 ^ 32 - 1) port_asked_before)
        refl)
      (omega arith) (Memᴰ.head refl) refl (omega arith) refl (λ e. cc) (omega arith) (omega arith)
      (omega arith) (omega arith)

-- A context that holds descriptor 0, and a mount.
abbrev zero_client : Client
zero_client = record { context = record open_context { socket_fd = pos 0 }; system = quiet }

abbrev zero_world : World
zero_world = record { client = zero_client; sequential = 4; self_fqdn = host }

abbrev zero_mounted : World
zero_mounted =
    connected_only zero_world
      (record zero_client { context = record zero_client.context { port = pos 635 } })

mount_zero :
    make_mount_call make_mount_context zero_world memory remote 3 auth_none
    ≡ ok (mounted_context, zero_mounted)
unfolding connect_port_mapper_port connect_nfs_port connect_mount_port connect_port connect
    disconnect
mount_zero =
    (calls_other_auth auth_none zero_world memory _ _ _ _ zero_mounted.client _ port_mapper 100_005
      3 make_mount_context remote [] (make_inode remote [] nfs3dir) (λ e. cc) refl refl refl).1

Run-zero_example :
    (pos 0 ≡ pos 0) × (zero_mounted.client.dialed ≡ []) × (zero_mounted.client.closed ≡ [])
Run-zero_example =
    Run-zero zero_world zero_mounted (4 ∷ [])
      (called zero_world zero_world zero_mounted [] (4 ∷ []) (start zero_world)
        (mounted zero_world zero_mounted make_mount_context mounted_context memory remote 3
          auth_none mount_zero)
        refl)
      refl

-- The context before the first mount, with the mount port set.
abbrev before_first : Client
before_first = record {
  context = record told_world.client.context { port = pos 635 };
  system = system_before;
}

connected_first : connect before_first ≡ ok (pos 0, first_mount.client)
unfolding connect open_socket set_timeout make_context set_mount_port
connected_first = refl

Run-print_status_example :
    (status : Status) × (print_status second_mount.client.context ≡ ok status)
Run-print_status_example =
    Run-print_status before_first first_mount second_mount (0 ∷ []) connected_first (
      called first_mount first_mount second_mount [] (0 ∷ []) (start first_mount)
        (mounted first_mount second_mount make_mount_context mounted_context memory remote 3
          auth_none mount_second)
        refl)
