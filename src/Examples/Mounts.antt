-- ===== src/Examples/Mounts.antt =====
-- Calls of the mount daemon and of NFS.
use nfs_client_simulator.Common.{
  ℕ, ◌+◌, ◌≡◌, refl, List, [], ◌∷◌, ok, aborted, ◌>>=◌, some, none, Option, ◌==◌, if◌then◌else◌,
  arith, length,
}
use nfs_client_simulator.Common.Int.{pos}
use nfs_client_simulator.GenericEnums.{
  rpc_version2, mount, program_version3, auth_sys, mountproc3_mnt, rpc_auth_error_u32, auth_badcred,
}
use nfs_client_simulator.Rpc.Reply.{done, auth_failed, reply_bytes}
use nfs_client_simulator.Context.{Context, Client}
use nfs_client_simulator.Context.Connection.{
  connect_mount_port, connect_port, connect, disconnect, open_socket, set_timeout,
}
use nfs_client_simulator.Context.Connection.Laws.{answers}
use nfs_client_simulator.Call.{World}
use nfs_client_simulator.Call.Answer.{Answer, asked, answered}
use nfs_client_simulator.Mount.{
  MountContext, make_umount_call, make_mount_context, make_mount_call, read_mount_reply,
  set_mount_path, set_mount_prot_version,
}
use nfs_client_simulator.Mount.Wire.{xdr_string, mount_message}
use nfs_client_simulator.Mount.Reply.{mount_reply}
use nfs_client_simulator.Mount.Answer.{make_mount_call-refused}
use nfs_client_simulator.Server.{
  read_record, read_call, read_auth, read_opaque, read_parms, read_path, read_word,
}
use nfs_client_simulator.Server.Exports.{make_mount_call-serve_mnt}
use nfs_client_simulator.Rpc.Call.{auth_sys_bytes}
use nfs_client_simulator.Call.Message.{request_array}
use nfs_client_simulator.Server.Requests.{request_read}
use nfs_client_simulator.Server.Sent.{Asks, mount_calls_read}
use nfs_client_simulator.Session.{remote}
use nfs_client_simulator.Examples.{quiet, open_context, open_client, memory, host, answer}

-- makeMountCall on a context that is connected to the port mapper: the socket is closed, and another one
-- is connected to the mount port.
abbrev pub context_at_mount : Context
context_at_mount = record open_context {
  port = pos 635;
  socket_fd = pos 4;
  connect_time = 7;
  disconnect_time = 7;
  timem = some 7;
}

abbrev client_at_mount : Client
client_at_mount = record {
  context = context_at_mount;
  system = record quiet { dialed = pos 635 ∷ []; closed = pos 3 ∷ [] };
}

-- The client before, whose system will answer.
abbrev before_mount : {size : ℕ} {body : List ℕ} → Answer size body → Client
before_mount a = record {
  context = open_context;
  system = answers ((asked open_client a).system) (pos 4) (pos 0) (pos 0);
}

abbrev pub some_handle : List ℕ
some_handle = 1 ∷ 2 ∷ 3 ∷ 4 ∷ []

abbrev mount_request : List ℕ
mount_request =
    mount_message (record { client = open_client; sequential = 5; self_fqdn = host }) remote
      mountproc3_mnt

abbrev mount_body : List ℕ
mount_body = reply_bytes 5 1 (done 0) (mount_reply 0 some_handle (1 ∷ []) [])

abbrev mount_answer : Answer (4 + length mount_request) mount_body
mount_answer =
    answer (4 + length mount_request) mount_body (omega arith) (omega arith) (omega arith)

abbrev mount_world : World
mount_world = record { client = before_mount mount_answer; sequential = 5; self_fqdn = host }

abbrev at_remote : MountContext
at_remote = set_mount_prot_version (set_mount_path make_mount_context remote) 3

-- A mount daemon with one export.
abbrev exported : List ℕ → Option (List ℕ × List ℕ)
exported path = if length path == length remote then some (some_handle, 1 ∷ []) else none

make_mount_call-serve_mnt_example :
    make_mount_call make_mount_context mount_world memory remote 3 auth_sys
    ≡ ok (
      record at_remote { mount_handle = some_handle },
      record mount_world {
        client =
            answered client_at_mount
              (request_array mount_request (memory.request))
              (4 + length mount_request)
              mount_body
              mount_answer;
        sequential = 7;
      },
    )
unfolding connect_mount_port connect_port connect disconnect open_socket set_timeout read_record
    read_call read_auth read_opaque read_parms read_path read_word auth_sys_bytes
    nfs_client_simulator.Rpc.Call.payload set_mount_prot_version set_mount_path make_mount_context
make_mount_call-serve_mnt_example =
    make_mount_call-serve_mnt exported make_mount_context mount_world client_at_mount (pos 0) memory
      remote 3 mount_body mount_answer refl (omega arith, refl, omega arith, (omega arith, tt))
      (omega arith) (omega arith) refl (λ e. cc) (omega arith)

-- The same server refuses the credential as a bad one.
abbrev refusal : List ℕ
refusal = reply_bytes 5 1 (auth_failed (rpc_auth_error_u32 auth_badcred)) []

abbrev refused_answer : Answer (4 + length mount_request) refusal
refused_answer = answer (4 + length mount_request) refusal (omega arith) (omega arith) (omega arith)

abbrev refused_world : World
refused_world = record { client = before_mount refused_answer; sequential = 5; self_fqdn = host }

make_mount_call-refused_example :
    make_mount_call make_mount_context refused_world memory remote 3 auth_sys ≡ aborted
unfolding connect_mount_port connect_port connect disconnect open_socket set_timeout
make_mount_call-refused_example =
    make_mount_call-refused make_mount_context refused_world client_at_mount (pos 0) memory remote 3
      1 (auth_failed (rpc_auth_error_u32 auth_badcred)) [] refused_answer (omega arith)
      (omega arith) refl (λ e. cc) (omega arith) (omega arith) (omega arith) (omega arith)
      (λ flavor e. cc)

mount_calls_read_example :
    Asks mount_world
      (asked client_at_mount mount_answer)
      memory
      (make_mount_call make_mount_context mount_world memory remote 3 auth_sys)
      (λ (payload, w'). read_mount_reply at_remote payload >>= λ m'. ok (m', w'))
      (request_read 5 rpc_version2 mount program_version3 1 6 host (xdr_string remote))
    × Asks mount_world
        (asked client_at_mount mount_answer)
        memory
        (make_umount_call make_mount_context mount_world memory remote 3 auth_sys)
        (λ (payload, w'). ok (at_remote, w'))
        (request_read 5 rpc_version2 mount program_version3 3 6 host (xdr_string remote))
    × (read_path (xdr_string remote) ≡ some remote)
unfolding connect_mount_port connect_port connect disconnect open_socket set_timeout
mount_calls_read_example =
    mount_calls_read mount_world (asked client_at_mount mount_answer) (pos 0) memory (omega arith)
      make_mount_context remote 3 refl (omega arith)
