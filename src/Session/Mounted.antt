-- ===== src/Session/Mounted.antt =====
-- The first half of the session of main.cpp against servers that answer.
use nfs_client_simulator.Common.{
  ℕ, ◌+◌, ◌%◌, ◌^◌, ◌≤◌, ◌<◌, ◌≡◌, ◌≢◌, refl, ap₂, List, [], ◌∷◌, ◌++◌, none, some, Outcome, ok,
  All, length, arith,
}
use nfs_client_simulator.Common.Int.{ℤ, minus_one, to_int32, to_u32-to_int32}
use nfs_client_simulator.GenericEnums.{
  auth_sys, rpc_version2, program_version2, portmap, mountproc3_mnt,
}
use nfs_client_simulator.Xdr.Encode.{be32}
use nfs_client_simulator.Rpc.Reply.{done, reply_bytes}
use nfs_client_simulator.Context.{Client, set_mount_port, set_nfs_port}
use nfs_client_simulator.Context.Connection.{connect_port_mapper_port, connect_mount_port}
use nfs_client_simulator.Call.{World, Memory}
use nfs_client_simulator.Call.Message.{call_message, request_array}
use nfs_client_simulator.Call.Answer.{Answer, asked, answered}
use nfs_client_simulator.PortMapper.{get_port, get_mount_port, get_nfs_port}
use nfs_client_simulator.PortMapper.Wire.{mapping, get_port-reply_bytes}
use nfs_client_simulator.Mount.{
  make_mount_context, make_mount_call, set_mount_path, set_mount_prot_version,
}
use nfs_client_simulator.Mount.Reply.{mount_reply}
use nfs_client_simulator.Mount.Wire.{mount_message}
use nfs_client_simulator.Mount.Answer.{mounted, after_mount, make_mount_call-reply_bytes}
use nfs_client_simulator.Inode.{
  Inode, nfs3dir, make_inode, strip_slash, rfind, erase_all, make_default, slash,
}
use nfs_client_simulator.FsTree.{find, add_mount_handle}
use nfs_client_simulator.Session.{remote, port_mapper, Memories, set_ports, mount_export}

-- One call: `connect` on the client of the world leaves an open socket, and a system that takes the message
-- and yields a record with the body, piece by piece.
pub record Talk (w : World) (connect : Client → Outcome (ℤ × Client)) (message body : List ℕ)
    : Type 0 where
  pub client : Client
  pub answer : Answer (4 + length message) body
  pub result : ℤ
  pub connected : connect w.client ≡ ok (result, asked client answer)
  pub has_socket : client.context.socket_fd ≢ minus_one
  pub small : length body ≤ 1024
  pub counted : client.context.total_received < 2 ^ 64

-- A reply of the port mapper, and one of the mount daemon. `post` stands behind the results.
pub record PortReply : Type 0 where
  pub flavor : ℕ
  pub message_type : ℕ
  pub port : ℕ
  pub post : List ℕ
  pub flavor_fits : flavor < 2 ^ 32
  pub type_fits : message_type < 2 ^ 32
  pub port_fits : port < 2 ^ 32

pub record MountReply : Type 0 where
  pub flavor : ℕ
  pub message_type : ℕ
  pub handle : List ℕ
  pub auths : List ℕ
  pub post : List ℕ
  pub flavor_fits : flavor < 2 ^ 32
  pub type_fits : message_type < 2 ^ 32
  pub handle_fits : length handle ≤ 64
  pub few : length auths ≤ 200
  pub auths_fit : All (λ v. v < 2 ^ 32) auths

-- The message that asks for the port of a program, the reply to it, and the talk.
abbrev pub port_message : World → ℕ → List ℕ
port_message w program =
    call_message (w.sequential % 2 ^ 32) rpc_version2 portmap program_version2 3
      ((w.sequential + 1) % 2 ^ 64 % 2 ^ 32) w.self_fqdn (mapping program 3)

abbrev pub port_body : World → PortReply → List ℕ
port_body w p =
    reply_bytes (w.sequential % 2 ^ 32) p.message_type (done p.flavor) (be32 p.port ++ p.post)

abbrev pub PortTalk : World → ℕ → PortReply → Type 0
PortTalk w program p = Talk w connect_port_mapper_port (port_message w program) (port_body w p)

abbrev pub after_port :
    (w : World) (memory : Memory) (program : ℕ) (p : PortReply) → PortTalk w program p → World
after_port w memory program p t = record w {
  client =
      answered t.client (request_array (port_message w program) memory.request)
        (4 + length (port_message w program)) (port_body w p) t.answer;
  sequential = ((w.sequential + 1) % 2 ^ 64 + 1) % 2 ^ 64;
}

-- The same for the mount.
abbrev pub mount_body : World → MountReply → List ℕ
mount_body w q =
    reply_bytes (w.sequential % 2 ^ 32) q.message_type (done q.flavor)
      (mount_reply 0 q.handle q.auths q.post)

abbrev pub MountTalk : World → MountReply → Type 0
MountTalk w q = Talk w connect_mount_port (mount_message w remote mountproc3_mnt) (mount_body w q)

-- get_port within getMountPort and getNfsPort.
port_answered :
    (w : World) (memory : Memory) (program : ℕ) (p : PortReply) (t : PortTalk w program p)
    → length w.self_fqdn ≤ 255
    → get_port port_mapper w memory program 3 ≡ ok (p.port, after_port w memory program p t)
port_answered w memory program p t short =
    get_port-reply_bytes port_mapper w t.client t.result memory program 3 p.flavor p.port
      p.message_type p.post t.answer refl short t.connected t.has_socket t.small t.counted
      p.flavor_fits p.port_fits p.type_fits

mount_answered :
    (w : World) (memory : Memory) (q : MountReply) (t : MountTalk w q)
    → length w.self_fqdn ≤ 255
    → make_mount_call make_mount_context w memory remote 3 auth_sys
      ≡ ok (
        mounted make_mount_context remote 3 0 q.handle,
        after_mount w t.client memory remote q.message_type
            (done q.flavor)
            (mount_reply 0 q.handle q.auths q.post)
            t.answer,
      )
mount_answered w memory q t short =
    make_mount_call-reply_bytes make_mount_context w t.client t.result memory remote 3 q.flavor
      q.message_type 0 q.handle q.auths q.post t.answer short (omega arith) t.connected t.has_socket
      t.small t.counted q.flavor_fits q.type_fits (omega arith) q.handle_fits q.few q.auths_fit

-- The world whose context has these two ports.
abbrev pub with_ports : World → ℕ → ℕ → World
with_ports w mount_port nfs_port = record w {
  client = record {
    context = record (w.client.context) {
      mount_port = to_int32 mount_port;
      nfs_port = to_int32 nfs_port;
    };
    system = w.client.system;
  };
}

set_ports-with_ports :
    (w : World) (p q : ℕ)
    → p < 2 ^ 32
    → q < 2 ^ 32
    → set_ports w (to_int32 p) (to_int32 q) ≡ with_ports w p q
unfolding set_ports set_mount_port set_nfs_port
set_ports-with_ports w p q h k = ap₂ (with_ports w) (to_u32-to_int32 p h) (to_u32-to_int32 q k)

-- The root of the export: a directory "/" with all permissions for reading, writing and running, and no handle.
abbrev pub root_directory : Inode
root_directory = record {
  type = nfs3dir;
  perms = 511;
  parent_name = remote;
  self = slash ∷ [];
  self_dir = some (remote ++ slash ∷ []);
  self_handle = none;
}

root_entered : (handle : List ℕ) → add_mount_handle [] remote handle ≡ (remote, root_directory) ∷ []
unfolding add_mount_handle find make_inode strip_slash rfind erase_all make_default
root_entered handle = refl

-- The session of main up to the mounted export, if the port mapper answers both questions, the second one on
-- the connection of the first, and the mount daemon, on the connection to the port that the first answer named,
-- answers with the status 0: the context holds the handle of its reply, and the tree has exactly one entry, under
-- the name of the export: a directory that has no handle. In each call the request is taken, and the reply arrives,
-- in pieces of any size. The name of the host has at most 255 bytes.
pub mount_export-Talk :
    (w : World) (m : Memories) (p₁ p₂ : PortReply) (q : MountReply) (t₁ : PortTalk w 100_005 p₁)
    → let w₁ = after_port w m.for_mount_port 100_005 p₁ t₁ in
      (t₂ : PortTalk w₁ 100_003 p₂)
      → let w₃ = with_ports (after_port w₁ m.for_nfs_port 100_003 p₂ t₂) p₁.port p₂.port in
        (t₃ : MountTalk w₃ q)
        → length w.self_fqdn ≤ 255
        → mount_export w m
          ≡ ok (
            mounted make_mount_context remote 3 0 q.handle,
            (remote, root_directory) ∷ [],
            after_mount w₃ t₃.client m.for_mount remote q.message_type
                (done q.flavor)
                (mount_reply 0 q.handle q.auths q.post)
                t₃.answer,
          )
unfolding mount_export get_mount_port get_nfs_port set_mount_path set_mount_prot_version
    make_mount_context
mount_export-Talk w m p₁ p₂ q t₁ t₂ t₃ short =
    let w₁ = after_port w m.for_mount_port 100_005 p₁ t₁ in
    let w₂ = after_port w₁ m.for_nfs_port 100_003 p₂ t₂ in
    rw
      (
        port_answered w m.for_mount_port 100_005 p₁ t₁ short,
        port_answered w₁ m.for_nfs_port 100_003 p₂ t₂ short,
        set_ports-with_ports w₂ p₁.port p₂.port p₁.port_fits p₂.port_fits,
        mount_answered (with_ports w₂ p₁.port p₂.port) m.for_mount q t₃ short,
        root_entered q.handle,
      )
      refl
