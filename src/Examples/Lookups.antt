-- ===== src/Examples/Lookups.antt =====
-- Lookups, and what holds of every call.
use nfs_client_simulator.Common.{
  replicate, fault, ℕ, ◌≡◌, refl, List, [], ◌∷◌, ok, none, some, ◌-◌, ◌^◌, arith,
}
use nfs_client_simulator.Common.Int.{pos}
use nfs_client_simulator.GenericEnums.{auth_sys, auth_none, mountproc3_mnt}
use nfs_client_simulator.Context.{Client}
use nfs_client_simulator.Context.Connection.{
  connect_port_mapper_port, connect_mount_port, connect_nfs_port, connect_port, connect, disconnect,
  open_socket, set_timeout,
}
use nfs_client_simulator.Context.Connection.Laws.{answers}
use nfs_client_simulator.Call.{World}
use nfs_client_simulator.Mount.{
  make_mount_context, make_mount_call, make_umount_call, set_mount_path, set_mount_prot_version,
}
use nfs_client_simulator.Inode.{Inode, lookup, nfs3dir}
use nfs_client_simulator.Overrun.{calls_overrun}
use nfs_client_simulator.Mount.Wire.{length-mount_message}
use nfs_client_simulator.Inode.Lookup.{length-lookup_message}
use nfs_client_simulator.PortMapper.{get_port}
use nfs_client_simulator.Auth.{connected_only, calls_other_auth}
use nfs_client_simulator.Session.{remote, port_mapper}
use nfs_client_simulator.Examples.{quiet, open_context, memory, host}
use nfs_client_simulator.Examples.Mounts.{context_at_mount}

-- A handle whose length is no multiple of four.
abbrev odd_handle : List ℕ
odd_handle = 1 ∷ 2 ∷ 3 ∷ []

-- A directory with a handle.
abbrev directory : Inode
directory = record {
  type = nfs3dir;
  perms = 511;
  parent_name = remote;
  self = b'/' ∷ [];
  self_dir = some remote;
  self_handle = some odd_handle;
}

abbrev client_at_nfs : Client
client_at_nfs = record {
  context = record context_at_mount { port = pos 2049 };
  system = record quiet { dialed = pos 2049 ∷ []; closed = pos 3 ∷ [] };
}

abbrev nfs_world : World
nfs_world = record {
  client = record { context = open_context; system = answers quiet (pos 4) (pos 0) (pos 0) };
  sequential = 5;
  self_fqdn = host;
}

abbrev plain_at_mount : Client
plain_at_mount = record {
  context = context_at_mount;
  system = record quiet { dialed = pos 635 ∷ []; closed = pos 3 ∷ [] };
}

-- Every call with AUTH_NONE, from a context on the port mapper's port.
calls_other_auth_example :
    (get_port (record port_mapper { auth_type = auth_none }) nfs_world memory 100_005 3
      ≡ ok (2 ^ 32 - 1, connected_only nfs_world nfs_world.client))
    × (make_mount_call make_mount_context nfs_world memory remote 3 auth_none
        ≡ ok (
          set_mount_prot_version (set_mount_path make_mount_context remote) 3,
          connected_only nfs_world plain_at_mount,
        ))
    × (make_umount_call make_mount_context nfs_world memory remote 3 auth_none
        ≡ ok (
          set_mount_prot_version (set_mount_path make_mount_context remote) 3,
          connected_only nfs_world plain_at_mount,
        ))
    × (lookup nfs_world memory (b'.' ∷ []) directory auth_none
        ≡ ok (none, connected_only nfs_world client_at_nfs))
unfolding connect_port_mapper_port connect_nfs_port connect_mount_port connect_port connect
    disconnect open_socket set_timeout
calls_other_auth_example =
    calls_other_auth auth_none nfs_world memory (pos 0) (pos 0) (pos 0) nfs_world.client
      plain_at_mount client_at_nfs port_mapper 100_005 3 make_mount_context remote (b'.' ∷ [])
      directory (λ e. cc) refl refl refl

-- A path and a name of a thousand bytes.
abbrev long_name : List ℕ
long_name = replicate 1000 b'a'

calls_overrun_example :
    (make_mount_call make_mount_context nfs_world memory long_name 3 auth_sys ≡ fault)
    × (make_umount_call make_mount_context nfs_world memory long_name 3 auth_sys ≡ fault)
    × (lookup nfs_world memory long_name directory auth_sys ≡ fault)
unfolding connect_nfs_port connect_mount_port connect_port connect disconnect open_socket
    set_timeout
calls_overrun_example =
    let size = length-mount_message nfs_world long_name mountproc3_mnt in
    let size' = length-lookup_message nfs_world odd_handle long_name in
    calls_overrun make_mount_context nfs_world plain_at_mount client_at_nfs (pos 0) (pos 0) memory
      long_name 3 odd_handle long_name directory (omega arith) (omega arith) (omega arith)
      (omega arith) (omega (arith, size)) (omega (arith, size')) refl refl refl
