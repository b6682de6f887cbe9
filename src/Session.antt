-- ===== src/Session.antt =====
-- main.cpp: the session with the first server that the arguments name.
pub mod End
pub mod Mounted
use nfs_client_simulator.Common.{
  ℕ, List, [], ◌∷◌, ◌++◌, Outcome, ok, ◌>>=◌, none, some, ◌==◌, if◌then◌else◌,
}
use nfs_client_simulator.Common.Int.{ℤ, pos, minus_one, to_u32}
use nfs_client_simulator.GenericEnums.{auth_sys, rpc_version2, program_version2}
use nfs_client_simulator.Context.{Context, Client, set_mount_port, set_nfs_port}
use nfs_client_simulator.System.{System}
use nfs_client_simulator.Call.{World, Memory}
use nfs_client_simulator.PortMapper.{PortMapperContext, get_mount_port, get_nfs_port}
use nfs_client_simulator.Mount.{MountContext, make_mount_context, make_mount_call, make_umount_call}
use nfs_client_simulator.Inode.{Inode, lookup, slash, dot}
use nfs_client_simulator.FsTree.{Tree, get_root, add_mount_handle}
use nfs_client_simulator.Arguments.{parse_args}
use nfs_client_simulator.ServerContexts.{ServerContexts, get_context, put_context}

-- The export "/default".
abbrev pub remote : List ℕ
remote = slash ∷ b'd' ∷ b'e' ∷ b'f' ∷ b'a' ∷ b'u' ∷ b'l' ∷ b't' ∷ []

abbrev pub port_mapper : PortMapperContext
port_mapper = record {
  rpc_version = rpc_version2;
  program_version = program_version2;
  auth_type = auth_sys;
}

-- The arrays of the five calls.
pub record Memories : Type 0 where
  pub for_mount_port : Memory
  pub for_nfs_port : Memory
  pub for_mount : Memory
  pub for_lookup : Memory
  pub for_umount : Memory

-- setMountPort and setNfsPort on the shared context.
unfoldable pub set_ports : World → ℤ → ℤ → World
set_ports w mount_port nfs_port =
    let c = set_nfs_port (set_mount_port w.client.context (to_u32 mount_port)) (to_u32 nfs_port) in
    record w { client = record { context = c; system = w.client.system } }

-- Until the export is mounted and entered into the tree.
unfoldable pub mount_export : World → Memories → Outcome (MountContext × Tree × World)
mount_export w m = do
  (mount_port, w₁) ← get_mount_port port_mapper w m.for_mount_port
  (nfs_port, w₂) ← get_nfs_port port_mapper w₁ m.for_nfs_port
  let w₃ = set_ports w₂ mount_port nfs_port
  (mount, w₄) ← make_mount_call make_mount_context w₃ m.for_mount remote 3 auth_sys
  ok (mount, add_mount_handle [] remote mount.mount_handle, w₄)

-- The lookup of "." in the root.
unfoldable pub use_export : MountContext → Tree → World → Memories → Outcome (MountContext × World)
use_export mount fs_tree w m = do
  root ← get_root fs_tree
  (_, w₅) ← lookup w m.for_lookup (dot ∷ []) root auth_sys
  make_umount_call mount w₅ m.for_umount remote 3 auth_sys

-- The whole session on the contexts that parseArgs has made. The context that the calls work on is the
-- one that the list points to; its last state is in the world that results.
unfoldable pub run_session :
    ServerContexts → System → ℕ → List ℕ → Memories → Outcome (ServerContexts × World)
run_session s_contexts system sequential self_fqdn m = do
  (context, s₁) ← get_context s_contexts (pos 0)
  let w : World = record {
    client = record { context = context; system = system };
    sequential = sequential;
    self_fqdn = self_fqdn;
  }
  (mount, fs_tree, w₁) ← mount_export w m
  (_, w₂) ← use_export mount fs_tree w₁ m
  (_, s₂) ← put_context s₁ (pos 0)
  ok (s₂, w₂)

-- main: the status that the program exits with.
unfoldable pub main : List (ℕ × List ℕ) → ℕ → System → ℕ → List ℕ → Memories → Outcome ℤ
main options garbage system sequential self_fqdn m = do
  parsed ← parse_args garbage [] options
  elim parsed [
    | none ↦ ok minus_one
    | some r ↦
        if r.0 == 0
        then ok minus_one
        else run_session r.1 system sequential self_fqdn m >>= λ _. ok (pos 0)
  ]
