-- ===== src/Auth.antt =====
-- The calls with another authentication than AUTH_SYS.
use nfs_client_simulator.Common.{
  ℕ, ◌+◌, ◌-◌, ◌%◌, ◌^◌, ◌≡◌, ◌≢◌, refl, List, false, none, ok, ◌==◌, length-tabulate,
}
use nfs_client_simulator.Common.Int.{ℤ}
use nfs_client_simulator.GenericEnums.{
  AuthType, auth_type_u32, auth_sys, invalid, auth_none, auth_short, auth_dh, rpcsec_gss,
  unknown_auth, portmap, mount, nfs, rpc_version2, program_version3,
}
use nfs_client_simulator.Utils.{get_monotonic}
use nfs_client_simulator.Context.{Client}
use nfs_client_simulator.Context.Connection.{
  connect_port_mapper_port, connect_mount_port, connect_nfs_port,
}
use nfs_client_simulator.Call.{World, Memory, new_array}
use nfs_client_simulator.Call.Message.{make_rpc_room, put_procedure_room}
use nfs_client_simulator.PortMapper.{PortMapperContext, get_port}
use nfs_client_simulator.Mount.{
  MountContext, set_mount_path, set_mount_prot_version, begin_mount_call, make_mount_call,
  make_umount_call,
}
use nfs_client_simulator.Inode.{Inode, lookup}

not_sys :
    (auth : AuthType) → auth ≢ auth_sys → (auth_type_u32 auth == auth_type_u32 auth_sys) ≡ false
not_sys invalid h = refl
not_sys auth_none h = refl
not_sys auth_sys h = absurd (h refl)
not_sys auth_short h = refl
not_sys auth_dh h = refl
not_sys rpcsec_gss h = refl
not_sys unknown_auth h = refl

-- The world once a call has connected and taken its transaction.
abbrev pub connected_only : World → Client → World
connected_only w client = record w { client = client; sequential = (w.sequential + 1) % 2 ^ 64 }

-- With another authentication than AUTH_SYS every call connects, takes a transaction and returns without
-- having sent anything: getPort as 2^32 - 1, makeMountCall and makeUmountCall with path and version set
-- and no new handle, and lookup without a handle.
pub calls_other_auth :
    (auth : AuthType) (w : World) (memory : Memory) (r₁ r₂ r₃ : ℤ) (c₁ c₂ c₃ : Client)
    (p : PortMapperContext) (program version : ℕ) (m : MountContext) (remote : List ℕ)
    (child : List ℕ) (parent : Inode)
    → auth ≢ auth_sys
    → connect_port_mapper_port w.client ≡ ok (r₁, c₁)
    → connect_mount_port w.client ≡ ok (r₂, c₂)
    → connect_nfs_port w.client ≡ ok (r₃, c₃)
    → let m' = set_mount_prot_version (set_mount_path m remote) version in
      (get_port (record p { auth_type = auth }) w memory program version
        ≡ ok (2 ^ 32 - 1, connected_only w c₁))
      × (make_mount_call m w memory remote version auth ≡ ok (m', connected_only w c₂))
      × (make_umount_call m w memory remote version auth ≡ ok (m', connected_only w c₂))
      × (lookup w memory child parent auth ≡ ok (none, connected_only w c₃))
unfolding get_port make_mount_call make_umount_call begin_mount_call lookup get_monotonic
calls_other_auth auth w memory r₁ r₂ r₃ c₁ c₂ c₃ p program version m remote child parent other e₁ e₂
      e₃ =
    let a = not_sys auth other in
    let xid = w.sequential % 2 ^ 32 in
    let array = new_array 1024 memory.request in
    let size = length-tabulate memory.request 0 1024 in
    let v = p.rpc_version in
    let pv = p.program_version in
    (
      rw
          (
            e₁,
            make_rpc_room xid v portmap pv 3 array size,
            put_procedure_room xid v portmap pv 3 array size,
            a,
            get_port,
          )
          refl,
      rw
          (
            e₂,
            make_rpc_room xid rpc_version2 mount program_version3 1 array size,
            put_procedure_room xid rpc_version2 mount program_version3 1 array size,
            a,
            make_mount_call,
          )
          refl,
      rw
          (
            e₂,
            make_rpc_room xid rpc_version2 mount program_version3 3 array size,
            put_procedure_room xid rpc_version2 mount program_version3 3 array size,
            a,
            make_umount_call,
          )
          refl,
      rw
          (
            e₃,
            make_rpc_room xid rpc_version2 nfs program_version3 3 array size,
            put_procedure_room xid rpc_version2 nfs program_version3 3 array size,
            a,
            lookup,
          )
          refl,
    )
