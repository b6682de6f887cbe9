-- ===== src/Overrun.antt =====
-- Requests that do not fit their array.
use nfs_client_simulator.Common.{
  ℕ, ◌+◌, ◌%◌, ◌^◌, ◌≤◌, ◌<◌, ◌≡◌, refl, List, ◌++◌, some, ok, fault, length, drop, arith,
  length-tabulate,
}
use nfs_client_simulator.Common.Int.{ℤ}
use nfs_client_simulator.GenericEnums.{
  auth_sys, rpc_version2, program_version3, mount, nfs, MountProg, mount_prog_u32, mountproc3_mnt,
  mountproc3_umnt,
}
use nfs_client_simulator.Utils.{get_monotonic}
use nfs_client_simulator.Xdr.Encode.{be32}
use nfs_client_simulator.Context.{Client}
use nfs_client_simulator.Context.Connection.{connect_mount_port, connect_nfs_port}
use nfs_client_simulator.Call.{World, Memory, new_array}
use nfs_client_simulator.Call.Message.{
  call_front, make_rpc_room, put_procedure_room, build_request-too_long,
}
use nfs_client_simulator.Mount.{MountContext, finish_mount_call, make_mount_call, make_umount_call}
use nfs_client_simulator.Mount.Wire.{
  xdr_string, auth_sys-aligns, mount_message, put_path-Emits, begun,
}
use nfs_client_simulator.Inode.{Inode, lookup, lookup_call}
use nfs_client_simulator.Inode.Lookup.{dirop, lookup_message, put_dirop-Emits}

mount_overrun :
    (w : World) (client : Client) (memory : Memory) (remote : List ℕ) (procedure : MountProg)
    → length w.self_fqdn ≤ 255
    → length remote + 4 < 2 ^ 32
    → 1024 < 4 + length (mount_message w remote procedure)
    → finish_mount_call
        (record w { client = client; sequential = (w.sequential + 1) % 2 ^ 64 })
        memory
        (w.sequential % 2 ^ 32)
        remote
        (
          28,
          be32 0
              ++ (call_front
                    (w.sequential % 2 ^ 32)
                    rpc_version2
                    mount
                    program_version3
                    (mount_prog_u32 procedure)
                  ++ drop 28 (new_array 1024 memory.request)),
        )
      ≡ fault
unfolding finish_mount_call
mount_overrun w client memory remote procedure short word long =
    rw
      (
        build_request-too_long (w.sequential % 2 ^ 32) rpc_version2 mount program_version3
            (mount_prog_u32 procedure) ((w.sequential + 1) % 2 ^ 64) w.self_fqdn memory
            {args = xdr_string remote} short long
            (put_path-Emits remote
              (omega (arith, auth_sys-aligns ((w.sequential + 1) % 2 ^ 64 % 2 ^ 32) w.self_fqdn))
              word),
        finish_mount_call,
      )
      refl

mount_calls_overrun :
    (m : MountContext) (w : World) (client : Client) (r : ℤ) (memory : Memory) (remote : List ℕ)
    (version : ℕ)
    → length w.self_fqdn ≤ 255
    → length remote + 4 < 2 ^ 32
    → 1024 < 4 + length (mount_message w remote mountproc3_mnt)
    → connect_mount_port w.client ≡ ok (r, client)
    → (make_mount_call m w memory remote version auth_sys ≡ fault)
      × (make_umount_call m w memory remote version auth_sys ≡ fault)
unfolding make_mount_call make_umount_call
mount_calls_overrun m w client r memory remote version short word long connected = (
  rw
      (
        connected,
        begun w client memory remote mountproc3_mnt short,
        mount_overrun w client memory remote mountproc3_mnt short word long,
        make_mount_call,
      )
      refl,
  rw
      (
        connected,
        begun w client memory remote mountproc3_umnt short,
        mount_overrun w client memory remote mountproc3_umnt short word long,
        make_umount_call,
      )
      refl,
)

lookup_overrun :
    (w : World) (client : Client) (r : ℤ) (memory : Memory) (handle child : List ℕ) (parent : Inode)
    → length w.self_fqdn ≤ 255
    → length handle + 4 < 2 ^ 32
    → length child + 4 < 2 ^ 32
    → 1024 < 4 + length (lookup_message w handle child)
    → parent.self_handle ≡ some handle
    → connect_nfs_port w.client ≡ ok (r, client)
    → lookup w memory child parent auth_sys ≡ fault
unfolding lookup lookup_call get_monotonic
lookup_overrun w client r memory handle child parent short h k long held connected =
    rw
      (
        connected,
        make_rpc_room (w.sequential % 2 ^ 32) rpc_version2 nfs program_version3 3
            (new_array 1024 memory.request) (length-tabulate memory.request 0 1024),
        put_procedure_room (w.sequential % 2 ^ 32) rpc_version2 nfs program_version3 3
            (new_array 1024 memory.request) (length-tabulate memory.request 0 1024),
        build_request-too_long (w.sequential % 2 ^ 32) rpc_version2 nfs program_version3 3
            ((w.sequential + 1) % 2 ^ 64) w.self_fqdn memory {args = dirop handle child} short long
            (put_dirop-Emits parent handle child held
              (omega (arith, auth_sys-aligns ((w.sequential + 1) % 2 ^ 64 % 2 ^ 32) w.self_fqdn)) h
              k),
        lookup,
        lookup_call,
      )
      refl

-- makeMountCall, makeUmountCall and lookup with AUTH_SYS, once their port is connected, write past the end of their
-- array if the record of the request is longer than its 1024 bytes: neither the length of the path nor that of the
-- name is checked. The directory has a handle, the host name has at most 255 bytes, and the path, the handle
-- and the name have fewer than 2 ^ 32 - 4.
pub calls_overrun :
    (m : MountContext) (w : World) (c₁ c₂ : Client) (r₁ r₂ : ℤ) (memory : Memory) (remote : List ℕ)
    (version : ℕ) (handle child : List ℕ) (parent : Inode)
    → length w.self_fqdn ≤ 255
    → length remote + 4 < 2 ^ 32
    → length handle + 4 < 2 ^ 32
    → length child + 4 < 2 ^ 32
    → 1024 < 4 + length (mount_message w remote mountproc3_mnt)
    → 1024 < 4 + length (lookup_message w handle child)
    → parent.self_handle ≡ some handle
    → connect_mount_port w.client ≡ ok (r₁, c₁)
    → connect_nfs_port w.client ≡ ok (r₂, c₂)
    → (make_mount_call m w memory remote version auth_sys ≡ fault)
      × (make_umount_call m w memory remote version auth_sys ≡ fault)
      × (lookup w memory child parent auth_sys ≡ fault)
calls_overrun m w c₁ c₂ r₁ r₂ memory remote version handle child parent short word h k long long'
      held e₁ e₂ =
    let (mnt, umnt) = mount_calls_overrun m w c₁ r₁ memory remote version short word long e₁ in
    (mnt, umnt, lookup_overrun w c₂ r₂ memory handle child parent short h k long' held e₂)
