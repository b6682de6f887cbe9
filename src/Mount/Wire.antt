-- ===== src/Mount/Wire.antt =====
-- What makeMountCall and makeUmountCall send.
use nfs_client_simulator.Common.{
  ℕ, ◌+◌, ◌%◌, ◌^◌, ◌≤◌, ◌<◌, ◌≡◌, refl, List, ◌++◌, Outcome, ok, ◌>>=◌, length, drop, arith,
  length-append, length-tabulate,
}
use nfs_client_simulator.Common.Int.{ℤ}
use nfs_client_simulator.GenericEnums.{
  auth_sys, rpc_version2, program_version3, mount, MountProg, mountproc3_mnt, mountproc3_umnt,
  mount_prog_u32,
}
use nfs_client_simulator.Utils.{get_monotonic}
use nfs_client_simulator.Xdr.{Pointer}
use nfs_client_simulator.Xdr.Encode.{be32, padding, padding-aligns}
use nfs_client_simulator.Xdr.Emit.{Emits, then-Emits}
use nfs_client_simulator.Rpc.Call.{string-Emits, align-Emits, auth_sys_bytes, length-auth_sys_bytes}
use nfs_client_simulator.Context.{Client}
use nfs_client_simulator.Context.Connection.{connect_mount_port}
use nfs_client_simulator.Call.{World, Memory, new_array, exchange}
use nfs_client_simulator.Call.Request.{auth_sys_small}
use nfs_client_simulator.Call.Message.{
  call_front, call_message, request_array, build_request-call_message, make_rpc_room,
  put_procedure_room,
}
use nfs_client_simulator.Mount.{
  MountContext, set_mount_path, set_mount_prot_version, read_mount_reply, put_path,
  begin_mount_call, finish_mount_call, make_mount_call, make_umount_call,
}

-- A name as an XDR string.
abbrev pub xdr_string : List ℕ → List ℕ
xdr_string name = be32 (length name) ++ name ++ padding (length name) 4

-- The length of a credential is a multiple of four.
pub auth_sys-aligns :
    (stamp : ℕ) (self_fqdn : List ℕ) → length (auth_sys_bytes stamp self_fqdn) % 4 ≡ 0
auth_sys-aligns stamp self_fqdn = omega (
  arith,
  length-auth_sys_bytes stamp self_fqdn,
  (padding-aligns (length self_fqdn) 4 (omega arith)).0,
)

pub put_path-Emits :
    {n : ℕ} (remote : List ℕ)
    → n % 4 ≡ 0
    → length remote + 4 < 2 ^ 32
    → Emits n (put_path remote) (xdr_string remote)
unfolding put_path
put_path-Emits {n} remote h fits =
    then-Emits (string-Emits remote fits) (align-Emits (length remote) (omega arith))

-- The message, with the next two sequential numbers as its transaction and its stamp.
abbrev pub mount_message : World → List ℕ → MountProg → List ℕ
mount_message w remote procedure =
    call_message (w.sequential % 2 ^ 32) rpc_version2 mount program_version3
      (mount_prog_u32 procedure) ((w.sequential + 1) % 2 ^ 64 % 2 ^ 32) w.self_fqdn
      (xdr_string remote)

-- Its exchange on the client.
abbrev pub mount_exchange : World → Client → Memory → List ℕ → MountProg → Outcome (Pointer × World)
mount_exchange w client memory remote procedure =
    let message = mount_message w remote procedure in
    exchange (record w { client = client; sequential = ((w.sequential + 1) % 2 ^ 64 + 1) % 2 ^ 64 })
      memory 1024 (4 + length message) (request_array message memory.request)
      (w.sequential % 2 ^ 32)

pub length-mount_message :
    (w : World) (remote : List ℕ) (procedure : MountProg)
    → length (mount_message w remote procedure)
      ≡ 28
        + length (auth_sys_bytes ((w.sequential + 1) % 2 ^ 64 % 2 ^ 32) w.self_fqdn)
        + length remote
        + length (padding (length remote) 4)
length-mount_message w remote procedure = omega (
  arith,
  length-append (auth_sys_bytes ((w.sequential + 1) % 2 ^ 64 % 2 ^ 32) w.self_fqdn)
      (xdr_string remote),
  length-append remote (padding (length remote) 4),
)

-- A path of at most 600 bytes fits.
pub mount_fits :
    (w : World) (remote : List ℕ) (procedure : MountProg)
    → length w.self_fqdn ≤ 255
    → length remote ≤ 600
    → 4 + length (mount_message w remote procedure) ≤ 1024
mount_fits w remote procedure short path =
    let credential = auth_sys_small ((w.sequential + 1) % 2 ^ 64 % 2 ^ 32) w.self_fqdn short in
    let pad = (padding-aligns (length remote) 4 (omega arith)).1 in
    let size = length-mount_message w remote procedure in omega (arith, credential, pad, size)

-- Both calls.
module _ (w : World) (client : Client) (memory : Memory) (remote : List ℕ) (procedure : MountProg)
    (short : length w.self_fqdn ≤ 255) where
  pub begun :
      begin_mount_call (record w { client = client }) memory procedure
      ≡ ok (
        (
          28,
          be32 0
              ++ (call_front
                    (w.sequential % 2 ^ 32)
                    rpc_version2
                    mount
                    program_version3
                    (mount_prog_u32 procedure)
                  ++ drop 28 (new_array 1024 memory.request)),
        ),
        w.sequential % 2 ^ 32,
        record w { client = client; sequential = (w.sequential + 1) % 2 ^ 64 },
      )
  unfolding begin_mount_call get_monotonic
  begun =
      rw
        (
          make_rpc_room (w.sequential % 2 ^ 32) rpc_version2 mount program_version3
              (mount_prog_u32 procedure) (new_array 1024 memory.request)
              (length-tabulate memory.request 0 1024),
          put_procedure_room (w.sequential % 2 ^ 32) rpc_version2 mount program_version3
              (mount_prog_u32 procedure) (new_array 1024 memory.request)
              (length-tabulate memory.request 0 1024),
          begin_mount_call,
        )
        refl

  finished :
      4 + length (mount_message w remote procedure) ≤ 1024
      → finish_mount_call
          (record w { client = client; sequential = (w.sequential + 1) % 2 ^ 64 })
          memory
          (w.sequential % 2 ^ 32)
          remote
          (
            28,
            be32 0
                ++ (call_front
                      (w.sequential % 2 ^ 32)
                      rpc_version2
                      mount
                      program_version3
                      (mount_prog_u32 procedure)
                    ++ drop 28 (new_array 1024 memory.request)),
          )
        ≡ mount_exchange w client memory remote procedure
  unfolding finish_mount_call
  finished fits =
      rw
        (
          build_request-call_message (w.sequential % 2 ^ 32) rpc_version2 mount program_version3
              (mount_prog_u32 procedure) ((w.sequential + 1) % 2 ^ 64) w.self_fqdn memory
              {args = xdr_string remote} short fits
              (put_path-Emits remote
                (omega (arith, auth_sys-aligns ((w.sequential + 1) % 2 ^ 64 % 2 ^ 32) w.self_fqdn))
                (let size = length-mount_message w remote procedure in omega (arith, fits, size))),
          finish_mount_call,
        )
        refl

-- makeMountCall with AUTH_SYS, once the port of the mount program is connected: it hands a call of MNT
-- to `exchange` in one record, with the path as its only argument, and reads the answer on a context
-- that has the path and the version. The host name has at most 255 bytes, and the record at most 1024.
pub make_mount_call-exchange :
    (m : MountContext) (w : World) (client : Client) (r : ℤ) (memory : Memory) (remote : List ℕ)
    (version : ℕ)
    → length w.self_fqdn ≤ 255
    → 4 + length (mount_message w remote mountproc3_mnt) ≤ 1024
    → connect_mount_port w.client ≡ ok (r, client)
    → make_mount_call m w memory remote version auth_sys ≡ (do
      (payload, w') ← mount_exchange w client memory remote mountproc3_mnt
      m' ← read_mount_reply (set_mount_prot_version (set_mount_path m remote) version) payload
      ok (m', w'))
unfolding make_mount_call
make_mount_call-exchange m w client r memory remote version short fits connected =
    rw
      (
        connected,
        begun w client memory remote mountproc3_mnt short,
        finished w client memory remote mountproc3_mnt short fits,
        make_mount_call,
      )
      refl

-- makeUmountCall with AUTH_SYS, once the port of the mount program is connected, does the same with a
-- call of UMNT, but the answer is not read and the handle stays.
pub make_umount_call-exchange :
    (m : MountContext) (w : World) (client : Client) (r : ℤ) (memory : Memory) (remote : List ℕ)
    (version : ℕ)
    → length w.self_fqdn ≤ 255
    → 4 + length (mount_message w remote mountproc3_umnt) ≤ 1024
    → connect_mount_port w.client ≡ ok (r, client)
    → make_umount_call m w memory remote version auth_sys ≡ (do
      (payload, w') ← mount_exchange w client memory remote mountproc3_umnt
      ok (set_mount_prot_version (set_mount_path m remote) version, w'))
unfolding make_umount_call
make_umount_call-exchange m w client r memory remote version short fits connected =
    rw
      (
        connected,
        begun w client memory remote mountproc3_umnt short,
        finished w client memory remote mountproc3_umnt short fits,
        make_umount_call,
      )
      refl
