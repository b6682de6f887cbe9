-- ===== src/Server/Sent.antt =====
-- What a server reads of the requests that the calls send.
use nfs_client_simulator.Common.{
  ℕ, ◌+◌, ◌%◌, ◌^◌, ◌≤◌, ◌<◌, ◌≡◌, refl, ap, ◌∙◌, List, [], Outcome, ok, ◌>>=◌, some, arith, length,
  drop, take, take-append,
}
use nfs_client_simulator.Common.Int.{ℤ}
use nfs_client_simulator.GenericEnums.{
  RpcVersion, RpcProgram, ProgramVersion, auth_sys, rpc_version2, program_version3, mount,
  MountProg, mountproc3_mnt, mountproc3_umnt, mount_prog_u32,
}
use nfs_client_simulator.Xdr.{Buffer, Pointer}
use nfs_client_simulator.Xdr.Encode.{be32}
use nfs_client_simulator.Context.{Client}
use nfs_client_simulator.Context.Connection.{connect_mount_port}
use nfs_client_simulator.Call.{World, Memory, new_array, exchange}
use nfs_client_simulator.Call.Request.{record_of}
use nfs_client_simulator.Call.Message.{call_message, request_array}
use nfs_client_simulator.PortMapper.Wire.{mapping}
use nfs_client_simulator.Mount.{
  MountContext, set_mount_path, set_mount_prot_version, read_mount_reply, make_mount_call,
  make_umount_call,
}
use nfs_client_simulator.Mount.Wire.{
  xdr_string, mount_fits, mount_message, make_mount_call-exchange, make_umount_call-exchange,
}
use nfs_client_simulator.Server.{Request, read_record, read_mapping, read_path}
use nfs_client_simulator.Server.Words.{read_word-be32, read_opaque-last}
use nfs_client_simulator.Server.Requests.{request_read, read_record-record_of}

pub take-request_array :
    (message : List ℕ) (garbage : ℕ → ℕ)
    → take (4 + length message) (request_array message garbage) ≡ record_of message
take-request_array message garbage =
    let size : 4 + length message ≡ length (record_of message) = omega arith in
    ap (λ (n : ℕ). take n (request_array message garbage)) size
    ∙ take-append (record_of message) (drop (4 + length message) (new_array 1024 garbage))

pub record_read :
    (w : World) (garbage : ℕ → ℕ) (v : RpcVersion) (p : RpcProgram) (pv : ProgramVersion)
    (procedure : ℕ) (args : List ℕ)
    → let message =
        call_message
          (w.sequential % 2 ^ 32)
          v
          p
          pv
          procedure
          ((w.sequential + 1) % 2 ^ 64 % 2 ^ 32)
          w.self_fqdn
          args in
      procedure < 2 ^ 32
      → length w.self_fqdn ≤ 255
      → 4 + length message ≤ 1024
      → read_record (take (4 + length message) (request_array message garbage))
        ≡ some (
            request_read
              (w.sequential % 2 ^ 32)
              v
              p
              pv
              procedure
              ((w.sequential + 1) % 2 ^ 64 % 2 ^ 32)
              w.self_fqdn
              args)
record_read w garbage v p pv procedure args hp short fits =
    let message =
      call_message (w.sequential % 2 ^ 32) v p pv procedure ((w.sequential + 1) % 2 ^ 64 % 2 ^ 32)
        w.self_fqdn args in
    rw (take-request_array message garbage) (
      read_record-record_of (w.sequential % 2 ^ 32) v p pv procedure
        ((w.sequential + 1) % 2 ^ 64 % 2 ^ 32) w.self_fqdn args (omega arith) hp (omega arith) short
        (omega arith))

-- The outcome is that of an exchange whose request a server reads as this one, and of what follows it. The next two
-- sequential numbers have been taken, the first as the transaction.
abbrev pub Asks :
    {A : Type 0}
    → World
    → Client
    → Memory
    → Outcome A
    → (Pointer × World → Outcome A)
    → Request
    → Type 0
Asks w client memory outcome after request =
    (size : ℕ) × (wire : Buffer) × (outcome ≡ (
      exchange
        (record w { client = client; sequential = ((w.sequential + 1) % 2 ^ 64 + 1) % 2 ^ 64 })
        memory 1024 size wire (w.sequential % 2 ^ 32)
      >>= after))
    × (read_record (take size wire) ≡ some request)

pub read_path-xdr_string :
    (path : List ℕ) → length path ≤ 1024 → read_path (xdr_string path) ≡ some path
unfolding read_path
read_path-xdr_string path short =
    rw (read_path, read_opaque-last 1024 path short (omega arith)) refl

pub read_mapping-mapping :
    (program version : ℕ)
    → program < 2 ^ 32
    → version < 2 ^ 32
    → read_mapping (mapping program version) ≡ some (program, version, 6, 0)
unfolding read_mapping
read_mapping-mapping program version hp hv =
    rw
      (
        read_mapping,
        read_word-be32 program _ hp,
        read_word-be32 version _ hv,
        read_word-be32 6 (be32 0) (omega arith),
        read_word-be32 0 [] (omega arith),
      )
      refl

module _ (w : World) (client : Client) (r : ℤ) (memory : Memory)
    (short : length w.self_fqdn ≤ 255) where
  -- makeMountCall and makeUmountCall with AUTH_SYS, once the mount port is connected, send a record that a server
  -- reads as a call of MNT and of UMNT, version 3 of the mount program, with the credential of user 0 that has
  -- the stamp and the name of the host, and with the path that they are given, of at most 600 bytes, as the argument.
  -- The name of the host has at most 255 bytes.
  pub mount_calls_read :
      (m : MountContext) (remote : List ℕ) (version : ℕ)
      → connect_mount_port w.client ≡ ok (r, client)
      → length remote ≤ 600
      → let m₁ = set_mount_prot_version (set_mount_path m remote) version in
        let request = λ (procedure : MountProg).
          request_read
            (w.sequential % 2 ^ 32)
            rpc_version2
            mount
            program_version3
            (mount_prog_u32 procedure)
            ((w.sequential + 1) % 2 ^ 64 % 2 ^ 32)
            w.self_fqdn
            (xdr_string remote) in
        Asks w client memory
          (make_mount_call m w memory remote version auth_sys)
          (λ (payload, w'). read_mount_reply m₁ payload >>= λ m'. ok (m', w'))
          (request mountproc3_mnt)
        × Asks w client memory
            (make_umount_call m w memory remote version auth_sys)
            (λ (payload, w'). ok (m₁, w'))
            (request mountproc3_umnt)
        × (read_path (xdr_string remote) ≡ some remote)
  mount_calls_read m remote version connected path = (
    (
      4 + length (mount_message w remote mountproc3_mnt),
      request_array (mount_message w remote mountproc3_mnt) memory.request,
      make_mount_call-exchange m w client r memory remote version short
          (mount_fits w remote mountproc3_mnt short path) connected,
      record_read w memory.request rpc_version2 mount program_version3 1 (xdr_string remote)
          (omega arith) short (mount_fits w remote mountproc3_mnt short path),
    ),
    (
      4 + length (mount_message w remote mountproc3_umnt),
      request_array (mount_message w remote mountproc3_umnt) memory.request,
      make_umount_call-exchange m w client r memory remote version short
          (mount_fits w remote mountproc3_umnt short path) connected,
      record_read w memory.request rpc_version2 mount program_version3 3 (xdr_string remote)
          (omega arith) short (mount_fits w remote mountproc3_umnt short path),
    ),
    read_path-xdr_string remote (omega arith),
  )
