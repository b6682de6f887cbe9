-- ===== src/Mount.antt =====
-- class MountContext of Mount.hpp and Mount.cpp: mounts an export and keeps its handle.
pub mod Answer
pub mod Reply
pub mod Wire
use nfs_client_simulator.Common.{
  ℕ, zero, suc, ◌-◌, ◌%◌, ◌^◌, List, [], Option, some, Outcome, ok, ◌>>=◌, ◌==◌, not, if◌then◌else◌,
}
use nfs_client_simulator.GenericEnums.{
  AuthType, invalid, auth_type_u32, auth_sys, call, rpc_version2, program_version3, mount,
  MountProg, mountproc3_mnt, mountproc3_umnt, mount_prog_u32, mnt3_ok, mount_reply_u32,
  cred_request_size, mount_request_size, getport_response_size, minus_one,
}
use nfs_client_simulator.Utils.{get_monotonic}
use nfs_client_simulator.Xdr.{
  Buffer, Pointer, emit, xdr_encode_string, xdr_encode_align, xdr_decode_u32, xdr_decode_n_bytes,
}
use nfs_client_simulator.Rpc.{put_u32, make_rpc}
use nfs_client_simulator.Context.{Context}
use nfs_client_simulator.Context.Connection.{connect_mount_port}
use nfs_client_simulator.Call.{World, Memory, new_array, build_request, exchange}

pub record MountContext : Type 0 where
  pub mount_handle : List ℕ
  pub mount_version : ℕ
  pub mount_export : List ℕ
  pub auth_type : AuthType

-- The constructor; the version is -1.
unfoldable pub make_mount_context : MountContext
make_mount_context = record {
  mount_handle = [];
  mount_version = minus_one;
  mount_export = [];
  auth_type = invalid;
}

unfoldable pub set_mount_path : MountContext → List ℕ → MountContext
set_mount_path m remote = record m { mount_export = remote }

unfoldable pub set_mount_prot_version : MountContext → ℕ → MountContext
set_mount_prot_version m version = record m { mount_version = version }

unfoldable pub set_mount_handle : MountContext → List ℕ → MountContext
set_mount_handle m handle = record m { mount_handle = handle }

-- setContext: from now on the calls work on this context.
unfoldable pub set_context : World → Context → World
set_context w context = record w { client = record { context = context; system = w.client.system } }

-- The loop over the flavors that the server supports, which are only logged.
unfoldable pub read_auths : ℕ → Pointer → ℕ → Outcome ℕ
read_auths zero payload offset = ok offset
read_auths (suc n) payload offset = do
  (auth, offset') ← xdr_decode_u32 payload offset
  read_auths n payload offset'

-- The reply to MNT: the handle is appended to what the member holds. The pointer is not checked.
unfoldable pub read_mount_reply : MountContext → Pointer → Outcome MountContext
read_mount_reply m payload = do
  (mount_result, o₁) ← xdr_decode_u32 payload 0
  if not (mount_result == mount_reply_u32 mnt3_ok) then ok m else (do
    (_, handle, o₂) ← xdr_decode_n_bytes payload m.mount_handle 64 o₁
    (number_auths, o₃) ← xdr_decode_u32 payload o₂
    _ ← read_auths number_auths payload o₃
    ok (record m { mount_handle = handle }))

-- Both calls from the connection up to the credential: write the header and the procedure.
unfoldable pub begin_mount_call : World → Memory → MountProg → Outcome ((ℕ × Buffer) × ℕ × World)
begin_mount_call w memory procedure = do
  let (value, sequential₁) = get_monotonic w.sequential
  let xid = value % 2 ^ 32
  s₁ ←
      make_rpc xid call rpc_version2 mount program_version3
        (new_array mount_request_size memory.request)
  s₂ ← put_u32 (mount_prog_u32 procedure) s₁
  ok (s₂, xid, record w { sequential = sequential₁ })

-- The only argument of both procedures is the path.
unfoldable pub put_path : List ℕ → ℕ × Buffer → Outcome (ℕ × Buffer)
put_path remote s₃ = do
  s₄ ← emit (λ p. xdr_encode_string p remote) s₃
  emit (λ p. xdr_encode_align p s₄.0 4) s₄

-- And from the credential on.
unfoldable pub finish_mount_call :
    World → Memory → ℕ → List ℕ → ℕ × Buffer → Outcome (Pointer × World)
finish_mount_call w memory xid remote s₂ = do
  (request_size, wire_request, sequential') ←
      build_request w.sequential w.self_fqdn (new_array cred_request_size memory.credentials)
        (put_path remote) s₂
  exchange (record w { sequential = sequential' }) memory getport_response_size request_size
      wire_request xid

-- makeMountCall. The result, a reference to the handle, is in the new state.
unfoldable pub make_mount_call :
    MountContext → World → Memory → List ℕ → ℕ → AuthType → Outcome (MountContext × World)
make_mount_call m w memory remote version auth = do
  (_, client₁) ← connect_mount_port w.client
  let m₁ = set_mount_prot_version (set_mount_path m remote) version
  (s₂, xid, w₁) ← begin_mount_call (record w { client = client₁ }) memory mountproc3_mnt
  if auth_type_u32 auth == auth_type_u32 auth_sys
      then (do
        (payload, w₂) ← finish_mount_call w₁ memory xid remote s₂
        m₂ ← read_mount_reply m₁ payload
        ok (m₂, w₂))
      else ok (m₁, w₁)

-- makeUmountCall: the reply is not looked at, and the handle stays.
unfoldable pub make_umount_call :
    MountContext → World → Memory → List ℕ → ℕ → AuthType → Outcome (MountContext × World)
make_umount_call m w memory remote version auth = do
  (_, client₁) ← connect_mount_port w.client
  let m₁ = set_mount_prot_version (set_mount_path m remote) version
  (s₂, xid, w₁) ← begin_mount_call (record w { client = client₁ }) memory mountproc3_umnt
  if auth_type_u32 auth == auth_type_u32 auth_sys
      then (do (payload, w₂) ← finish_mount_call w₁ memory xid remote s₂; ok (m₁, w₂))
      else ok (m₁, w₁)
