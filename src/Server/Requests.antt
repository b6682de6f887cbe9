-- ===== src/Server/Requests.antt =====
-- A server reads the requests that the clients build.
use nfs_client_simulator.Common.{
  ℕ, ◌+◌, ◌%◌, ◌^◌, ◌≤◌, ◌<◌, ◌≡◌, refl, List, [], ◌++◌, some, arith, length, append_assoc, ==_refl,
}
use nfs_client_simulator.GenericEnums.{
  RpcVersion, rpc_version_u32, RpcProgram, rpc_program_u32, ProgramVersion, program_version_u32,
}
use nfs_client_simulator.Xdr.Encode.{be32, padding, padding-aligns}
use nfs_client_simulator.Rpc.Call.{payload, auth_sys_bytes, length-payload}
use nfs_client_simulator.Call.Request.{record_of}
use nfs_client_simulator.Call.Message.{call_message}
use nfs_client_simulator.Server.{
  AuthSysParms, read_parms, read_auth, Request, read_call, read_record,
}
use nfs_client_simulator.Server.Words.{read_word-be32, read_opaque-be32, read_opaque-aligned}

-- The credential of user 0 and group 0.
abbrev pub root_parms : ℕ → List ℕ → AuthSysParms
root_parms stamp machine_name = record {
  stamp = stamp;
  machine_name = machine_name;
  uid = 0;
  gid = 0;
  groups = 1;
  first_group = 0;
}

read_parms-payload :
    (stamp : ℕ) (machine_name : List ℕ)
    → stamp < 2 ^ 32
    → length machine_name ≤ 255
    → read_parms (payload stamp machine_name) ≡ some (root_parms stamp machine_name)
unfolding read_parms payload
read_parms-payload stamp machine_name small short =
    rw
      (
        read_parms,
        read_word-be32 stamp _ small,
        read_opaque-be32 255 machine_name (be32 0 ++ (be32 0 ++ (be32 1 ++ be32 0))) short
            (omega arith),
        read_word-be32 0 (be32 0 ++ (be32 1 ++ be32 0)) (omega arith),
        read_word-be32 0 (be32 1 ++ be32 0) (omega arith),
        read_word-be32 1 (be32 0) (omega arith),
        read_word-be32 0 [] (omega arith),
      )
      refl

read_auth-auth_sys_bytes :
    (stamp : ℕ) (machine_name args : List ℕ)
    → stamp < 2 ^ 32
    → length machine_name ≤ 255
    → read_auth (auth_sys_bytes stamp machine_name ++ args)
      ≡ some (root_parms stamp machine_name, args)
unfolding read_auth auth_sys_bytes
read_auth-auth_sys_bytes stamp machine_name args small short =
    rw
      (
        append_assoc body (be32 0 ++ be32 0) args,
        read_auth,
        read_word-be32 1 _ (omega arith),
        read_opaque-aligned 400 body (be32 0 ++ (be32 0 ++ args)) (omega (arith, size, pad.1))
            (omega arith) (omega (arith, size, pad.0)),
        read_parms-payload stamp machine_name small short,
        read_word-be32 0 (be32 0 ++ args) (omega arith),
        read_opaque-aligned 400 [] args (omega arith) (omega arith) refl,
      )
      refl
  where
    body : List ℕ
    body = payload stamp machine_name

    size : length body ≡ length machine_name + length (padding (length machine_name) 4) + 24
    size = length-payload stamp machine_name

    pad :
        ((length machine_name + length (padding (length machine_name) 4)) % 4 ≡ 0)
        × (length (padding (length machine_name) 4) < 4)
    pad = padding-aligns (length machine_name) 4 (omega arith)

-- What the server reads of a call of the clients.
abbrev pub request_read :
    ℕ → RpcVersion → RpcProgram → ProgramVersion → ℕ → ℕ → List ℕ → List ℕ → Request
request_read xid v p pv procedure stamp self_fqdn args = record {
  xid = xid;
  rpc_version = rpc_version_u32 v;
  program = rpc_program_u32 p;
  version = program_version_u32 pv;
  procedure = procedure;
  credential = root_parms stamp self_fqdn;
  arguments = args;
}

rpc_version_word : (v : RpcVersion) → rpc_version_u32 v < 2 ^ 32
rpc_version_word RpcVersion.no_version = omega arith
rpc_version_word RpcVersion.rpc_version1 = omega arith
rpc_version_word RpcVersion.rpc_version2 = omega arith
rpc_version_word RpcVersion.unknown_version = omega arith

rpc_program_word : (p : RpcProgram) → rpc_program_u32 p < 2 ^ 32
rpc_program_word RpcProgram.portmap = omega arith
rpc_program_word RpcProgram.nfs = omega arith
rpc_program_word RpcProgram.mount = omega arith
rpc_program_word RpcProgram.nlm = omega arith

program_version_word : (pv : ProgramVersion) → program_version_u32 pv < 2 ^ 32
program_version_word ProgramVersion.no_program_version = omega arith
program_version_word ProgramVersion.program_version2 = omega arith
program_version_word ProgramVersion.program_version3 = omega arith

module _ (xid : ℕ) (v : RpcVersion) (p : RpcProgram) (pv : ProgramVersion) (procedure stamp : ℕ)
    (self_fqdn args : List ℕ) (hx : xid < 2 ^ 32) (hp : procedure < 2 ^ 32) (hs : stamp < 2 ^ 32)
    (short : length self_fqdn ≤ 255) where
  read_call-call_message :
      read_call (call_message xid v p pv procedure stamp self_fqdn args)
      ≡ some (request_read xid v p pv procedure stamp self_fqdn args)
  unfolding read_call
  read_call-call_message =
      rw
        (
          read_call,
          read_word-be32 xid _ hx,
          read_word-be32 0 _ (omega arith),
          read_word-be32 (rpc_version_u32 v) _ (rpc_version_word v),
          read_word-be32 (rpc_program_u32 p) _ (rpc_program_word p),
          read_word-be32 (program_version_u32 pv) _ (program_version_word pv),
          read_word-be32 procedure _ hp,
          read_auth-auth_sys_bytes stamp self_fqdn args hs short,
        )
        refl

  pub read_record-record_of :
      length (call_message xid v p pv procedure stamp self_fqdn args) < 2 ^ 31
      → read_record (record_of (call_message xid v p pv procedure stamp self_fqdn args))
        ≡ some (request_read xid v p pv procedure stamp self_fqdn args)
  unfolding read_record
  read_record-record_of small =
      let message = call_message xid v p pv procedure stamp self_fqdn args in
      rw
        (
          read_record,
          read_word-be32 (length message + 2 ^ 31) message (omega arith),
          ==_refl (length message + 2 ^ 31),
          read_call-call_message,
        )
        refl
