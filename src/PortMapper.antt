-- ===== src/PortMapper.antt =====
-- class PortMapperContext: asks the port mapper for the TCP port of a program.
pub mod Wire
use nfs_client_simulator.Common.{
  ℕ, ◌-◌, ◌+◌, ◌%◌, ◌^◌, List, Option, none, some, Outcome, ok, ◌>>=◌, ◌==◌, if◌then◌else◌,
}
use nfs_client_simulator.Common.Int.{ℤ, minus_one, to_int32, to_u32}
use nfs_client_simulator.GenericEnums.{
  AuthType, auth_type_u32, auth_sys, call, RpcVersion, ProgramVersion, portmap, mount, nfs,
  rpc_program_u32, version3, mount_ver_u32, pmapproc_getport, port_mapper_proc_u32, ipproto_tcp,
  protocol_type_u32, cred_request_size, getport_request_size, getport_response_size,
}
use nfs_client_simulator.Utils.{get_monotonic}
use nfs_client_simulator.Xdr.{Buffer, Pointer, xdr_decode_u32}
use nfs_client_simulator.Rpc.{put_u32, make_rpc}
use nfs_client_simulator.Context.{Context}
use nfs_client_simulator.Context.Connection.{connect_port_mapper_port}
use nfs_client_simulator.Call.{World, Memory, new_array, build_request, exchange}

-- The context that it points to is the world's.
pub record PortMapperContext : Type 0 where
  pub rpc_version : RpcVersion
  pub program_version : ProgramVersion
  pub auth_type : AuthType

unfoldable pub set_rpc_version : PortMapperContext → RpcVersion → PortMapperContext
set_rpc_version m version = record m { rpc_version = version }

unfoldable pub set_program_version : PortMapperContext → ProgramVersion → PortMapperContext
set_program_version m version = record m { program_version = version }

unfoldable pub set_auth_type : PortMapperContext → AuthType → PortMapperContext
set_auth_type m auth = record m { auth_type = auth }

-- setContext: from now on the calls work on this context.
unfoldable pub set_context : World → Context → World
set_context w context = record w { client = record { context = context; system = w.client.system } }

-- `remotePort`: -1 unless there is a payload.
unfoldable pub read_port : Pointer → Outcome ℤ
read_port none = ok minus_one
read_port (some payload) = do (port, _) ← xdr_decode_u32 (some payload) 0; ok (to_int32 port)

-- The arguments of PMAPPROC_GETPORT: the port is 0.
unfoldable pub put_mapping : ℕ → ℕ → ℕ × Buffer → Outcome (ℕ × Buffer)
put_mapping program version s₃ = do
  s₄ ← put_u32 program s₃
  s₅ ← put_u32 version s₄
  s₆ ← put_u32 (protocol_type_u32 ipproto_tcp) s₅
  put_u32 0 s₆

-- From the credential on; reached with AUTH_SYS only.
unfoldable pub get_port_call : World → Memory → ℕ → ℕ → ℕ → ℕ × Buffer → Outcome (ℕ × World)
get_port_call w memory xid program version s₂ = do
  (request_size, wire_request, sequential') ←
      build_request w.sequential w.self_fqdn (new_array cred_request_size memory.credentials)
        (put_mapping program version) s₂
  (payload, w') ←
      exchange (record w { sequential = sequential' }) memory getport_response_size request_size
        wire_request xid
  remote_port ← read_port payload
  ok (to_u32 remote_port, w')

-- getPort. The result is a uint32_t, so -1 is 2 ^ 32 - 1.
unfoldable pub get_port : PortMapperContext → World → Memory → ℕ → ℕ → Outcome (ℕ × World)
get_port m w memory program version = do
  (_, client₁) ← connect_port_mapper_port w.client
  let (value, sequential₁) = get_monotonic w.sequential
  let xid = value % 2 ^ 32
  let w₁ = record w { client = client₁; sequential = sequential₁ }
  s₁ ←
      make_rpc xid call m.rpc_version portmap m.program_version
        (new_array getport_request_size memory.request)
  s₂ ← put_u32 (port_mapper_proc_u32 pmapproc_getport) s₁
  if auth_type_u32 m.auth_type == auth_type_u32 auth_sys
      then get_port_call w₁ memory xid program version s₂
      else ok (2 ^ 32 - 1, w₁)

-- getMountPort and getNfsPort
unfoldable pub get_mount_port : PortMapperContext → World → Memory → Outcome (ℤ × World)
get_mount_port m w memory = do
  (port, w') ← get_port m w memory (rpc_program_u32 mount) (mount_ver_u32 version3)
  ok (to_int32 port, w')

unfoldable pub get_nfs_port : PortMapperContext → World → Memory → Outcome (ℤ × World)
get_nfs_port m w memory = do
  (port, w') ← get_port m w memory (rpc_program_u32 nfs) (mount_ver_u32 version3)
  ok (to_int32 port, w')
