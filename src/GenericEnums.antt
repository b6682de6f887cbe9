-- ===== src/GenericEnums.antt =====
-- GenericEnums.hpp, and the enumerations of PortMapperContext.hpp and rpc.hpp that stand in messages.
-- A function `…_u32` is the cast `static_cast<uint32_t>`, so -1 is 2 ^ 32 - 1. A number that comes off
-- the wire is compared with these values, since the cast to an enumeration keeps every number.
use nfs_client_simulator.Common.{ℕ, ◌-◌, ◌^◌}

-- GETPORT_REQUEST_SIZE, GETPORT_RESPONSE_SIZE, CRED_REQUEST_SIZE and MOUNT_REQUEST_SIZE.
abbrev pub getport_request_size : ℕ
getport_request_size = 1024

abbrev pub getport_response_size : ℕ
getport_response_size = 1024

abbrev pub cred_request_size : ℕ
cred_request_size = 1024

abbrev pub mount_request_size : ℕ
mount_request_size = 1024

abbrev pub minus_one : ℕ
minus_one = 2 ^ 32 - 1

-- AUTH_TYPE. `invalid` is both None and AUTH_INVALID, which are one value.
pub data AuthType : Type 0 where
  invalid auth_none auth_sys auth_short auth_dh rpcsec_gss unknown_auth : AuthType

abbrev pub auth_type_u32 : AuthType → ℕ
auth_type_u32 invalid = minus_one
auth_type_u32 auth_none = 0
auth_type_u32 auth_sys = 1
auth_type_u32 auth_short = 2
auth_type_u32 auth_dh = 3
auth_type_u32 rpcsec_gss = 6
auth_type_u32 unknown_auth = 7

-- RPCTYPE
pub data RpcType : Type 0 where
  no_type call reply unknown_type : RpcType

abbrev pub rpc_type_u32 : RpcType → ℕ
rpc_type_u32 no_type = minus_one
rpc_type_u32 call = 0
rpc_type_u32 reply = 1
rpc_type_u32 unknown_type = 2

-- RPC_VERSION
pub data RpcVersion : Type 0 where
  no_version rpc_version1 rpc_version2 unknown_version : RpcVersion

abbrev pub rpc_version_u32 : RpcVersion → ℕ
rpc_version_u32 no_version = minus_one
rpc_version_u32 rpc_version1 = 1
rpc_version_u32 rpc_version2 = 2
rpc_version_u32 unknown_version = 255

-- PROGRAM_VERSION
pub data ProgramVersion : Type 0 where
  no_program_version program_version2 program_version3 : ProgramVersion

abbrev pub program_version_u32 : ProgramVersion → ℕ
program_version_u32 no_program_version = minus_one
program_version_u32 program_version2 = 2
program_version_u32 program_version3 = 3

-- RPC_PROGRAM
pub data RpcProgram : Type 0 where
  portmap nfs mount nlm : RpcProgram

abbrev pub rpc_program_u32 : RpcProgram → ℕ
rpc_program_u32 portmap = 100_000
rpc_program_u32 nfs = 100_003
rpc_program_u32 mount = 100_005
rpc_program_u32 nlm = 100_021

-- PROTOCOL_TYPE
pub data ProtocolType : Type 0 where
  ipproto_tcp ipproto_udp : ProtocolType

abbrev pub protocol_type_u32 : ProtocolType → ℕ
protocol_type_u32 ipproto_tcp = 6
protocol_type_u32 ipproto_udp = 17

-- MOUNT_VER
pub data MountVer : Type 0 where
  no_mount_ver version3 : MountVer

abbrev pub mount_ver_u32 : MountVer → ℕ
mount_ver_u32 no_mount_ver = minus_one
mount_ver_u32 version3 = 3

-- MOUNTPROG
pub data MountProg : Type 0 where
  mountproc3_null mountproc3_mnt mountproc3_dump mountproc3_umnt mountproc3_umntall
        mountproc3_export :
      MountProg

abbrev pub mount_prog_u32 : MountProg → ℕ
mount_prog_u32 mountproc3_null = 0
mount_prog_u32 mountproc3_mnt = 1
mount_prog_u32 mountproc3_dump = 2
mount_prog_u32 mountproc3_umnt = 3
mount_prog_u32 mountproc3_umntall = 4
mount_prog_u32 mountproc3_export = 5

-- MOUNTREPLY
pub data MountReply : Type 0 where
  mnt3_ok mnt3err_perm mnt3err_noent mnt3err_io mnt3err_acces mnt3err_notdir mnt3err_inval
        mnt3err_nametoolong mnt3err_notsupp mnt3err_serverfault :
      MountReply

abbrev pub mount_reply_u32 : MountReply → ℕ
mount_reply_u32 mnt3_ok = 0
mount_reply_u32 mnt3err_perm = 1
mount_reply_u32 mnt3err_noent = 2
mount_reply_u32 mnt3err_io = 5
mount_reply_u32 mnt3err_acces = 13
mount_reply_u32 mnt3err_notdir = 20
mount_reply_u32 mnt3err_inval = 22
mount_reply_u32 mnt3err_nametoolong = 63
mount_reply_u32 mnt3err_notsupp = 10_004
mount_reply_u32 mnt3err_serverfault = 10_006

-- PORTMAPPER of PortMapperContext.hpp
pub data PortMapperProc : Type 0 where
  pmapproc_null pmapproc_set pmapproc_unset pmapproc_getport pmapproc_dump pmapproc_callit :
      PortMapperProc

abbrev pub port_mapper_proc_u32 : PortMapperProc → ℕ
port_mapper_proc_u32 pmapproc_null = 0
port_mapper_proc_u32 pmapproc_set = 1
port_mapper_proc_u32 pmapproc_unset = 2
port_mapper_proc_u32 pmapproc_getport = 3
port_mapper_proc_u32 pmapproc_dump = 4
port_mapper_proc_u32 pmapproc_callit = 5

-- RPC_REPLY, RPC_REJECTED, RPC_SUCCESS and RPC_AUTH_ERROR of rpc.hpp
pub data RpcReply : Type 0 where
  msg_accepted msg_denied : RpcReply

abbrev pub rpc_reply_u32 : RpcReply → ℕ
rpc_reply_u32 msg_accepted = 0
rpc_reply_u32 msg_denied = 1

pub data RpcRejected : Type 0 where
  rpc_mismatch auth_error : RpcRejected

abbrev pub rpc_rejected_u32 : RpcRejected → ℕ
rpc_rejected_u32 rpc_mismatch = 0
rpc_rejected_u32 auth_error = 1

pub data RpcSuccess : Type 0 where
  success prog_unavail prog_mismatch proc_unavail garbage_args system_err : RpcSuccess

abbrev pub rpc_success_u32 : RpcSuccess → ℕ
rpc_success_u32 success = 0
rpc_success_u32 prog_unavail = 1
rpc_success_u32 prog_mismatch = 2
rpc_success_u32 proc_unavail = 3
rpc_success_u32 garbage_args = 4
rpc_success_u32 system_err = 5

pub data RpcAuthError : Type 0 where
  auth_ok auth_badcred auth_rejectedcred auth_badverf auth_rejectedverf auth_tooweak
        auth_invalidresp auth_failed auth_kerb_generic auth_timeexpire auth_tkt_file auth_decode
        auth_net_addr rpcsec_gss_credproblem rpcsec_gss_ctxproblem :
      RpcAuthError

abbrev pub rpc_auth_error_u32 : RpcAuthError → ℕ
rpc_auth_error_u32 auth_ok = 0
rpc_auth_error_u32 auth_badcred = 1
rpc_auth_error_u32 auth_rejectedcred = 2
rpc_auth_error_u32 auth_badverf = 3
rpc_auth_error_u32 auth_rejectedverf = 4
rpc_auth_error_u32 auth_tooweak = 5
rpc_auth_error_u32 auth_invalidresp = 6
rpc_auth_error_u32 auth_failed = 7
rpc_auth_error_u32 auth_kerb_generic = 8
rpc_auth_error_u32 auth_timeexpire = 9
rpc_auth_error_u32 auth_tkt_file = 10
rpc_auth_error_u32 auth_decode = 11
rpc_auth_error_u32 auth_net_addr = 12
rpc_auth_error_u32 rpcsec_gss_credproblem = 13
rpc_auth_error_u32 rpcsec_gss_ctxproblem = 14
