-- ===== src/Rpc.antt =====
-- rpc.hpp: the header of a call, its AUTH_SYS credential, and the header of a reply.
pub mod Call
pub mod Reply
use nfs_client_simulator.Common.{
  ℕ, ◌+◌, ◌-◌, ◌%◌, ◌^◌, Option, none, some, List, Outcome, ok, ◌>>=◌, ◌>>◌, dassert, ◌==◌,
  if◌then◌else◌,
}
use nfs_client_simulator.GenericEnums.{
  RpcType, rpc_type_u32, RpcVersion, rpc_version_u32, RpcProgram, rpc_program_u32, ProgramVersion,
  program_version_u32, auth_type_u32, auth_sys, auth_none, rpc_reply_u32, msg_denied,
  rpc_rejected_u32, rpc_mismatch, auth_error, rpc_success_u32, success, prog_mismatch,
}
use nfs_client_simulator.Utils.{get_monotonic}
use nfs_client_simulator.Xdr.{
  Buffer, Pointer, at, advance, emit, xdr_encode_u32, xdr_encode_string, xdr_encode_align,
  xdr_decode_u32,
}

-- `size += xdr_encode_u32(&wireBytes[size], v)`
abbrev pub put_u32 : ℕ → ℕ × Buffer → Outcome (ℕ × Buffer)
put_u32 v = emit (λ p. xdr_encode_u32 p v)

-- The first word holds the place of the size of the message.
unfoldable pub make_rpc :
    ℕ → RpcType → RpcVersion → RpcProgram → ProgramVersion → Buffer → Outcome (ℕ × Buffer)
make_rpc xid rpc_type rpc_version rpc_program program_version wire_bytes = do
  s₁ ← put_u32 0 (0, wire_bytes)
  s₂ ← put_u32 xid s₁
  s₃ ← put_u32 (rpc_type_u32 rpc_type) s₂
  s₄ ← put_u32 (rpc_version_u32 rpc_version) s₃
  s₅ ← put_u32 (rpc_program_u32 rpc_program) s₄
  put_u32 (program_version_u32 program_version) s₅

-- The payload of the credential: the stamp, the name of the machine, UID 0, GID 0, and one GID, 0.
unfoldable pub put_payload : ℕ → List ℕ → ℕ × Buffer → Outcome (ℕ × Buffer)
put_payload auth_stamp auth_machine s₂ = do
  s₃ ← put_u32 auth_stamp s₂
  s₄ ← emit (λ p. xdr_encode_string p auth_machine) s₃
  s₅ ← emit (λ p. xdr_encode_align p s₄.0 4) s₄
  s₆ ← put_u32 0 s₅
  s₇ ← put_u32 0 s₆
  s₈ ← put_u32 1 s₇
  put_u32 0 s₈

-- The verifier, of type AUTH_NONE and of length 0.
unfoldable pub put_verifier : ℕ × Buffer → Outcome (ℕ × Buffer)
put_verifier s₀ = do s₁ ← put_u32 (auth_type_u32 auth_none) s₀; put_u32 0 s₁

-- The length of the payload is written into its place once it is known; uint32_t subtraction.
unfoldable pub encode_auth_sys : ℕ → List ℕ → Buffer → Outcome (ℕ × Buffer)
encode_auth_sys auth_stamp auth_machine wire_bytes = do
  s₁ ← put_u32 (auth_type_u32 auth_sys) (0, wire_bytes)
  let cred_payload_size_offset = s₁.0
  s₂ ← put_u32 0 s₁
  let cred_payload_begin = s₂.0
  (auth_size, wire₁) ← put_payload auth_stamp auth_machine s₂
  (_, wire₂) ←
      at wire₁ cred_payload_size_offset
        (λ p. xdr_encode_u32 p ((auth_size + 2 ^ 32 - cred_payload_begin) % 2 ^ 32))
  put_verifier (auth_size, wire₂)

-- addAuthSys. The stamp is the next sequential number, cut to 32 bits; beside the size and the array
-- the counter is a result.
unfoldable pub add_auth_sys : ℕ → List ℕ → Buffer → Outcome (ℕ × Buffer × ℕ)
add_auth_sys sequential self_fqdn wire_bytes =
    let (value, sequential') = get_monotonic sequential in
    do
      (auth_size, wire') ← encode_auth_sys (value % 2 ^ 32) self_fqdn wire_bytes
      ok (auth_size, wire', sequential')

-- The rest of a reply of type MSG_DENIED. What is read is only logged.
unfoldable pub parse_denied : Buffer → ℕ → Outcome Pointer
parse_denied wire_response parsed_offset = do
  (rejection_type, o₁) ← xdr_decode_u32 (some wire_response) parsed_offset
  if rejection_type == rpc_rejected_u32 rpc_mismatch
      then (do
        (low, o₂) ← xdr_decode_u32 (some wire_response) o₁
        (high, o₃) ← xdr_decode_u32 (some wire_response) o₂
        ok none)
      else (do
        dassert (rejection_type == rpc_rejected_u32 auth_error)
        (auth_err, o₂) ← xdr_decode_u32 (some wire_response) o₁
        ok none)

-- The rest of any other reply. The verifier is two words that are ignored.
unfoldable pub parse_accepted : Buffer → ℕ → Outcome Pointer
parse_accepted wire_response parsed_offset = do
  (verifier_type, o₁) ← xdr_decode_u32 (some wire_response) parsed_offset
  (verifier_opague, o₂) ← xdr_decode_u32 (some wire_response) o₁
  (success_type, o₃) ← xdr_decode_u32 (some wire_response) o₂
  if success_type == rpc_success_u32 success
      then (do return_value ← advance wire_response o₃; ok (some return_value))
      else if success_type == rpc_success_u32 prog_mismatch
      then (do
        (low, o₄) ← xdr_decode_u32 (some wire_response) o₃
        (high, o₅) ← xdr_decode_u32 (some wire_response) o₄
        ok none)
      else ok none

-- parseAndStripRPC. The size is not used. A wrong message type, and a reply type that is neither, are
-- only logged.
unfoldable pub parse_and_strip_rpc : Buffer → ℕ → ℕ → Outcome Pointer
parse_and_strip_rpc wire_response response_size xid = do
  (recv_xid, o₁) ← xdr_decode_u32 (some wire_response) 0
  if recv_xid == xid
      then (do
        (rpc_type, o₂) ← xdr_decode_u32 (some wire_response) o₁
        (reply_type, o₃) ← xdr_decode_u32 (some wire_response) o₂
        if reply_type == rpc_reply_u32 msg_denied
            then parse_denied wire_response o₃
            else parse_accepted wire_response o₃)
      else ok none
