-- ===== src/Call/Message.antt =====
-- The messages of calls, from the header to the arguments.
use nfs_client_simulator.Common.{
  ℕ, ◌+◌, ◌%◌, ◌^◌, ◌≤◌, ◌<◌, ◌≡◌, refl, ◌∙◌, List, ◌++◌, Outcome, ok, fault, length, drop, arith,
  drop-drop, length-append, length-drop, length-tabulate, le→leb,
}
use nfs_client_simulator.GenericEnums.{
  RpcVersion, rpc_version_u32, RpcProgram, rpc_program_u32, ProgramVersion, program_version_u32,
  call,
}
use nfs_client_simulator.Xdr.{Buffer}
use nfs_client_simulator.Xdr.Encode.{be32}
use nfs_client_simulator.Xdr.Emit.{Emits}
use nfs_client_simulator.Rpc.{put_u32, make_rpc}
use nfs_client_simulator.Rpc.Call.{call_header, put_u32-Emits, make_rpc-Written, auth_sys_bytes}
use nfs_client_simulator.Call.{Memory, new_array, build_request}
use nfs_client_simulator.Call.Request.{
  record_of, auth_sys_small, build_request-record, build_request-overrun,
}

-- The words of a call behind the place of the record mark.
abbrev pub call_front : ℕ → RpcVersion → RpcProgram → ProgramVersion → ℕ → List ℕ
call_front xid v p pv procedure =
    be32 xid
    ++ (be32 0
        ++ (be32 (rpc_version_u32 v)
            ++ (be32 (rpc_program_u32 p) ++ (be32 (program_version_u32 pv) ++ be32 procedure))))

module _ (xid : ℕ) (v : RpcVersion) (p : RpcProgram) (pv : ProgramVersion) (procedure : ℕ)
    (buf : Buffer) (c : length buf ≡ 1024) where
  pub make_rpc_room :
      make_rpc xid call v p pv buf ≡ ok (24, call_header xid call v p pv ++ drop 24 buf)
  make_rpc_room =
      make_rpc-Written xid call v p pv buf (omega arith) ∙ rw (le→leb 24 (length buf) (omega arith))

  pub put_procedure_room :
      put_u32 procedure (24, call_header xid call v p pv ++ drop 24 buf)
      ≡ ok (28, be32 0 ++ (call_front xid v p pv procedure ++ drop 28 buf))
  put_procedure_room =
      let left : length (drop 24 buf) ≡ 1000 = omega (arith, length-drop 24 buf) in
      (put_u32-Emits {n = 24} procedure).emits (call_header xid call v p pv) (drop 24 buf) refl
        (omega arith)
      ∙ rw (le→leb 4 (length (drop 24 buf)) (omega arith), drop-drop 24 4 buf)

-- The message of a call: its words, the credential with the stamp, and the arguments.
abbrev pub call_message :
    ℕ → RpcVersion → RpcProgram → ProgramVersion → ℕ → ℕ → List ℕ → List ℕ → List ℕ
call_message xid v p pv procedure stamp self_fqdn args =
    call_front xid v p pv procedure ++ (auth_sys_bytes stamp self_fqdn ++ args)

-- The array of the request once it has been built.
abbrev pub request_array : List ℕ → (ℕ → ℕ) → Buffer
request_array message garbage =
    record_of message ++ drop (4 + length message) (new_array 1024 garbage)

-- After the header of a call, build_request leaves in the array one record: the mark of the last
-- fragment with the length of the message, and the message, which is the header, the credential and the
-- arguments that `put_args` writes. The host name has at most 255 bytes, and the record at most 1024.
pub build_request-call_message :
    (xid : ℕ) (v : RpcVersion) (p : RpcProgram) (pv : ProgramVersion) (procedure sequential : ℕ)
    (self_fqdn : List ℕ) (memory : Memory) {put_args : ℕ × Buffer → Outcome (ℕ × Buffer)}
    {args : List ℕ}
    → let credential = auth_sys_bytes (sequential % 2 ^ 32) self_fqdn in
      let message = call_message xid v p pv procedure (sequential % 2 ^ 32) self_fqdn args in
      length self_fqdn ≤ 255
      → 4 + length message ≤ 1024
      → Emits (28 + length credential) put_args args
      → build_request sequential self_fqdn (new_array 1024 memory.credentials) put_args (
        28,
        be32 0 ++ (call_front xid v p pv procedure ++ drop 28 (new_array 1024 memory.request)),
      )
        ≡ ok (4 + length message, request_array message memory.request, (sequential + 1) % 2 ^ 64)
build_request-call_message xid v p pv procedure sequential self_fqdn memory {put_args = put_args}
      {args = args} short few emits =
    built ∙ rw (drop-drop 28 (length credential + length args) request, size)
  where
    request : Buffer
    request = new_array 1024 memory.request

    credential : List ℕ
    credential = auth_sys_bytes (sequential % 2 ^ 32) self_fqdn

    left : length (drop 28 request) ≡ 996
    left = omega (arith, length-drop 28 request, length-tabulate memory.request 0 1024)

    size :
        28 + (length credential + length args)
        ≡ 4 + length (call_front xid v p pv procedure ++ (credential ++ args))
    size = omega (
      arith,
      length-append (call_front xid v p pv procedure) (credential ++ args),
      length-append credential args,
    )

    built :
        build_request sequential self_fqdn
          (new_array 1024 memory.credentials)
          put_args
          (28, be32 0 ++ (call_front xid v p pv procedure ++ drop 28 request))
        ≡ ok (
          4 + length (call_front xid v p pv procedure ++ (credential ++ args)),
          record_of (call_front xid v p pv procedure ++ (credential ++ args))
              ++ drop (length credential + length args) (drop 28 request),
          (sequential + 1) % 2 ^ 64,
        )
    built =
        build_request-record sequential self_fqdn (new_array 1024 memory.credentials) short
          (length-tabulate memory.credentials 0 1024) (call_front xid v p pv procedure)
          (drop 28 request) emits (omega (arith, left)) (omega (arith, left, few, size))

-- If the record is longer, build_request writes past the end of the array.
pub build_request-too_long :
    (xid : ℕ) (v : RpcVersion) (p : RpcProgram) (pv : ProgramVersion) (procedure sequential : ℕ)
    (self_fqdn : List ℕ) (memory : Memory) {put_args : ℕ × Buffer → Outcome (ℕ × Buffer)}
    {args : List ℕ}
    → let credential = auth_sys_bytes (sequential % 2 ^ 32) self_fqdn in
      let message = call_message xid v p pv procedure (sequential % 2 ^ 32) self_fqdn args in
      length self_fqdn ≤ 255
      → 1024 < 4 + length message
      → Emits (28 + length credential) put_args args
      → build_request sequential self_fqdn (new_array 1024 memory.credentials) put_args (
        28,
        be32 0 ++ (call_front xid v p pv procedure ++ drop 28 (new_array 1024 memory.request)),
      )
        ≡ fault
build_request-too_long xid v p pv procedure sequential self_fqdn memory {args = args} short long
      emits =
    let request : Buffer = new_array 1024 memory.request in
    let credential = auth_sys_bytes (sequential % 2 ^ 32) self_fqdn in
    let left : length (drop 28 request) ≡ 996 =
      omega (arith, length-drop 28 request, length-tabulate memory.request 0 1024) in
    let small = auth_sys_small (sequential % 2 ^ 32) self_fqdn short in
    build_request-overrun sequential self_fqdn (new_array 1024 memory.credentials) short
      (length-tabulate memory.credentials 0 1024) (call_front xid v p pv procedure)
      (drop 28 request) emits (omega (arith, left)) (omega (arith, left, small))
      (omega (
        arith,
        left,
        long,
        length-append (call_front xid v p pv procedure) (credential ++ args),
        length-append credential args,
      ))

pub length-request_array :
    (message : List ℕ) (garbage : ℕ → ℕ)
    → 4 + length message ≤ length (request_array message garbage)
length-request_array message garbage =
    omega (arith, length-append message (drop (4 + length message) (new_array 1024 garbage)))
