-- ===== src/Call.antt =====
-- What PortMapperContext::getPort, MountContext::makeMountCall, MountContext::makeUmountCall and
-- Context::Inode::lookup have in common: each builds a request in an array, sends it on the context's
-- socket, receives the reply into another array and strips its header.
pub mod Answer
pub mod Request
pub mod Message
use nfs_client_simulator.Common.{ℕ, ◌-◌, ◌%◌, ◌^◌, ◌+◌, List, Outcome, ok, ◌>>=◌, take, tabulate}
use nfs_client_simulator.Xdr.{Buffer, Pointer, copy, emit, xdr_encode_u32, xdr_encode_last_fragment}
use nfs_client_simulator.Context.{Client}
use nfs_client_simulator.Context.Send.{send}
use nfs_client_simulator.Context.Receive.{receive}
use nfs_client_simulator.Rpc.{add_auth_sys, parse_and_strip_rpc}

-- The state that calls share: the context with its system, the counter of getMonotonic, and the name
-- that getSelfFQDN has looked up once.
pub record World : Type 0 where
  pub client : Client
  pub sequential : ℕ
  pub self_fqdn : List ℕ

-- The bytes that `new uchar_t[…]` finds in the three arrays of a call.
pub record Memory : Type 0 where
  pub request : ℕ → ℕ
  pub credentials : ℕ → ℕ
  pub response : ℕ → ℕ

-- `new uchar_t[size]`
abbrev pub new_array : ℕ → (ℕ → ℕ) → Buffer
new_array size garbage = tabulate garbage 0 size

-- `memcpy(&dst[0], src, n)` as a write of n bytes.
abbrev pub write_bytes : List ℕ → ℕ → Buffer → Outcome (ℕ × Buffer)
write_bytes bytes n dst = do dst' ← copy dst bytes; ok (n, dst')

-- The credential is built in an array of its own and copied behind the header.
unfoldable pub add_credential : ℕ → List ℕ → Buffer → ℕ × Buffer → Outcome ((ℕ × Buffer) × ℕ)
add_credential sequential self_fqdn wire_cred s = do
  (cred_size, wire_cred', sequential') ← add_auth_sys sequential self_fqdn wire_cred
  s' ← emit (write_bytes (take cred_size wire_cred') cred_size) s
  ok (s', sequential')

-- The record mark: the size without the mark itself, and the bit of the last fragment.
unfoldable pub seal_request : ℕ × Buffer → Outcome Buffer
seal_request (request_size, wire_request) = do
  (_, wire₁) ← xdr_encode_u32 wire_request ((request_size + 2 ^ 64 - 4) % 2 ^ 64 % 2 ^ 32)
  xdr_encode_last_fragment wire₁

-- From the credential on: `put_args` appends the arguments of the procedure. The results are the size
-- and the array of the request, and the counter.
unfoldable pub build_request :
    ℕ
    → List ℕ
    → Buffer
    → (ℕ × Buffer → Outcome (ℕ × Buffer))
    → ℕ × Buffer
    → Outcome (ℕ × Buffer × ℕ)
build_request sequential self_fqdn wire_cred put_args s₂ = do
  (s₃, sequential') ← add_credential sequential self_fqdn wire_cred s₂
  s₄ ← put_args s₃
  wire_request ← seal_request s₄
  ok (s₄.0, wire_request, sequential')

-- The results of send and receive are not looked at. `space` is the size of the array for the reply.
unfoldable pub exchange : World → Memory → ℕ → ℕ → Buffer → ℕ → Outcome (Pointer × World)
exchange w memory space request_size wire_request xid = do
  (_, client₁) ← send w.client wire_request request_size
  (_, response_size, wire_response, client₂) ← receive client₁ (new_array space memory.response) 0
  payload ← parse_and_strip_rpc wire_response response_size xid
  ok (payload, record w { client = client₂ })
