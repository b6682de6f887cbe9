-- ===== src/Server.antt =====
-- The other side: how a server reads a request, as RFC 5531 (calls), RFC 4506 (items) and RFC 1813 (arguments) have
-- it. Nothing here is code of the repository; it is what the requests of the clients are measured by.
pub mod Words
pub mod Requests
pub mod Dirop
pub mod Sent
pub mod Lookups
pub mod Ports
pub mod Exports
use nfs_client_simulator.Common.{
  ℕ, ◌+◌, ◌*◌, ◌-◌, ◌%◌, ◌^◌, List, [], ◌∷◌, Option, none, some, Bool, ◌==◌, ◌&&◌, leb, length,
  take, drop, if◌then◌else◌,
}

infixl 5 ◌>>=◌
abbrev pub ◌>>=◌ {ℓ κ} : {A : Type ℓ} {B : Type κ} → Option A → (A → Option B) → Option B
none >>= f = none
some a >>= f = f a

-- The rest of a reading is only taken where the test holds.
abbrev pub require {ℓ} : {A : Type ℓ} → Bool → Option A → Option A
require test o = if test then o else none

unfoldable pub read_word : List ℕ → Option (ℕ × List ℕ)
read_word (a ∷ b ∷ c ∷ d ∷ rest) = some (a * 2 ^ 24 + b * 2 ^ 16 + c * 2 ^ 8 + d, rest)
read_word bytes = none

-- How many bytes fill up `n` bytes to a multiple of four.
abbrev pub fill : ℕ → ℕ
fill n = (4 - n % 4) % 4

-- Bytes of a variable length that is at most `max`: the length, the bytes, and what fills them up.
unfoldable pub read_opaque : ℕ → List ℕ → Option (List ℕ × List ℕ)
read_opaque max bytes = do
  (n, rest) ← read_word bytes
  require (leb n max && leb (n + fill n) (length rest)) (some (take n rest, drop (n + fill n) rest))

-- authsys_parms, with one group.
pub record AuthSysParms : Type 0 where
  pub stamp : ℕ
  pub machine_name : List ℕ
  pub uid : ℕ
  pub gid : ℕ
  pub groups : ℕ
  pub first_group : ℕ

unfoldable pub read_parms : List ℕ → Option AuthSysParms
read_parms bytes = do
  (stamp, b₁) ← read_word bytes
  (machine_name, b₂) ← read_opaque 255 b₁
  (uid, b₃) ← read_word b₂
  (gid, b₄) ← read_word b₃
  (groups, b₅) ← read_word b₄
  (first_group, b₆) ← read_word b₅
  require (length b₆ == 0) (
      some (record {
        stamp = stamp;
        machine_name = machine_name;
        uid = uid;
        gid = gid;
        groups = groups;
        first_group = first_group;
      }))

-- A call with a credential of flavor AUTH_SYS and a verifier of flavor AUTH_NONE without a body.
pub record Request : Type 0 where
  pub xid : ℕ
  pub rpc_version : ℕ
  pub program : ℕ
  pub version : ℕ
  pub procedure : ℕ
  pub credential : AuthSysParms
  pub arguments : List ℕ

-- The credential and the verifier, and what follows.
unfoldable pub read_auth : List ℕ → Option (AuthSysParms × List ℕ)
read_auth bytes = do
  (flavor, b₁) ← read_word bytes
  (body, b₂) ← read_opaque 400 b₁
  parms ← require (flavor == 1) (read_parms body)
  (verifier, b₃) ← read_word b₂
  (verifier_body, b₄) ← read_opaque 400 b₃
  require ((verifier == 0) && (length verifier_body == 0)) (some (parms, b₄))

unfoldable pub read_call : List ℕ → Option Request
read_call bytes = do
  (xid, b₁) ← read_word bytes
  (message_type, b₂) ← read_word b₁
  (rpc_version, b₃) ← read_word b₂
  (program, b₄) ← read_word b₃
  (version, b₅) ← read_word b₄
  (procedure, b₆) ← read_word b₅
  (credential, b₇) ← read_auth b₆
  require (message_type == 0) (
      some (record {
        xid = xid;
        rpc_version = rpc_version;
        program = program;
        version = version;
        procedure = procedure;
        credential = credential;
        arguments = b₇;
      }))

-- Record marking: one fragment, the last one, that holds all the bytes.
unfoldable pub read_record : List ℕ → Option Request
read_record bytes = do
  (mark, message) ← read_word bytes
  require (mark == length message + 2 ^ 31) (read_call message)

-- The arguments of PMAPPROC_GETPORT: program, version, protocol and port.
unfoldable pub read_mapping : List ℕ → Option (ℕ × ℕ × ℕ × ℕ)
read_mapping bytes = do
  (program, b₁) ← read_word bytes
  (version, b₂) ← read_word b₁
  (protocol, b₃) ← read_word b₂
  (port, b₄) ← read_word b₃
  require (length b₄ == 0) (some (program, version, protocol, port))

-- The argument of MNT and UMNT: a path of at most 1024 bytes.
unfoldable pub read_path : List ℕ → Option (List ℕ)
read_path bytes = do (path, rest) ← read_opaque 1024 bytes; require (length rest == 0) (some path)

-- The arguments of LOOKUP: a handle of at most 64 bytes and a name, which the server takes up to 255 bytes.
unfoldable pub read_dirop : List ℕ → Option (List ℕ × List ℕ)
read_dirop bytes = do
  (handle, b₁) ← read_opaque 64 bytes
  (name, b₂) ← read_opaque 255 b₁
  require (length b₂ == 0) (some (handle, name))
