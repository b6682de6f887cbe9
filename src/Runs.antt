-- ===== src/Runs.antt =====
-- Sequences of calls: what connecting, sending and receiving keep of a client, every call keeps, and each takes one
-- or two numbers of the counter.
pub mod Calls
pub mod Alone
pub mod Sockets
pub mod Transactions
pub mod Late
pub mod Zero
pub mod Dated
use nfs_client_simulator.Common.{
  ℕ, ◌+◌, ◌-◌, ◌%◌, ◌^◌, ◌≤◌, ◌≡◌, refl, ◌∙◌, List, [], ◌∷◌, Outcome, ok, ◌>>=◌, Ensures,
  Ensures-ok, Ensures-bind, Ensures-then, Ensures-if, ◌==◌, not, arith, Option,
}
use nfs_client_simulator.Common.Int.{ℤ, minus_one, eqb}
use nfs_client_simulator.GenericEnums.{
  AuthType, auth_type_u32, auth_sys, MountProg, mountproc3_mnt, mountproc3_umnt, call, portmap,
  mount, nfs, rpc_version2, program_version3, port_mapper_proc_u32, pmapproc_getport,
  mount_prog_u32,
}
use nfs_client_simulator.NfsEnums.{nfs_prog_u32, nfsproc3_lookup}
use nfs_client_simulator.Utils.{get_monotonic}
use nfs_client_simulator.Xdr.{Buffer}
use nfs_client_simulator.Rpc.{make_rpc, put_u32, parse_and_strip_rpc, encode_auth_sys, add_auth_sys}
use nfs_client_simulator.Context.{Client, set_mount_port, set_nfs_port}
use nfs_client_simulator.Context.Connection.{
  connect_port, connect_port_mapper_port, connect_mount_port, connect_nfs_port,
}
use nfs_client_simulator.Context.Send.{send}
use nfs_client_simulator.Context.Receive.{receive}
use nfs_client_simulator.Call.{
  World, Memory, new_array, write_bytes, add_credential, seal_request, build_request, exchange,
}
use nfs_client_simulator.PortMapper.{
  PortMapperContext, put_mapping, read_port, get_port_call, get_port,
}
use nfs_client_simulator.Mount.{
  MountContext, put_path, read_mount_reply, begin_mount_call, finish_mount_call, make_mount_call,
  make_umount_call,
}
use nfs_client_simulator.Inode.{Inode, put_dirop, read_lookup_reply, lookup_call, lookup}

-- A relation between a client and a later one, which connecting, sending and receiving keep.
pub record IsKept (R : Client → Client → Type 0) : Type 0 where
  pub same : (c : Client) → R c c
  pub chain : (a b c : Client) → R a b → R b c → R a c
  pub ported :
      (c : Client) (port : ℤ) → R c (record c { context = record c.context { port = port } })
  pub connects : (c : Client) (port : ℤ) → Ensures (λ (r, c'). R c c') (connect_port c port)
  pub sends :
      (c : Client) (wire : Buffer) (size : ℕ) → Ensures (λ (r, c'). R c c') (send c wire size)
  pub receives :
      (c : Client) (wire : Buffer) (size : ℕ)
      → Ensures (λ (r, size', wire', c'). R c c') (receive c wire size)
  pub mount_port_set :
      (c : Client) (port : ℕ) → R c (record c { context = set_mount_port c.context port })
  pub nfs_port_set :
      (c : Client) (port : ℕ) → R c (record c { context = set_nfs_port c.context port })

-- A world after one call: between one and two numbers have been taken from the counter.
pub record Advanced (R : Client → Client → Type 0) (w w' : World) : Type 0 where
  pub related : R w.client w'.client
  pub count : ℕ
  pub some_taken : 1 ≤ count
  pub few_taken : count ≤ 2
  pub counted : w'.sequential ≡ (w.sequential + count) % 2 ^ 64

-- The counter in the results of the steps that build a request.
abbrev pub CountedLast : ℕ → ℕ × Buffer × ℕ → Type 0
CountedLast sequential (size, wire, sequential') = sequential' ≡ (sequential + 1) % 2 ^ 64

abbrev CountedSecond : ℕ → (ℕ × Buffer) × ℕ → Type 0
CountedSecond sequential (s, sequential') = sequential' ≡ (sequential + 1) % 2 ^ 64

add_auth_sys-CountedLast :
    (sequential : ℕ) (self_fqdn : List ℕ) (wire : Buffer)
    → Ensures (CountedLast sequential) (add_auth_sys sequential self_fqdn wire)
unfolding add_auth_sys get_monotonic
add_auth_sys-CountedLast sequential self_fqdn wire =
    Ensures-bind (encode_auth_sys (sequential % 2 ^ 32) self_fqdn wire)
      λ (size, wire'). Ensures-ok refl

add_credential-CountedSecond :
    (sequential : ℕ) (self_fqdn : List ℕ) (cred : Buffer) (s : ℕ × Buffer)
    → Ensures (CountedSecond sequential) (add_credential sequential self_fqdn cred s)
unfolding add_credential
add_credential-CountedSecond sequential self_fqdn cred s =
    Ensures-then (add_auth_sys-CountedLast sequential self_fqdn cred)
      λ (size, cred', sequential') e. Ensures-bind _ λ s'. Ensures-ok e

pub build_request-CountedLast :
    (sequential : ℕ) (self_fqdn : List ℕ) (cred : Buffer)
    (put_args : ℕ × Buffer → Outcome (ℕ × Buffer)) (s : ℕ × Buffer)
    → Ensures (CountedLast sequential) (build_request sequential self_fqdn cred put_args s)
unfolding build_request
build_request-CountedLast sequential self_fqdn cred put_args s =
    Ensures-then (add_credential-CountedSecond sequential self_fqdn cred s) λ (s₃, sequential') e.
      Ensures-bind (put_args s₃) λ s₄. Ensures-bind (seal_request s₄) λ wire. Ensures-ok e

-- One call that returns, on whatever arguments.
pub data Call : World → World → Type 0 where
  port_asked :
      (w w' : World) (m : PortMapperContext) (memory : Memory) (program version port : ℕ)
      → get_port m w memory program version ≡ ok (port, w')
      → Call w w'
  mounted :
      (w w' : World) (m m' : MountContext) (memory : Memory) (remote : List ℕ) (version : ℕ)
      (auth : AuthType)
      → make_mount_call m w memory remote version auth ≡ ok (m', w')
      → Call w w'
  unmounted :
      (w w' : World) (m m' : MountContext) (memory : Memory) (remote : List ℕ) (version : ℕ)
      (auth : AuthType)
      → make_umount_call m w memory remote version auth ≡ ok (m', w')
      → Call w w'
  looked_up :
      (w w' : World) (memory : Memory) (child : List ℕ) (parent : Inode) (auth : AuthType)
      (handle : Option (List ℕ))
      → lookup w memory child parent auth ≡ ok (handle, w')
      → Call w w'

-- Calls in a row, with the number that the counter has at the start of each, which is its transaction. Between two
-- of them the ports may be set.
pub data Run : World → List ℕ → World → Type 0 where
  start : (w : World) → Run w [] w
  called :
      (w w₁ w' : World) (xids xids' : List ℕ)
      → Run w xids w₁
      → Call w₁ w'
      → xids' ≡ (w₁.sequential % 2 ^ 32) ∷ xids
      → Run w xids' w'
  mount_port_told :
      (w w₁ : World) (xids : List ℕ) (port : ℕ)
      → Run w xids w₁
      → Run w xids (record w₁ {
        client = record w₁.client { context = set_mount_port w₁.client.context port };
      })
  nfs_port_told :
      (w w₁ : World) (xids : List ℕ) (port : ℕ)
      → Run w xids w₁
      → Run w xids (record w₁ {
        client = record w₁.client { context = set_nfs_port w₁.client.context port };
      })
