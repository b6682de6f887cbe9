-- ===== src/Inode/Lookup.antt =====
-- What lookup sends, and what it can return.
use nfs_client_simulator.Common.{
  ℕ, ◌+◌, ◌%◌, ◌^◌, ◌≤◌, ◌<◌, ◌≡◌, refl, List, ◌++◌, ok, ◌>>=◌, some, length, arith, length-append,
  length-tabulate,
}
use nfs_client_simulator.Common.Int.{ℤ}
use nfs_client_simulator.GenericEnums.{auth_sys, rpc_version2, program_version3, nfs}
use nfs_client_simulator.Utils.{get_monotonic}
use nfs_client_simulator.Xdr.{emit, xdr_encode_n_bytes}
use nfs_client_simulator.Xdr.Encode.{be32, padding, padding-aligns, xdr_encode_n_bytes-Written}
use nfs_client_simulator.Xdr.Emit.{Emits, emit-Emits, then-Emits}
use nfs_client_simulator.Rpc.Call.{auth_sys_bytes, string-Emits, align-Emits}
use nfs_client_simulator.Context.{Client}
use nfs_client_simulator.Context.Connection.{connect_nfs_port}
use nfs_client_simulator.Call.{World, Memory, new_array, exchange}
use nfs_client_simulator.Call.Request.{auth_sys_small}
use nfs_client_simulator.Call.Message.{
  call_message, request_array, build_request-call_message, make_rpc_room, put_procedure_room,
}
use nfs_client_simulator.Mount.Wire.{auth_sys-aligns}
use nfs_client_simulator.Inode.{
  Inode, put_dirop, dereference, read_lookup_reply, lookup_call, lookup,
}

-- The handle and the name. The handle is not padded; behind the name there are as many zeros as make the length of
-- both a multiple of four.
abbrev pub dirop : List ℕ → List ℕ → List ℕ
dirop handle child =
    be32 (length handle)
    ++ handle
    ++ (be32 (length child) ++ child ++ padding (length handle + length child) 4)

handle-Emits :
    {n : ℕ} (handle : List ℕ)
    → length handle + 4 < 2 ^ 32
    → Emits n (λ s. emit (λ p. xdr_encode_n_bytes p handle) s) (be32 (length handle) ++ handle)
handle-Emits {n} handle h =
    emit-Emits n (λ p. xdr_encode_n_bytes p handle) (be32 (length handle) ++ handle)
      (λ buf. xdr_encode_n_bytes-Written buf handle (omega arith))

pub put_dirop-Emits :
    {n : ℕ} (parent : Inode) (handle child : List ℕ)
    → parent.self_handle ≡ some handle
    → n % 4 ≡ 0
    → length handle + 4 < 2 ^ 32
    → length child + 4 < 2 ^ 32
    → Emits n (put_dirop parent child) (dirop handle child)
unfolding put_dirop dereference
put_dirop-Emits {n} parent handle child e h small name =
    rw (e, put_dirop)
      (then-Emits (handle-Emits handle small) (
        then-Emits (string-Emits child (omega arith))
          (align-Emits (length handle + length child) (omega (arith, h)))))

-- The message of a lookup, with the next two sequential numbers as its transaction and its stamp.
abbrev pub lookup_message : World → List ℕ → List ℕ → List ℕ
lookup_message w handle child =
    call_message (w.sequential % 2 ^ 32) rpc_version2 nfs program_version3 3
      ((w.sequential + 1) % 2 ^ 64 % 2 ^ 32) w.self_fqdn (dirop handle child)

pub length-lookup_message :
    (w : World) (handle child : List ℕ)
    → length (lookup_message w handle child)
      ≡ 32
        + length (auth_sys_bytes ((w.sequential + 1) % 2 ^ 64 % 2 ^ 32) w.self_fqdn)
        + length handle
        + length child
        + length (padding (length handle + length child) 4)
length-lookup_message w handle child = omega (
  arith,
  length-append (auth_sys_bytes ((w.sequential + 1) % 2 ^ 64 % 2 ^ 32) w.self_fqdn)
      (dirop handle child),
  length-append handle (be32 (length child) ++ child ++ padding (length handle + length child) 4),
  length-append child (padding (length handle + length child) 4),
)

-- A handle of at most 64 bytes and a name of at most 255 fit.
pub lookup_fits :
    (w : World) (handle child : List ℕ)
    → length w.self_fqdn ≤ 255
    → length handle ≤ 64
    → length child ≤ 255
    → 4 + length (lookup_message w handle child) ≤ 1024
lookup_fits w handle child short h k =
    let credential = auth_sys_small ((w.sequential + 1) % 2 ^ 64 % 2 ^ 32) w.self_fqdn short in
    let pad = (padding-aligns (length handle + length child) 4 (omega arith)).1 in
    let size = length-lookup_message w handle child in omega (arith, credential, pad, size, h, k)

-- lookup with AUTH_SYS in a directory that has a handle, once the NFS port is connected: it hands a call
-- of procedure 3 of NFS to `exchange` in one record, with the handle and the name as its arguments. The handle is
-- not padded, so that the length of the name follows it directly. The host name has at most 255 bytes, and the
-- record at most 1024.
pub lookup-exchange :
    (w : World) (client : Client) (r : ℤ) (memory : Memory) (handle child : List ℕ) (parent : Inode)
    → length w.self_fqdn ≤ 255
    → 4 + length (lookup_message w handle child) ≤ 1024
    → parent.self_handle ≡ some handle
    → connect_nfs_port w.client ≡ ok (r, client)
    → let xid = w.sequential % 2 ^ 32 in
      let sequential₁ = (w.sequential + 1) % 2 ^ 64 in
      let message = lookup_message w handle child in
      lookup w memory child parent auth_sys ≡ (do
        (payload, w') ←
            exchange
              (record w { client = client; sequential = (sequential₁ + 1) % 2 ^ 64 })
              memory
              1024
              (4 + length message)
              (request_array message memory.request)
              xid
        l_handle ← read_lookup_reply payload
        ok (l_handle, w'))
unfolding lookup lookup_call get_monotonic
lookup-exchange w client r memory handle child parent short fits held connected =
    rw
      (
        connected,
        make_rpc_room (w.sequential % 2 ^ 32) rpc_version2 nfs program_version3 3
            (new_array 1024 memory.request) (length-tabulate memory.request 0 1024),
        put_procedure_room (w.sequential % 2 ^ 32) rpc_version2 nfs program_version3 3
            (new_array 1024 memory.request) (length-tabulate memory.request 0 1024),
        build_request-call_message (w.sequential % 2 ^ 32) rpc_version2 nfs program_version3 3
            ((w.sequential + 1) % 2 ^ 64) w.self_fqdn memory {args = dirop handle child} short fits
            (put_dirop-Emits parent handle child held
              (omega (arith, auth_sys-aligns ((w.sequential + 1) % 2 ^ 64 % 2 ^ 32) w.self_fqdn))
              (let size = length-lookup_message w handle child in omega (arith, fits, size))
              (let size = length-lookup_message w handle child in omega (arith, fits, size))),
        lookup,
        lookup_call,
      )
      refl
