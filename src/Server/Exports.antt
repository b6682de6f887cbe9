-- ===== src/Server/Exports.antt =====
-- makeMountCall against a mount daemon that reads the request and looks the path up.
use nfs_client_simulator.Common.{
  ℕ, ◌+◌, ◌*◌, ◌%◌, ◌^◌, ◌≤◌, ◌<◌, ◌≡◌, ◌≢◌, refl, ap, subst, ◌∙◌, List, [], ◌∷◌, ◌++◌, Option,
  none, some, ok, ◌==◌, ◌&&◌, arith, length, length-append, append-nil, All,
}
use nfs_client_simulator.Common.Int.{ℤ, minus_one}
use nfs_client_simulator.GenericEnums.{
  auth_sys, rpc_version2, program_version3, mount, mountproc3_mnt,
}
use nfs_client_simulator.Xdr.Encode.{be32, padding}
use nfs_client_simulator.Xdr.Decode.{xdr_decode_u32-drop}
use nfs_client_simulator.Rpc.Reply.{done, reply_bytes}
use nfs_client_simulator.Context.{Client}
use nfs_client_simulator.Context.Connection.{connect_mount_port}
use nfs_client_simulator.Call.{World, Memory}
use nfs_client_simulator.Call.Request.{record_of}
use nfs_client_simulator.Call.Message.{request_array}
use nfs_client_simulator.Call.Answer.{Answer, asked, answered, behind_reply}
use nfs_client_simulator.Mount.{
  MountContext, set_mount_path, set_mount_prot_version, read_mount_reply, make_mount_call,
}
use nfs_client_simulator.Mount.Reply.{mount_reply, words, read_mount_reply-mount_reply}
use nfs_client_simulator.Mount.Wire.{
  xdr_string, mount_message, mount_fits, make_mount_call-exchange,
}
use nfs_client_simulator.Mount.Answer.{mount_exchanged, words_more}
use nfs_client_simulator.Server.{◌>>=◌, require, read_record, read_path}
use nfs_client_simulator.Server.Requests.{read_record-record_of}
use nfs_client_simulator.Server.Sent.{read_path-xdr_string}

-- mountres3 of RFC 1813: the handle, filled up, and the flavors that the server accepts, or MNT3ERR_NOENT.
abbrev pub mountres : Option (List ℕ × List ℕ) → List ℕ
mountres none = be32 2
mountres (some (handle, auths)) =
    be32 0
    ++ (be32 (length handle)
        ++ (handle ++ (padding (length handle) 4 ++ (be32 (length auths) ++ words auths))))

-- A path that is not exported, or a handle of at most 64 bytes and a multiple of four, and at most 200 flavors.
abbrev pub IsExport : Option (List ℕ × List ℕ) → Type 0
IsExport none = Unit {0}
IsExport (some (handle, auths)) =
    (length handle ≤ 64)
    × (length handle % 4 ≡ 0)
    × (length auths ≤ 200)
    × All (λ v. v < 2 ^ 32) auths

-- The reply of a mount daemon, version 3, with these exports to a record.
abbrev pub serve_mnt : (List ℕ → Option (List ℕ × List ℕ)) → List ℕ → Option (List ℕ)
serve_mnt exports bytes = do
  request ← read_record bytes
  path ← read_path request.arguments
  require
      ((request.rpc_version == 2)
        && (request.program == 100_005)
        && (request.version == 3)
        && (request.procedure == 1))
      (some (reply_bytes request.xid 1 (done 0) (mountres (exports path))))

-- What the context holds after the reply: behind the handle that it had, that of the export.
abbrev pub with_export : MountContext → Option (List ℕ × List ℕ) → MountContext
with_export m none = m
with_export m (some (handle, auths)) = record m { mount_handle = m.mount_handle ++ handle }

length-words : (auths : List ℕ) → length (words auths) ≡ 4 * length auths
length-words [] = omega arith
length-words (v ∷ vs) = omega (arith, length-words vs)

aligned_reply :
    (handle auths : List ℕ)
    → length handle % 4 ≡ 0
    → mountres (some (handle, auths)) ≡ mount_reply 0 handle auths []
aligned_reply handle auths h =
    let none_needed : padding (length handle) 4 ≡ [] = rw h refl in
    rw (none_needed, append-nil (words auths)) refl

read_mount_reply-mountres :
    (m : MountContext) (o : Option (List ℕ × List ℕ)) (more : List ℕ)
    → IsExport o
    → read_mount_reply m (some (mountres o ++ more)) ≡ ok (with_export m o)
unfolding read_mount_reply
read_mount_reply-mountres m none more h =
    rw
      (
        xdr_decode_u32-drop (be32 2 ++ more) 0 2 more (omega arith) (omega arith) refl,
        read_mount_reply,
      )
      refl
read_mount_reply-mountres m (some (handle, auths)) more (small, aligned, few, are_words) =
    ap (λ (bytes : List ℕ). read_mount_reply m (some (bytes ++ more)))
      (aligned_reply handle auths aligned)
    ∙ (ap (λ (bytes : List ℕ). read_mount_reply m (some bytes)) (words_more 0 handle auths [] more)
        ∙ read_mount_reply-mount_reply m 0 handle auths more (omega arith) small few are_words)

mountres-small : (o : Option (List ℕ × List ℕ)) → IsExport o → length (mountres o) ≤ 900
mountres-small none h = omega arith
mountres-small (some (handle, auths)) (small, aligned, few, are_words) =
    let none_needed : padding (length handle) 4 ≡ [] = rw aligned refl in
    rw none_needed
      (omega (arith, length-append handle (be32 (length auths) ++ words auths), length-words auths))

mnt_served :
    (exports : List ℕ → Option (List ℕ × List ℕ)) (w : World) (remote : List ℕ)
    → length w.self_fqdn ≤ 255
    → length remote ≤ 600
    → serve_mnt exports (record_of (mount_message w remote mountproc3_mnt))
      ≡ some (reply_bytes (w.sequential % 2 ^ 32) 1 (done 0) (mountres (exports remote)))
mnt_served exports w remote short path =
    rw
      (
        read_record-record_of (w.sequential % 2 ^ 32) rpc_version2 mount program_version3 1
            ((w.sequential + 1) % 2 ^ 64 % 2 ^ 32) w.self_fqdn (xdr_string remote) (omega arith)
            (omega arith) (omega arith) short
            (let fits = mount_fits w remote mountproc3_mnt short path in omega (arith, fits)),
        read_path-xdr_string remote (omega arith),
      )
      refl

-- makeMountCall with AUTH_SYS against a mount daemon that answers as serve_mnt does: if connectMountPort leaves an
-- open socket, and the system takes the request and yields the reply that serve_mnt makes of it, in pieces of any
-- size, then the context holds the handle of the export, behind the one that it had, if the path is exported, and
-- no new handle otherwise; path and version are set. The host name has at most 255 bytes, the path at most 600, and
-- the export a handle of at most 64, a multiple of four, and at most 200 flavors, numbers below 2 ^ 32.
pub make_mount_call-serve_mnt :
    (exports : List ℕ → Option (List ℕ × List ℕ)) (m : MountContext) (w : World) (client : Client)
    (r : ℤ) (memory : Memory) (remote : List ℕ) (version : ℕ) (body : List ℕ)
    (a : Answer (4 + length (mount_message w remote mountproc3_mnt)) body)
    → serve_mnt exports (record_of (mount_message w remote mountproc3_mnt)) ≡ some body
    → IsExport (exports remote)
    → length w.self_fqdn ≤ 255
    → length remote ≤ 600
    → connect_mount_port w.client ≡ ok (r, asked client a)
    → client.context.socket_fd ≢ minus_one
    → client.context.total_received < 2 ^ 64
    → make_mount_call m w memory remote version auth_sys
      ≡ ok (
        with_export (set_mount_prot_version (set_mount_path m remote) version) (exports remote),
        record w {
          client =
              answered client
                (request_array (mount_message w remote mountproc3_mnt) memory.request)
                (4 + length (mount_message w remote mountproc3_mnt))
                body
                a;
          sequential = ((w.sequential + 1) % 2 ^ 64 + 1) % 2 ^ 64;
        },
      )
make_mount_call-serve_mnt exports m w client r memory remote version body a served valid short path
      connected fd total =
    subst
      (λ (b : List ℕ).
        (a : Answer (4 + length (mount_message w remote mountproc3_mnt)) b)
        → connect_mount_port w.client ≡ ok (r, asked client a)
        → make_mount_call m w memory remote version auth_sys
          ≡ ok (
            with_export (set_mount_prot_version (set_mount_path m remote) version) (exports remote),
            record w {
              client =
                  answered client
                    (request_array (mount_message w remote mountproc3_mnt) memory.request)
                    (4 + length (mount_message w remote mountproc3_mnt)) b a;
              sequential = ((w.sequential + 1) % 2 ^ 64 + 1) % 2 ^ 64;
            },
          ))
      same
      (λ a connected.
        make_mount_call-exchange m w (asked client a) r memory remote version short
          (mount_fits w remote mountproc3_mnt short path) connected
        ∙ rw
            (
              mount_exchanged w client memory remote 1 (done 0) (mountres (exports remote)) a fd
                  (let size = mountres-small (exports remote) valid in omega (arith, size)) total
                  (omega arith) (omega arith),
              read_mount_reply-mountres (set_mount_prot_version (set_mount_path m remote) version)
                  (exports remote)
                  (behind_reply memory
                    (reply_bytes (w.sequential % 2 ^ 32) 1 (done 0) (mountres (exports remote))))
                  valid,
            )
            refl)
      a connected
  where
    same : reply_bytes (w.sequential % 2 ^ 32) 1 (done 0) (mountres (exports remote)) ≡ body
    same = let known = mnt_served exports w remote short path in cc
