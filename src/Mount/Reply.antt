-- ===== src/Mount/Reply.antt =====
-- What makeMountCall makes of the answer of the server.
use nfs_client_simulator.Common.{
  ℕ, ◌+◌, ◌*◌, ◌^◌, ◌≤◌, ◌<◌, ◌≡◌, refl, sym, ap, ◌∙◌, List, [], ◌∷◌, ◌++◌, ok, some, ◌==◌, length,
  drop, drop-append, drop-drop, arith, All, if◌then◌else◌, Bool-cases, inl, inr,
}
use nfs_client_simulator.Xdr.{Buffer, xdr_decode_u32, xdr_decode_n_bytes}
use nfs_client_simulator.Xdr.Encode.{be32}
use nfs_client_simulator.Xdr.Decode.{xdr_decode_u32-drop}
use nfs_client_simulator.Xdr.Sequences.{xdr_decode_n_bytes-drop}
use nfs_client_simulator.Mount.{MountContext, read_auths, read_mount_reply}

-- The flavors that the server accepts, in words.
abbrev pub words : List ℕ → List ℕ
words [] = []
words (v ∷ vs) = be32 v ++ words vs

read_auths-words :
    (auths : List ℕ) (buf post : List ℕ) (off : ℕ)
    → All (λ v. v < 2 ^ 32) auths
    → off + 4 * length auths < 2 ^ 32
    → drop off buf ≡ words auths ++ post
    → read_auths (length auths) (some buf) off ≡ ok (off + 4 * length auths)
unfolding read_auths
read_auths-words [] buf post off h fits e = ground arith
read_auths-words (v ∷ vs) buf post off h fits e =
    let behind : drop (off + 4) buf ≡ words vs ++ post = ground (arith, drop-drop off 4 buf) in
    rw
      (
        xdr_decode_u32-drop buf off v (words vs ++ post) (omega arith) h.0 e,
        read_auths,
        read_auths-words vs buf post (off + 4) h.1 (omega arith) behind,
      )
      (ground arith)

-- The answer to MNT: a status, and if it is 0 the handle and the flavors.
abbrev pub mount_reply : ℕ → List ℕ → List ℕ → List ℕ → List ℕ
mount_reply status handle auths post =
    be32 status
    ++ (be32 (length handle) ++ handle ++ (be32 (length auths) ++ (words auths ++ post)))

-- The answer to MNT is read as RFC 1813 has it, for a handle of at most 64 bytes, a multiple of four, and
-- at most 200 flavors: on the status 0 the handle is appended to the one that the context has, and on
-- every other status the context stays.
pub read_mount_reply-mount_reply :
    (m : MountContext) (status : ℕ) (handle auths post : List ℕ)
    → status < 2 ^ 32
    → length handle ≤ 64
    → length auths ≤ 200
    → All (λ v. v < 2 ^ 32) auths
    → read_mount_reply m (some (mount_reply status handle auths post))
      ≡ ok (if status == 0 then record m { mount_handle = m.mount_handle ++ handle } else m)
unfolding read_mount_reply
read_mount_reply-mount_reply m status handle auths post s h few a =
    elim (Bool-cases (status == 0)) [
      | inl good ↦
          rw (status_read, good, read_mount_reply, handle_read, number_read, auths_read) refl
      | inr bad ↦ rw (status_read, bad, read_mount_reply) refl
    ]
  where
    tail : List ℕ
    tail = be32 (length auths) ++ (words auths ++ post)

    wire : Buffer
    wire = be32 status ++ (be32 (length handle) ++ handle ++ tail)

    at_auths : drop (8 + length handle) wire ≡ tail
    at_auths = rw (sym (drop-drop 8 (length handle) wire)) (drop-append handle tail)

    status_read : xdr_decode_u32 (some wire) 0 ≡ ok (status, 4)
    status_read = xdr_decode_u32-drop wire 0 status _ (omega arith) s refl

    handle_read :
        xdr_decode_n_bytes (some wire) m.mount_handle 64 4
        ≡ ok (some (length handle), m.mount_handle ++ handle, 8 + length handle)
    handle_read = xdr_decode_n_bytes-drop wire 4 64 m.mount_handle handle tail (omega arith) h refl

    number_read :
        xdr_decode_u32 (some wire) (8 + length handle) ≡ ok (length auths, 8 + length handle + 4)
    number_read =
        xdr_decode_u32-drop wire (8 + length handle) (length auths) (words auths ++ post)
          (omega arith) (omega arith) at_auths

    auths_read :
        read_auths (length auths) (some wire) (8 + length handle + 4)
        ≡ ok (8 + length handle + 4 + 4 * length auths)
    auths_read =
        read_auths-words auths wire post (8 + length handle + 4) a (omega arith)
          (sym (drop-drop (8 + length handle) 4 wire) ∙ ap (drop 4) at_auths)
