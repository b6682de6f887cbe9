-- ===== src/Mount/Answer.antt =====
-- makeMountCall against a mount daemon that answers.
use nfs_client_simulator.Common.{
  ℕ, ◌+◌, ◌%◌, ◌^◌, ◌≤◌, ◌<◌, ◌≡◌, ◌≢◌, refl, ◌∙◌, List, ◌++◌, ok, aborted, none, All, ◌==◌,
  if◌then◌else◌, length, arith, append_assoc, ==_refl,
}
use nfs_client_simulator.Common.Int.{ℤ, minus_one}
use nfs_client_simulator.GenericEnums.{auth_sys, mountproc3_mnt}
use nfs_client_simulator.Rpc.Reply.{Reply, IsReply, done, results, reply_bytes}
use nfs_client_simulator.Xdr.{not_null, xdr_decode_u32}
use nfs_client_simulator.Xdr.Encode.{be32}
use nfs_client_simulator.Context.{Client}
use nfs_client_simulator.Context.Connection.{connect_mount_port}
use nfs_client_simulator.Call.{World, Memory}
use nfs_client_simulator.Call.Message.{request_array, length-request_array}
use nfs_client_simulator.Call.Answer.{Answer, asked, answered, behind_reply, exchange-reply_bytes}
use nfs_client_simulator.Mount.{
  MountContext, set_mount_path, set_mount_prot_version, read_mount_reply, make_mount_call,
}
use nfs_client_simulator.Mount.Reply.{mount_reply, words, read_mount_reply-mount_reply}
use nfs_client_simulator.Mount.Wire.{
  mount_message, mount_exchange, make_mount_call-exchange, mount_fits,
}

-- What the context is after an answer with this status and handle.
abbrev pub mounted : MountContext → List ℕ → ℕ → ℕ → List ℕ → MountContext
mounted m remote version status handle =
    let m₁ = set_mount_prot_version (set_mount_path m remote) version in
    if status == 0 then record m₁ { mount_handle = m₁.mount_handle ++ handle } else m₁

-- The exchange of a mount call, with any reply.
module _ (w : World) (client : Client) (memory : Memory) (remote : List ℕ) (message_type : ℕ)
    (reply : Reply) (post : List ℕ)
    (a : Answer
      (4 + length (mount_message w remote mountproc3_mnt))
      (reply_bytes (w.sequential % 2 ^ 32) message_type reply post)) where
  abbrev pub after_mount : World
  after_mount = record w {
    client =
        answered client (request_array (mount_message w remote mountproc3_mnt) memory.request)
          (4 + length (mount_message w remote mountproc3_mnt))
          (reply_bytes (w.sequential % 2 ^ 32) message_type reply post) a;
    sequential = ((w.sequential + 1) % 2 ^ 64 + 1) % 2 ^ 64;
  }

  pub mount_exchanged :
      client.context.socket_fd ≢ minus_one
      → length (reply_bytes (w.sequential % 2 ^ 32) message_type reply post) ≤ 1024
      → client.context.total_received < 2 ^ 64
      → IsReply reply
      → message_type < 2 ^ 32
      → mount_exchange w (asked client a) memory remote mountproc3_mnt
        ≡ ok (
          results reply (
              post
              ++ behind_reply memory (reply_bytes (w.sequential % 2 ^ 32) message_type reply post)),
          after_mount,
        )
  mount_exchanged fd small total valid ht =
      exchange-reply_bytes
        (record w { client = client; sequential = ((w.sequential + 1) % 2 ^ 64 + 1) % 2 ^ 64 })
        memory (request_array (mount_message w remote mountproc3_mnt) memory.request)
        (4 + length (mount_message w remote mountproc3_mnt)) (w.sequential % 2 ^ 32)
        (w.sequential % 2 ^ 32) message_type reply post a fd (omega arith)
        (length-request_array (mount_message w remote mountproc3_mnt) memory.request) small total
        valid (omega arith) ht
      ∙ rw (==_refl (w.sequential % 2 ^ 32)) refl

pub words_more :
    (status : ℕ) (handle auths post more : List ℕ)
    → mount_reply status handle auths post ++ more ≡ mount_reply status handle auths (post ++ more)
words_more status handle auths post more = ground (
  arith,
  append_assoc handle (be32 (length auths) ++ (words auths ++ post)) more,
  append_assoc (words auths) post more,
)

-- makeMountCall against a mount daemon that answers: if connectMountPort leaves an open socket, and the
-- system takes the request and yields a successful reply to it, in pieces of any size, then on the
-- status 0 the context holds the handle of the reply, behind the one that it had, and on every other
-- status no new handle; path and version are set. The handle has at most 64 bytes, the flavors are at most 200.
pub make_mount_call-reply_bytes :
    (m : MountContext) (w : World) (client : Client) (r : ℤ) (memory : Memory) (remote : List ℕ)
    (version flavor message_type status : ℕ) (handle auths post : List ℕ)
    (a : Answer (4 + length (mount_message w remote mountproc3_mnt)) (
      reply_bytes
        (w.sequential % 2 ^ 32)
        message_type
        (done flavor)
        (mount_reply status handle auths post)))
    → length w.self_fqdn ≤ 255
    → length remote ≤ 600
    → connect_mount_port w.client ≡ ok (r, asked client a)
    → client.context.socket_fd ≢ minus_one
    → length (
        reply_bytes
          (w.sequential % 2 ^ 32)
          message_type
          (done flavor)
          (mount_reply status handle auths post))
      ≤ 1024
    → client.context.total_received < 2 ^ 64
    → flavor < 2 ^ 32
    → message_type < 2 ^ 32
    → status < 2 ^ 32
    → length handle ≤ 64
    → length auths ≤ 200
    → All (λ v. v < 2 ^ 32) auths
    → make_mount_call m w memory remote version auth_sys
      ≡ ok (
        mounted m remote version status handle,
        after_mount w client memory remote message_type
            (done flavor)
            (mount_reply status handle auths post)
            a,
      )
make_mount_call-reply_bytes m w client r memory remote version flavor message_type status handle
      auths post a short path connected fd small total hf ht hs hh few ha =
    make_mount_call-exchange m w (asked client a) r memory remote version short
      (mount_fits w remote mountproc3_mnt short path) connected
    ∙ rw
        (
          mount_exchanged w client memory remote message_type (done flavor)
              (mount_reply status handle auths post) a fd small total hf ht,
          words_more status handle auths post (
              behind_reply memory (
                reply_bytes (w.sequential % 2 ^ 32) message_type (done flavor)
                  (mount_reply status handle auths post))),
          read_mount_reply-mount_reply (set_mount_prot_version (set_mount_path m remote) version)
              status handle auths
              (post
                ++ behind_reply memory (
                    reply_bytes (w.sequential % 2 ^ 32) message_type (done flavor)
                      (mount_reply status handle auths post)))
              hs hh few ha,
        )
        refl

pub nothing_read : (m : MountContext) → read_mount_reply m none ≡ aborted
unfolding read_mount_reply xdr_decode_u32 not_null
nothing_read m = refl

no_results :
    (reply : Reply) (post : List ℕ)
    → ((flavor : ℕ) → reply ≢ done flavor)
    → results reply post ≡ none
no_results (done flavor) post h = absurd (h flavor refl)
no_results (Reply.mismatch low high) post h = refl
no_results (Reply.auth_failed why) post h = refl
no_results (Reply.prog_versions flavor low high) post h = refl
no_results (Reply.failed flavor status) post h = refl

-- If the reply says that the call was denied or failed, makeMountCall runs into the assertion of the decoder:
-- there are no results, and their pointer is not checked.
pub make_mount_call-refused :
    (m : MountContext) (w : World) (client : Client) (r : ℤ) (memory : Memory) (remote : List ℕ)
    (version message_type : ℕ) (reply : Reply) (post : List ℕ)
    (a : Answer
      (4 + length (mount_message w remote mountproc3_mnt))
      (reply_bytes (w.sequential % 2 ^ 32) message_type reply post))
    → length w.self_fqdn ≤ 255
    → length remote ≤ 600
    → connect_mount_port w.client ≡ ok (r, asked client a)
    → client.context.socket_fd ≢ minus_one
    → length (reply_bytes (w.sequential % 2 ^ 32) message_type reply post) ≤ 1024
    → client.context.total_received < 2 ^ 64
    → IsReply reply
    → message_type < 2 ^ 32
    → ((flavor : ℕ) → reply ≢ done flavor)
    → make_mount_call m w memory remote version auth_sys ≡ aborted
make_mount_call-refused m w client r memory remote version message_type reply post a short path
      connected fd small total valid ht refused =
    make_mount_call-exchange m w (asked client a) r memory remote version short
      (mount_fits w remote mountproc3_mnt short path) connected
    ∙ rw
        (
          mount_exchanged w client memory remote message_type reply post a fd small total valid ht,
          no_results reply
              (post
                ++ behind_reply memory
                    (reply_bytes (w.sequential % 2 ^ 32) message_type reply post))
              refused,
          nothing_read (set_mount_prot_version (set_mount_path m remote) version),
        )
        refl
