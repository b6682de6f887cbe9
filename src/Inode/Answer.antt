-- ===== src/Inode/Answer.antt =====
-- lookup against an NFS server that answers.
use nfs_client_simulator.Common.{
  ℕ, ◌+◌, ◌%◌, ◌^◌, ◌≤◌, ◌<◌, ◌≡◌, ◌≢◌, refl, ◌∙◌, List, [], ◌++◌, ok, none, some, ◌==◌, length,
  arith, append_assoc, ==_refl, Bool-cases, inl, inr,
}
use nfs_client_simulator.Common.Int.{ℤ, minus_one}
use nfs_client_simulator.GenericEnums.{auth_sys}
use nfs_client_simulator.Rpc.Reply.{done, reply_bytes}
use nfs_client_simulator.Xdr.{Buffer, xdr_decode_u32, xdr_decode_n_bytes}
use nfs_client_simulator.Xdr.Encode.{be32}
use nfs_client_simulator.Xdr.Decode.{xdr_decode_u32-drop}
use nfs_client_simulator.Xdr.Sequences.{xdr_decode_n_bytes-drop}
use nfs_client_simulator.Context.{Client}
use nfs_client_simulator.Context.Connection.{connect_nfs_port}
use nfs_client_simulator.Call.{World, Memory}
use nfs_client_simulator.Call.Message.{request_array, length-request_array}
use nfs_client_simulator.Call.Answer.{Answer, asked, answered, behind_reply, exchange-reply_bytes}
use nfs_client_simulator.Inode.{Inode, read_lookup_reply, lookup}
use nfs_client_simulator.Inode.Lookup.{lookup_message, lookup-exchange}

-- The answer to LOOKUP: a status, the handle of the child, and what follows.
abbrev pub lookup_reply : ℕ → List ℕ → List ℕ → List ℕ
lookup_reply status found post = be32 status ++ (be32 (length found) ++ found ++ post)

read_lookup_reply-lookup_reply :
    (status : ℕ) (found post : List ℕ)
    → status < 2 ^ 32
    → length found ≤ 64
    → read_lookup_reply (some (lookup_reply status found post)) ≡ ok none
unfolding read_lookup_reply
read_lookup_reply-lookup_reply status found post small short = elim (Bool-cases (status == 0)) [
  | inl good ↦ rw (status_read, good, read_lookup_reply, handle_read) refl
  | inr bad ↦ rw (status_read, bad, read_lookup_reply) refl
]
  where
    wire : Buffer
    wire = lookup_reply status found post

    status_read : xdr_decode_u32 (some wire) 0 ≡ ok (status, 4)
    status_read = xdr_decode_u32-drop wire 0 status _ (omega arith) small refl

    handle_read :
        xdr_decode_n_bytes (some wire) [] 64 4
        ≡ ok (some (length found), [] ++ found, 8 + length found)
    handle_read = xdr_decode_n_bytes-drop wire 4 64 [] found post (omega arith) short refl

-- The world after the exchange.
abbrev pub after_lookup :
    (w : World)
    → Client
    → Memory
    → (handle child : List ℕ) → (body : List ℕ)
    → Answer (4 + length (lookup_message w handle child)) body
    → World
after_lookup w client memory handle child body a = record w {
  client =
      answered client (request_array (lookup_message w handle child) memory.request)
        (4 + length (lookup_message w handle child)) body a;
  sequential = ((w.sequential + 1) % 2 ^ 64 + 1) % 2 ^ 64;
}

-- lookup in a directory that has a handle, which no code of the repository makes, against an NFS server that
-- answers: if connectNfsPort leaves an open socket, and the system takes the request and yields a successful reply
-- to it, in pieces of any size, with any status and a handle of at most 64 bytes, then lookup returns the null
-- pointer. The request has been sent and the reply received. Both have at most 1024 bytes.
pub lookup-reply_bytes :
    (w : World) (client : Client) (r : ℤ) (memory : Memory) (handle child : List ℕ) (parent : Inode)
    (flavor message_type status : ℕ) (found post : List ℕ)
    (a : Answer (4 + length (lookup_message w handle child)) (
      reply_bytes
        (w.sequential % 2 ^ 32)
        message_type
        (done flavor)
        (lookup_reply status found post)))
    → length w.self_fqdn ≤ 255
    → 4 + length (lookup_message w handle child) ≤ 1024
    → parent.self_handle ≡ some handle
    → connect_nfs_port w.client ≡ ok (r, asked client a)
    → client.context.socket_fd ≢ minus_one
    → length (
        reply_bytes
          (w.sequential % 2 ^ 32)
          message_type
          (done flavor)
          (lookup_reply status found post))
      ≤ 1024
    → client.context.total_received < 2 ^ 64
    → flavor < 2 ^ 32
    → message_type < 2 ^ 32
    → status < 2 ^ 32
    → length found ≤ 64
    → lookup w memory child parent auth_sys
      ≡ ok (
        none,
        after_lookup w client memory handle child
            (reply_bytes
              (w.sequential % 2 ^ 32)
              message_type
              (done flavor)
              (lookup_reply status found post))
            a,
      )
lookup-reply_bytes w client r memory handle child parent flavor message_type status found post a
      short fits held connected fd small total hf ht hs hh =
    lookup-exchange w (asked client a) r memory handle child parent short fits held connected
    ∙ rw
        (
          exchange-reply_bytes
              (record w {
                client = client;
                sequential = ((w.sequential + 1) % 2 ^ 64 + 1) % 2 ^ 64;
              })
              memory (request_array (lookup_message w handle child) memory.request)
              (4 + length (lookup_message w handle child)) (w.sequential % 2 ^ 32)
              (w.sequential % 2 ^ 32) message_type (done flavor) (lookup_reply status found post) a
              fd (omega arith) (length-request_array (lookup_message w handle child) memory.request)
              small total hf (omega arith) ht,
          ==_refl (w.sequential % 2 ^ 32),
          append_assoc found post (
              behind_reply memory (
                reply_bytes (w.sequential % 2 ^ 32) message_type (done flavor)
                  (lookup_reply status found post))),
          read_lookup_reply-lookup_reply status found
              (post
                ++ behind_reply memory (
                    reply_bytes (w.sequential % 2 ^ 32) message_type (done flavor)
                      (lookup_reply status found post)))
              hs hh,
        )
        refl
